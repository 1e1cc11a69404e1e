-- ===== src/Cluster/Directory.antt =====
-- internal/cluster/directory.go: the members of a cluster, and a client for each. sort.Slice is written out
-- as an insertion sort: members that the order does not tell apart are the same. net.SplitHostPort is
-- written out over bytes.
pub mod Order
pub mod Updates
use simple_cache.Prelude.{
  ℕ, zero, suc, ite, Bool, true, false, not, ◌&&◌, ◌||◌, Option, none, some, List, [], ◌∷◌, Bytes,
  Bytes-discrete, ltb, leb, ◌==◌, if◌then◌else◌,
}
use simple_cache.Prelude.Int.{ℤ, pos, negsuc}
use simple_cache.Prelude.Maps
use simple_cache.Prelude.Maps.{StringMap}
use simple_cache.Protocol.{parse_int}
use simple_cache.Cluster.{Client, is_empty}

pub record Member : Type 0 where
  pub id : Bytes
  pub address : Bytes

pub record Snapshot : Type 0 where
  pub clients : StringMap Client
  pub members : List Member

pub record Directory : Type 0 where
  pub self_id : Bytes
  pub token : Bytes
  pub state : Snapshot

-- `<` on strings
unfoldable pub lt_bytes : Bytes → Bytes → Bool
lt_bytes [] [] = false
lt_bytes [] (d ∷ k) = true
lt_bytes (c ∷ l) [] = false
lt_bytes (c ∷ l) (d ∷ k) = let rest = lt_bytes l k in if c == d then rest else ltb c d

abbrev pub same_text : Bytes → Bytes → Bool
same_text a b = ite (Bytes-discrete a b) true false

abbrev pub comes_before : Member → Member → Bool
comes_before m n = if same_text m.id n.id then lt_bytes m.address n.address else lt_bytes m.id n.id

unfoldable pub insert_member : Member → List Member → List Member
insert_member m [] = m ∷ []
insert_member m (n ∷ l) =
    let rest = insert_member m l in if comes_before n m then n ∷ rest else m ∷ n ∷ l

unfoldable pub sort_members : List Member → List Member
unfolding insert_member
sort_members [] = []
sort_members (m ∷ l) = insert_member m (sort_members l)

unfoldable pub has_byte : ℕ → Bytes → Bool
has_byte c [] = false
has_byte c (d ∷ l) = let rest = has_byte c l in d == c || rest

-- What stands before the last colon, and after it.
unfoldable pub split_colon : Bytes → Option (Bytes × Bytes)
split_colon [] = none
split_colon (c ∷ l) = elim (split_colon l) [
  | some (a, b) ↦ some (c ∷ a, b)
  | none ↦ if c == 58 then some ([], l) else none
]

-- The text before a closing bracket that ends it, where there is no other.
unfoldable pub until_bracket : Bytes → Option Bytes
until_bracket [] = none
until_bracket (c ∷ []) = if c == 93 then some [] else none
until_bracket (c ∷ d ∷ l) = elim (c == 93) [
  | true ↦ none
  | false ↦ elim (until_bracket (d ∷ l)) [ none ↦ none | some h ↦ some (c ∷ h) ]
]

abbrev pub has_bracket : Bytes → Bool
has_bracket s = has_byte 91 s || has_byte 93 s

-- net.SplitHostPort: the host, with its brackets taken off, and the port.
abbrev pub host_port : Bytes → Bytes → Option (Bytes × Bytes)
host_port [] port = if has_bracket port then none else some ([], port)
host_port (c ∷ host) port =
    if c == 91
    then elim (until_bracket host) [
      | none ↦ none
      | some h ↦ if has_byte 91 h || has_bracket port then none else some (h, port)
    ]
    else if has_byte 58 (c ∷ host) || (has_bracket (c ∷ host) || has_bracket port)
    then none
    else some (c ∷ host, port)

abbrev pub is_port : Option ℤ → Bool
is_port none = false
is_port (some (negsuc n)) = false
is_port (some (pos n)) = ltb 0 n && leb n 65535

unfoldable pub valid_address : Bytes → Bool
unfolding split_colon has_byte until_bracket parse_int
valid_address address =
    not (has_byte 47 address || (has_byte 63 address || has_byte 35 address))
    && elim (split_colon address) [
      | none ↦ false
      | some (before, after) ↦ elim (host_port before after) [
        | none ↦ false
        | some (host, port) ↦ not (is_empty host) && is_port (parse_int port)
      ]
    ]

abbrev pub accepted : Member → Bool
accepted m = not (is_empty m.id) && valid_address m.address

abbrev pub repeats : Option Bytes → Bytes → Bool
repeats none id = false
repeats (some last) id = same_text last id

abbrev pub kept_first : Member → Option (List Member) → Option (List Member)
kept_first m none = none
kept_first m (some l) = some (m ∷ l)

-- The loop over the sorted members, after one with the identity `last`; `none` is an invalid member.
unfoldable pub normalize : Option Bytes → List Member → Option (List Member)
unfolding valid_address
normalize last [] = some []
normalize last (m ∷ l) = elim (accepted m) [
  | false ↦ none
  | true ↦ elim (repeats last m.id) [
    | true ↦ normalize last l
    | false ↦ kept_first m (normalize (some m.id) l)
  ]
]

unfoldable pub same_members : List Member → List Member → Bool
same_members [] [] = true
same_members [] (n ∷ k) = false
same_members (m ∷ l) [] = false
same_members (m ∷ l) (n ∷ k) =
    let rest = same_members l k in same_text m.id n.id && (same_text m.address n.address && rest)

abbrev pub client_of : Bytes → Member → Client
client_of token m = record { address = m.address; token = token }

unfoldable pub clients_from : Bytes → List Member → StringMap Client → StringMap Client
clients_from token [] acc = acc
clients_from token (m ∷ l) acc = clients_from token l (Maps.put m.id (client_of token m) acc)

abbrev pub snapshot_of : Bytes → List Member → Snapshot
snapshot_of token members = record { clients = clients_from token members []; members = members }

-- NewDirectory, which panics on an empty identity; a timeout that is not positive is left out.
unfoldable pub new_directory : Bytes → Bytes → Option Directory
unfolding clients_from
new_directory [] token = none
new_directory (c ∷ self_id) token =
    some (record { self_id = c ∷ self_id; token = token; state = snapshot_of token [] })

-- Update; `true` is its error.
abbrev pub updated : Option (List Member) → Directory → Directory × Bool
updated none d = (d, true)
updated (some members) d =
    if same_members d.state.members members
    then (d, false)
    else (record d { state = snapshot_of d.token members }, false)

unfoldable pub update : List Member → Directory → Directory × Bool
unfolding normalize sort_members same_members
update input d = updated (normalize none (sort_members input)) d
