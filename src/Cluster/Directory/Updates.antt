-- ===== src/Cluster/Directory/Updates.antt =====
-- directory.go `Update`: the members are in order, each once and valid, and each has its client.
use simple_cache.Prelude.{
  ◌≡◌, refl, sym, subst, ◌∙◌, ◌⊎◌, inl, inr, true, Option, none, some, List, [], ◌∷◌, Bytes,
  Bool-cases, arith,
}
use simple_cache.Prelude.Maps
use simple_cache.Prelude.Maps.{StringMap, get-put}
use simple_cache.Cluster.{Client}
use simple_cache.Cluster.Directory.{
  Member, Directory, lt_bytes, sort_members, accepted, normalize, same_members, client_of,
  clients_from, snapshot_of, new_directory, updated, update,
}
use simple_cache.Cluster.Directory.Order.{
  lt_bytes_irrefl, lt_bytes_trans, IsRising, AllMembers, Normal, normalize-Normal,
  sort_members-IsOrdered,
}

-- A later client does not replace one of another identity.
clients_from_other :
    (token : Bytes) (k last : Bytes) (l : List Member) (acc : StringMap Client)
    → (k ≡ last) ⊎ (lt_bytes k last ≡ true)
    → IsRising (some last) l
    → Maps.get k (clients_from token l acc) ≡ Maps.get k acc
unfolding clients_from IsRising
clients_from_other token k last [] acc h g = refl
clients_from_other token k last (m ∷ l) acc h (a, g) =
    let above : lt_bytes k m.id ≡ true = elim h [
      | inl same ↦ subst (λ x. lt_bytes x m.id ≡ true) (sym same) a
      | inr b ↦ lt_bytes_trans k last m.id b a
    ] in
    clients_from_other token k m.id l (Maps.put m.id (client_of token m) acc) (inr above) g
    ∙ ground (arith, get-put m.id k (client_of token m) acc, above, lt_bytes_irrefl k)

abbrev pub HasClient : Bytes → StringMap Client → Member → Type 0
HasClient token clients m = Maps.get m.id clients ≡ some (client_of token m)

clients_from-HasClient :
    (token : Bytes) (last : Option Bytes) (l : List Member) (acc : StringMap Client)
    → IsRising last l
    → AllMembers (HasClient token (clients_from token l acc)) l
unfolding clients_from IsRising AllMembers
clients_from-HasClient token last [] acc h = tt
clients_from-HasClient token last (m ∷ l) acc (a, h) = (
  clients_from_other token m.id m.id l (Maps.put m.id (client_of token m) acc) (inl refl) h
      ∙ ground (arith, get-put m.id m.id (client_of token m) acc),
  clients_from-HasClient token (some m.id) l (Maps.put m.id (client_of token m) acc) h,
)

-- The members are in the order of their identities, each once; each has an identity and a valid address;
-- and each has its client.
pub record IsConsistent (d : Directory) : Type 0 where
  pub rising : IsRising none d.state.members
  pub valid : AllMembers (λ m. accepted m ≡ true) d.state.members
  pub reachable : AllMembers (HasClient d.token d.state.clients) d.state.members

updated-IsConsistent :
    (r : Option (List Member)) (d : Directory)
    → Normal none r
    → IsConsistent d
    → IsConsistent (updated r d).0
updated-IsConsistent none d n h = h
updated-IsConsistent (some l) d (rising, valid) h =
    elim (Bool-cases (same_members d.state.members l)) [
      | inl same ↦ rw same h
      | inr changed ↦ rw changed (record {
        rising = rising;
        valid = valid;
        reachable = clients_from-HasClient d.token none l [] rising;
      })
    ]

-- An update of a consistent directory, whatever members it names, accepted or refused, leaves a consistent
-- directory.
pub update-IsConsistent :
    (input : List Member) (d : Directory) → IsConsistent d → IsConsistent (update input d).0
unfolding update
update-IsConsistent input d h =
    updated-IsConsistent (normalize none (sort_members input)) d
      (normalize-Normal none (sort_members input) (sort_members-IsOrdered input)) h

pub new_directory-IsConsistent :
    (self_id token : Bytes) (d : Directory) → new_directory self_id token ≡ some d → IsConsistent d
unfolding new_directory IsRising AllMembers
new_directory-IsConsistent [] token d h = cc
new_directory-IsConsistent (c ∷ self_id) token d h =
    let same : record { self_id = c ∷ self_id; token = token; state = snapshot_of token [] } ≡ d =
      ground (arith, h) in
    subst IsConsistent same (record { rising = tt; valid = tt; reachable = tt })

unfoldable pub updates : List (List Member) → Directory → Directory
updates [] d = d
updates (input ∷ l) d = updates l (update input d).0

updates_keep :
    (l : List (List Member)) (d : Directory) → IsConsistent d → IsConsistent (updates l d)
unfolding updates
updates_keep [] d h = h
updates_keep (input ∷ l) d h = updates_keep l (update input d).0 (update-IsConsistent input d h)

-- A directory that NewDirectory made, after any updates, accepted or refused: its members are in the order
-- of their identities, each once, each with a valid address, and the client of each is in the table.
pub updates-IsConsistent :
    (self_id token : Bytes) (l : List (List Member)) (d : Directory)
    → new_directory self_id token ≡ some d
    → IsConsistent (updates l d)
updates-IsConsistent self_id token l d h =
    updates_keep l d (new_directory-IsConsistent self_id token d h)
