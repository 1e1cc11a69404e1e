-- ===== src/Lru.antt =====
-- internal/cache/lru/lru.go: the byte-bounded LRU with expiry and a pruning cursor. The list, the
-- index and the cursor share elements by identity (Lru/Elements). An instant is a number of
-- nanoseconds since Go's zero Time, whose own number is 0; readings of the clock are arguments.
-- `byte_now` is an int64 and wraps. The callback acts on `outer`, the state of its closure.
pub mod Elements
pub mod Invariant
pub mod Eviction
pub mod Adding
pub mod Pruning
pub mod Shrinking
pub mod Lookup
pub mod Bounds
pub mod Calls
use simple_cache.Prelude.{
  ℕ, zero, suc, ◌+◌, ite, Bool, true, false, not, ◌&&◌, ◌||◌, List, [], ◌∷◌, Option, none, some,
  Bytes, ℕ_discrete, length, add64, sub64, ltb64, ltb, leb, ◌==◌, if◌then◌else◌, min,
}
use simple_cache.Prelude.Maps
use simple_cache.Prelude.Maps.{StringMap}
use Elements.{Element, find_id, remove_id, back, prev}

pub record Cache (V S : Type 0) : Type 0 where
  pub bytes_total : ℕ
  pub byte_now : ℕ
  pub ll : List (Element V)
  pub cache : StringMap ℕ
  pub expire_cursor : Option ℕ
  pub next_id : ℕ
  pub outer : S

-- `!t.IsZero() && !t.After(now)`
abbrev pub expired : ℕ → ℕ → Bool
expired t now = not (t == 0) && leb t now

unfoldable pub new_cache : {V S : Type 0} → ℕ → S → Cache V S
new_cache bytes_total outer = record {
  bytes_total = bytes_total;
  byte_now = 0;
  ll = [];
  cache = [];
  expire_cursor = none;
  next_id = 0;
  outer = outer;
}

-- `c.cache[key]`, followed to its element.
unfoldable pub element_of : {V S : Type 0} → Cache V S → Bytes → Option (Element V)
element_of c key = elim (Maps.get key c.cache) [ none ↦ none | some i ↦ find_id i c.ll ]

-- `ll.MoveToFront`
unfoldable pub move_to_front : {V S : Type 0} → Element V → Cache V S → Cache V S
move_to_front e c = record c { ll = e ∷ remove_id e.id c.ll }

-- `c.expireCursor`, or the back of the list where it is nil.
unfoldable pub cursor_element : {V S : Type 0} → Cache V S → Option (Element V)
cursor_element c = elim c.expire_cursor [ none ↦ back c.ll | some i ↦ find_id i c.ll ]

unfoldable pub bytes : {V S : Type 0} → Cache V S → ℕ
bytes c = c.byte_now

unfoldable pub len_cache : {V S : Type 0} → Cache V S → ℕ
len_cache c = length c.ll

module _ {V S : Type 0} (len : V → ℕ) (on_evicted : Bytes → V → S → S) where
  -- int64(len(kv.key)) + int64(kv.value.Len())
  abbrev pub entry_size : Element V → ℕ
  entry_size e = length e.key + len e.value

  unfoldable pub remove_element : Element V → Cache V S → Cache V S
  remove_element e c = record c {
    expire_cursor = elim c.expire_cursor [
      | none ↦ none
      | some i ↦ ite (ℕ_discrete i e.id) (prev e.id c.ll) (some i)
    ];
    ll = remove_id e.id c.ll;
    cache = Maps.delete e.key c.cache;
    byte_now = sub64 c.byte_now (entry_size e);
    outer = on_evicted e.key e.value c.outer;
  }

  unfoldable pub peek : ℕ → Bytes → Cache V S → Cache V S × Option V
  peek now key c = elim (element_of c key) [
    | none ↦ (c, none)
    | some e ↦ if expired e.expire_at now then (remove_element e c, none) else (c, some e.value)
  ]

  unfoldable pub get : ℕ → Bytes → Cache V S → Cache V S × Option V
  get now key c =
      let (c', value) = peek now key c in
      elim value [
        | none ↦ (c', none)
        | some v ↦ elim (element_of c' key) [
          | none ↦ (c', some v)
          | some e ↦ (move_to_front e c', some v)
        ]
      ]

  unfoldable pub remove_oldest : Cache V S → Cache V S
  remove_oldest c = elim (back c.ll) [ none ↦ c | some e ↦ remove_element e c ]

  unfoldable pub remove : Bytes → Cache V S → Cache V S
  remove key c = elim (element_of c key) [ none ↦ c | some e ↦ remove_element e c ]

  -- `for c.bytesTotal != 0 && c.byteNow > c.bytesTotal { c.RemoveOldest() }`, on fuel; `none` means
  -- that the fuel ran out.
  unfoldable pub evict : ℕ → Cache V S → Option (Cache V S)
  evict zero c = none
  evict (suc fuel) c =
      let rest = evict fuel (remove_oldest c) in
      if not (c.bytes_total == 0) && ltb64 c.bytes_total c.byte_now then rest else some c

  -- The `if` of AddUntil: the entry is updated in place, or a new one is pushed.
  unfoldable pub store_entry : Bytes → V → ℕ → Cache V S → Cache V S
  store_entry key value expire_at c = elim (element_of c key) [
    | some e ↦ record c {
      ll =
          record { id = e.id; key = e.key; value = value; expire_at = expire_at }
          ∷ remove_id e.id c.ll;
      byte_now = sub64 c.byte_now (sub64 (len e.value) (len value));
    }
    | none ↦ record c {
      ll = record { id = c.next_id; key = key; value = value; expire_at = expire_at } ∷ c.ll;
      cache = Maps.put key c.next_id c.cache;
      byte_now = add64 c.byte_now (length key + len value);
      next_id = suc c.next_id;
    }
  ]

  -- One round more than there are elements.
  unfoldable pub add_until : Bytes → V → ℕ → Cache V S → Option (Cache V S)
  unfolding store_entry
  add_until key value expire_at c =
      let c' = store_entry key value expire_at c in evict (suc (length c'.ll)) c'

  unfoldable pub add : ℕ → Bytes → V → ℕ → Cache V S → Option (Cache V S)
  unfolding add_until
  add now key value ttl c = add_until key value (if ltb 0 ttl then now + ttl else 0) c

  -- One round of PruneExpired on a cursor that is already set.
  unfoldable pub prune_at : ℕ → Element V → Cache V S → Cache V S × Bool
  prune_at now current c =
      let c' = record c { expire_cursor = prev current.id c.ll } in
      if expired current.expire_at now then (remove_element current c', true) else (c', false)

  -- The loop of PruneExpired: `rounds` is `limit - checked`, `clock i` the reading before round `i`.
  unfoldable pub prune_loop : (ℕ → ℕ) → ℕ → ℕ → ℕ → ℕ → ℕ → ℕ → Cache V S → Cache V S × ℕ × ℕ
  prune_loop clock deadline now zero i checked removed c = (c, checked, removed)
  prune_loop clock deadline now (suc rounds) i checked removed c =
      if ltb (clock i) deadline
      then elim (cursor_element c) [
        | none ↦ (c, checked, removed)
        | some current ↦
            let (c', gone) = prune_at now current c in
            prune_loop clock deadline now rounds (suc i) (suc checked)
              (if gone then suc removed else removed) c'
      ]
      else (c, checked, removed)

  -- A limit or a budget that is not positive is 0 here.
  unfoldable pub prune_expired : (ℕ → ℕ) → ℕ → ℕ → ℕ → Cache V S → Cache V S × ℕ × ℕ
  prune_expired clock now limit budget c =
      if limit == 0 || budget == 0
      then (c, 0, 0)
      else prune_loop clock (clock 0 + budget) now (min limit (length c.ll)) 1 0 0 c
