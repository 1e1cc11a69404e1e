-- ===== src/Tests/Areas.antt =====
-- internal/cache/cache.go at fixed inputs.
use simple_cache.Prelude.{
  ℕ, ◌≡◌, refl, sym, subst, ◌∙◌, [], ◌∷◌, none, some, Bytes, Bytes-discrete, arith,
}
use simple_cache.Prelude.Maps
use simple_cache.Lru
use simple_cache.Lru.Elements.{find_id, find_key}
use simple_cache.Area.{ByteView, Area, add, get, version, deadline_of, lru_of}
use simple_cache.Area.Laws.{IsSound, resident_in, version-resident}
use simple_cache.Area.Placement.{IsDeadline, Placed, add-Placed}
use simple_cache.Area.Roundtrip.{get-add}

abbrev empty_area : Area
empty_area = record { lru = none; cache_bytes = 20 }

abbrev key : Bytes
key = 97 ∷ []

abbrev value : ByteView
value = record { b = 1 ∷ 2 ∷ []; expires_at = 0; version = 4 }

abbrev stored : ByteView
stored = record { b = 1 ∷ 2 ∷ []; expires_at = 110; version = 4 }

empty_area-IsSound : IsSound empty_area
empty_area-IsSound = record { positive = omega arith; small = omega arith; bounded = tt }

add-Placed_example :
    (t : ℕ) × IsDeadline 100 10 value t
    × ((r : Area × ByteView) × (add 100 101 key value 10 empty_area ≡ some r)
        × Placed 101 key value t empty_area r)
add-Placed_example = add-Placed 100 101 key value 10 empty_area empty_area-IsSound

abbrev one_area : Area
one_area = record {
  lru = some (record {
    bytes_total = 20;
    byte_now = 3;
    ll = record { id = 0; key = key; value = stored; expire_at = 110 } ∷ [];
    cache = (key, 0) ∷ [];
    expire_cursor = none;
    next_id = 1;
    outer = 0;
  });
  cache_bytes = 20;
}

one_area-added : add 100 101 key value 10 empty_area ≡ some (one_area, stored)
unfolding add deadline_of lru_of Lru.new_cache Lru.add_until Lru.evict Lru.element_of Maps.get
    Maps.put Lru.store_entry
one_area-added = refl

one_area-IsSound : IsSound one_area
one_area-IsSound =
    let (t, ends, (r, run, p)) = add-Placed 100 101 key value 10 empty_area empty_area-IsSound in
    let same : r ≡ (one_area, stored) = ground (arith, sym run ∙ one_area-added) in
    subst (λ (x : Area × ByteView). IsSound x.0) same p.inserted.sound

version-resident_example : (version 105 key one_area).1 ≡ 4
unfolding resident_in version Lru.peek Lru.element_of Maps.get find_id find_key Bytes-discrete
version-resident_example = version-resident 105 key one_area stored one_area-IsSound refl

-- Stored at 100 for 10, read at 109.
get-add_example :
    (r : Area × ByteView) × (add 100 101 key value 10 empty_area ≡ some r)
    × (r.1 ≡ stored)
    × ((get 109 key r.0).1 ≡ some r.1)
unfolding deadline_of
get-add_example =
    get-add 100 101 109 key value 10 empty_area empty_area-IsSound (omega arith) (omega arith)
      (omega arith)
