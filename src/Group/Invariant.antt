-- ===== src/Group/Invariant.antt =====
-- versions.go: no resident value is older than the floor of its key, and the table is bounded.
use simple_cache.Prelude.{
  ℕ, suc, ◌≤◌, ◌<◌, ◌≡◌, refl, ◌≢◌, inl, inr, max, some, Bytes, length, ltb, ◌==◌, Option-cases,
  Bool-cases, arith,
}
use simple_cache.Area
use simple_cache.Area.{Area, ByteView}
use simple_cache.Area.Laws
use simple_cache.Area.Laws.{
  resident, version-Keeps, version-resident, remove-Keeps, resident-remove,
}
use simple_cache.Group.{
  Group, bump_epoch, find_floor, last_floor, make_room, push_floor, advance_floor, remember_version,
  known_version, drop_older,
}
use simple_cache.Group.Floors.{
  find_floor-remove_ne, length-remove_floor, floor-drop_last-le, length-drop_last, last_floor-none,
}
use simple_cache.Group.Stripes.{HasStripes, floor_of, Moves}

pub record IsSound (g : Group) : Type 0 where
  pub area : Laws.IsSound g.main_cache
  pub stripes : HasStripes g
  pub some_room : 0 < g.floors.capacity
  pub bounded : length g.floors.advanced ≤ g.floors.capacity
  pub held :
      (k : Bytes) (w : ByteView) → resident k g.main_cache ≡ some w → floor_of k g ≤ w.version

-- A smaller cache under the same floors.
pub shrunk-IsSound :
    (g : Group) (a : Area)
    → IsSound g
    → Laws.Keeps g.main_cache a
    → IsSound (record g { main_cache = a })
shrunk-IsSound g a s p = record {
  area = p.sound;
  stripes = record { words = s.stripes.words; few = s.stripes.few };
  some_room = s.some_room;
  bounded = s.bounded;
  held = λ k w h. s.held k w (p.shrinks k w h);
}

pub known_version-IsSound :
    (now : ℕ) (k : Bytes) (g : Group) → IsSound g → IsSound (known_version now k g).0
unfolding known_version
known_version-IsSound now k g s = shrunk-IsSound g _ s (version-Keeps now k g.main_cache s.area)

-- The known version is that of the floor or of the value that stays resident, whichever is more.
pub record Knows (k : Bytes) (g : Group) (r : Group × ℕ) : Type 0 where
  pub sound : IsSound r.0
  pub floor : floor_of k r.0 ≤ r.1
  pub same : floor_of k r.0 ≡ floor_of k g
  pub cached : (w : ByteView) → resident k r.0.main_cache ≡ some w → w.version ≤ r.1
  pub shrinks :
      (j : Bytes) (w : ByteView)
      → resident j r.0.main_cache ≡ some w
      → resident j g.main_cache ≡ some w

pub known_version-Knows :
    (now : ℕ) (k : Bytes) (g : Group) → IsSound g → Knows k g (known_version now k g)
unfolding known_version
known_version-Knows now k g s = record {
  sound = shrunk-IsSound g _ s (version-Keeps now k g.main_cache s.area);
  floor = omega arith;
  same = refl;
  cached = λ w h. omega (arith, version-resident now k g.main_cache w s.area h);
  shrinks = (version-Keeps now k g.main_cache s.area).shrinks;
}

-- What remembering does to the table: other floors do not rise, and it stays bounded.
pub record Remembers (j : Bytes) (v : ℕ) (g g' : Group) : Type 0 where
  pub cache : g'.main_cache ≡ g.main_cache
  pub capacity : g'.floors.capacity ≡ g.floors.capacity
  pub bounded : length g'.floors.advanced ≤ g'.floors.capacity
  pub own : floor_of j g' ≤ max v (floor_of j g)
  pub others : (k : Bytes) → j ≢ k → floor_of k g' ≤ floor_of k g

record Roomy (g g' : Group) : Type 0 where
  cache : g'.main_cache ≡ g.main_cache
  capacity : g'.floors.capacity ≡ g.floors.capacity
  room : suc (length g'.floors.advanced) ≤ g'.floors.capacity
  lower : (k : Bytes) → floor_of k g' ≤ floor_of k g

room_made :
    (g : Group)
    → 0 < g.floors.capacity
    → length g.floors.advanced ≤ g.floors.capacity
    → suc (length (make_room g).floors.advanced) ≤ g.floors.capacity
unfolding make_room bump_epoch
room_made g c b = elim (Option-cases (last_floor g.floors.advanced)) [
  | inl e ↦ ground (arith, last_floor-none g.floors.advanced e)
  | inr (old, e) ↦ ground (arith, length-drop_last g.floors.advanced old e)
]

make_room-Roomy :
    (g : Group)
    → 0 < g.floors.capacity
    → length g.floors.advanced ≤ g.floors.capacity
    → Roomy g (make_room g)
unfolding make_room bump_epoch
make_room-Roomy g c b = record {
  cache = ground arith;
  capacity = ground arith;
  room = ground (arith, room_made g c b);
  lower = λ k. ground (arith, floor-drop_last-le k g.floors.advanced);
}

pub remember_version-Remembers :
    (j : Bytes) (v : ℕ) (g : Group)
    → 0 < g.floors.capacity
    → length g.floors.advanced ≤ g.floors.capacity
    → Remembers j v g (remember_version j v g)
unfolding remember_version push_floor advance_floor find_floor
remember_version-Remembers j v g c b = elim (Option-cases (find_floor j g.floors.advanced)) [
  | inl e ↦
      let r = make_room-Roomy g c b in
      record {
        cache = ground (arith, r.cache);
        capacity = ground (arith, r.capacity);
        bounded = ground (arith, r.room);
        own = ground (arith, e);
        others = λ k ne. ground (arith, r.lower k);
      }
  | inr (old, e) ↦ record {
    cache = ground arith;
    capacity = ground arith;
    bounded = ground (arith, length-remove_floor j g.floors.advanced old e);
    own = ground arith;
    others = λ k ne. ground (arith, find_floor-remove_ne j k g.floors.advanced ne);
  }
]

-- After `drop_older` what is resident under the key has at least the minimum, or is gone.
pub record Dropped (j : Bytes) (m : ℕ) (g g' : Group) : Type 0 where
  pub sound : Laws.IsSound g'.main_cache
  pub shrinks :
      (k : Bytes) (w : ByteView)
      → resident k g'.main_cache ≡ some w
      → resident k g.main_cache ≡ some w
  pub floors : g'.floors ≡ g.floors
  pub fresh : (w : ByteView) → resident j g'.main_cache ≡ some w → m ≤ w.version

removed-Dropped :
    (j : Bytes) (m : ℕ) (g : Group) (a : Area)
    → Laws.Keeps g.main_cache a
    → Dropped j m g (record g { main_cache = Area.remove j a })
removed-Dropped j m g a p =
    let q = remove-Keeps j a p.sound in
    record {
      sound = q.sound;
      shrinks = λ k w h. p.shrinks k w (q.shrinks k w h);
      floors = refl;
      fresh = λ w h. cc (h, resident-remove j a p.sound);
    }

pub drop_older-Dropped :
    (later : ℕ) (j : Bytes) (v m : ℕ) (g : Group)
    → Laws.IsSound g.main_cache
    → Dropped j m g (drop_older later j v m g)
unfolding drop_older
drop_older-Dropped later j v m g s = elim (Bool-cases (v == 0)) [
  | inl forced ↦
      rw (forced, drop_older) (removed-Dropped j m g g.main_cache (Laws.Keeps-refl g.main_cache s))
  | inr versioned ↦
      let a = (Area.version later j g.main_cache).0 in
      let cached = (Area.version later j g.main_cache).1 in
      let p = version-Keeps later j g.main_cache s in
      elim (Bool-cases (ltb cached m)) [
        | inl older ↦ rw (versioned, drop_older, older) (removed-Dropped j m g a p)
        | inr newer ↦
            rw (versioned, drop_older, newer)
              (record {
                sound = p.sound;
                shrinks = p.shrinks;
                floors = refl;
                fresh = λ w h. ground (arith, version-resident later j g.main_cache w s h);
              })
      ]
]

-- What InvalidateVersion leaves for a key and an accepted version.
pub record Invalidated (j : Bytes) (v : ℕ) (g g' : Group) : Type 0 where
  pub sound : IsSound g'
  pub recorded : v ≤ floor_of j g'
  pub fresh : (w : ByteView) → resident j g'.main_cache ≡ some w → v ≤ w.version
  pub moves : (k : Bytes) → Moves k 2 g g'
  pub shrinks :
      (k : Bytes) (w : ByteView)
      → resident k g'.main_cache ≡ some w
      → resident k g.main_cache ≡ some w
