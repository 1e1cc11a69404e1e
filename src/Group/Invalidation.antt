-- ===== src/Group/Invalidation.antt =====
-- versions.go `InvalidateVersion`: what is resident and what is recorded after it.
use simple_cache.Prelude.{
  ℕ, ◌≤◌, ◌<◌, ◌≡◌, sym, subst, ap, ◌≢◌, max, Bool, true, false, some, Bytes, Bytes-discrete,
  length, ltb, ◌==◌, ◌||◌, if◌then◌else◌, arith,
}
use simple_cache.Area.{ByteView}
use simple_cache.Area.Laws
use simple_cache.Area.Laws.{resident, remove-Keeps, resident-remove}
use simple_cache.Group.{
  Group, VersionFloors, find_floor, or_zero, bump_epoch, remember_version, known_version,
  drop_older, apply_version,
}
use simple_cache.Group.Stripes.{floor_of}
use simple_cache.Group.Fences.{apply_version-Moves, remember_version-floor}
use simple_cache.Group.Invariant.{
  IsSound, known_version-Knows, remember_version-Remembers, Dropped, drop_older-Dropped,
  Invalidated,
}

-- The group between the bump and the removal.
pub record Between (j : Bytes) (m : ℕ) (g mid : Group) : Type 0 where
  pub cache : mid.main_cache ≡ g.main_cache
  capacity : mid.floors.capacity ≡ g.floors.capacity
  bounded : length mid.floors.advanced ≤ mid.floors.capacity
  own : floor_of j mid ≤ max m (floor_of j g)
  recorded : m ≤ floor_of j mid
  others : (k : Bytes) → j ≢ k → floor_of k mid ≤ floor_of k g

pub bumped-Between :
    (b : Bool) (j : Bytes) (m : ℕ) (g : Group)
    → 0 < g.floors.capacity
    → length g.floors.advanced ≤ g.floors.capacity
    → let mid = remember_version j m g in Between j m g (if b then bump_epoch j mid else mid)
unfolding bump_epoch
bumped-Between true j m g c l =
    let r = remember_version-Remembers j m g c l in
    record {
      cache = r.cache;
      capacity = r.capacity;
      bounded = r.bounded;
      own = r.own;
      recorded = remember_version-floor j m g;
      others = r.others;
    }
bumped-Between false j m g c l =
    let r = remember_version-Remembers j m g c l in
    record {
      cache = r.cache;
      capacity = r.capacity;
      bounded = r.bounded;
      own = r.own;
      recorded = remember_version-floor j m g;
      others = r.others;
    }

-- The floor and the cache once the older value is gone.
floors_still_held :
    (later : ℕ) (j : Bytes) (v m : ℕ) (g mid : Group)
    → IsSound g
    → floor_of j g ≤ m
    → Between j m g mid
    → Dropped j m mid (drop_older later j v m mid)
    → (k : Bytes) (w : ByteView) → resident k (drop_older later j v m mid).main_cache ≡ some w
    → floor_of k (drop_older later j v m mid) ≤ w.version
floors_still_held later j v m g mid s low b d k w h =
    let g' = drop_older later j v m mid in
    elim (Bytes-discrete j k) [
      | yes same ↦
          subst (λ q. floor_of q g' ≤ w.version) same
            (omega (
              arith,
              ap (λ (f : VersionFloors). or_zero (find_floor j f.advanced)) d.floors,
              b.own,
              d.fresh w (subst (λ q. resident q g'.main_cache ≡ some w) (sym same) h),
            ))
      | no other ↦ omega (
        arith,
        ap (λ (f : VersionFloors). or_zero (find_floor k f.advanced)) d.floors,
        b.others k other,
        s.held k w (subst (λ a. resident k a ≡ some w) b.cache (d.shrinks k w h)),
      )
    ]

-- InvalidateVersion with an accepted key and version, on a sound group: it stays sound, the version is recorded,
-- and what is still resident under the key is no older than it. Nothing comes in.
pub apply_version-Invalidated :
    (now later : ℕ) (j : Bytes) (v : ℕ) (g : Group)
    → IsSound g
    → Invalidated j v g (apply_version now later j v g)
unfolding apply_version
apply_version-Invalidated now later j v g s =
    let a = (known_version now j g).0 in
    let known = (known_version now j g).1 in
    let p = known_version-Knows now j g s in
    let t = v == 0 || ltb known v in
    let m = max known v in
    let first = remember_version j m a in
    let mid = if t then bump_epoch j first else first in
    let b = bumped-Between t j m a p.sound.some_room p.sound.bounded in
    let area : Laws.IsSound mid.main_cache = subst Laws.IsSound (sym b.cache) p.sound.area in
    let d = drop_older-Dropped later j v m mid area in
    let g' = drop_older later j v m mid in
    let low : floor_of j a ≤ m = omega (arith, p.floor) in
    let fl = ap (λ (f : VersionFloors). or_zero (find_floor j f.advanced)) d.floors in
    record {
      sound = record {
        area = d.sound;
        stripes = (apply_version-Moves j now later j v g s.stripes).stripes;
        some_room =
            omega (
              arith,
              ap (λ (f : VersionFloors). f.capacity) d.floors,
              b.capacity,
              p.sound.some_room,
            );
        bounded = omega (
          arith,
          ap (λ (f : VersionFloors). f.capacity) d.floors,
          ap (λ (f : VersionFloors). length f.advanced) d.floors,
          b.bounded,
        );
        held = floors_still_held later j v m a mid p.sound low b d;
      };
      recorded = omega (arith, fl, b.recorded);
      fresh = λ w h. omega (arith, d.fresh w h);
      moves = λ k. apply_version-Moves k now later j v g s.stripes;
      shrinks =
          λ k w h. p.shrinks k w (subst (λ q. resident k q ≡ some w) b.cache (d.shrinks k w h));
    }
