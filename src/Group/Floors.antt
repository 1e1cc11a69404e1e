-- ===== src/Group/Floors.antt =====
-- versions.go: the bounded table of version floors.
use simple_cache.Prelude.{
  ℕ, suc, ◌≤◌, ◌≡◌, refl, ◌≢◌, none, some, List, [], ◌∷◌, Bytes, length, arith,
}
use simple_cache.Group.{VersionRecord, find_floor, remove_floor, last_floor, drop_last, or_zero}

pub find_floor-remove_ne :
    (k j : Bytes) (l : List VersionRecord)
    → k ≢ j
    → find_floor j (remove_floor k l) ≡ find_floor j l
unfolding find_floor remove_floor
find_floor-remove_ne k j [] h = refl
find_floor-remove_ne k j (r ∷ l) h = ground (arith, find_floor-remove_ne k j l h)

pub length-remove_floor :
    (k : Bytes) (l : List VersionRecord) (v : ℕ)
    → find_floor k l ≡ some v
    → suc (length (remove_floor k l)) ≡ length l
unfolding find_floor remove_floor
length-remove_floor k [] v h = cc
length-remove_floor k (r ∷ l) v h = ground (arith, length-remove_floor k l v)

-- Retiring the oldest record adds no floor.
pub floor-drop_last-le :
    (k : Bytes) (l : List VersionRecord)
    → or_zero (find_floor k (drop_last l)) ≤ or_zero (find_floor k l)
unfolding find_floor drop_last
floor-drop_last-le k [] = omega arith
floor-drop_last-le k (r ∷ []) = ground arith
floor-drop_last-le k (r ∷ s ∷ l) = ground (arith, floor-drop_last-le k (s ∷ l))

-- It keeps the floors of the other keys.
pub find_floor-drop_last_ne :
    (k : Bytes) (l : List VersionRecord) (old : VersionRecord)
    → last_floor l ≡ some old
    → old.key ≢ k
    → find_floor k (drop_last l) ≡ find_floor k l
unfolding find_floor drop_last last_floor
find_floor-drop_last_ne k [] old h ne = cc
find_floor-drop_last_ne k (r ∷ []) old h ne = ground arith
find_floor-drop_last_ne k (r ∷ s ∷ l) old h ne =
    ground (arith, find_floor-drop_last_ne k (s ∷ l) old h ne)

pub length-drop_last :
    (l : List VersionRecord) (old : VersionRecord)
    → last_floor l ≡ some old
    → suc (length (drop_last l)) ≡ length l
unfolding drop_last last_floor
length-drop_last [] old h = cc
length-drop_last (r ∷ []) old h = refl
length-drop_last (r ∷ s ∷ l) old h = ground (arith, length-drop_last (s ∷ l) old h)

pub last_floor-none : (l : List VersionRecord) → last_floor l ≡ none → length l ≡ 0
unfolding last_floor
last_floor-none [] h = refl
last_floor-none (r ∷ []) h = cc
last_floor-none (r ∷ s ∷ l) h = absurd (ground (arith, last_floor-none (s ∷ l) h))
