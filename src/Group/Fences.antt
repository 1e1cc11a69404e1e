-- ===== src/Group/Fences.antt =====
-- versions.go: how the epoch and the floor of a key may move. Every operation adds few bumps to the
-- epoch of a key's stripe, and lowers the floor of a key only together with a bump.
use simple_cache.Prelude.{
  ℕ, ◌+◌, ◌%◌, ◌^◌, ◌≤◌, ◌<◌, ◌≡◌, refl, ◌∙◌, inl, inr, max, Bool, true, false, none, some, List,
  Bytes, Bytes-discrete, ℕ_discrete, length, get_or, set, get_or-set_self, get_or-set_ne,
  length-set, add64, ltb, ◌==◌, ◌||◌, if◌then◌else◌, Option-cases, Bool-cases, ltb→lt, arith, subst,
}
use simple_cache.Group.{
  Group, VersionRecord, epoch_bucket, current_epoch, bump_epoch, find_floor, last_floor, make_room,
  push_floor, advance_floor, remember_version, known_version, drop_older, apply_version, drop_last,
}
use simple_cache.Group.Floors.{find_floor-remove_ne, floor-drop_last-le, find_floor-drop_last_ne}
use simple_cache.Group.Stripes.{
  floor_of, HasStripes, Moves, Moves-same, Moves-trans, Moves-weaken, epoch_bucket-lt,
}

bump_at :
    (l : List ℕ) (i j : ℕ)
    → i < length l
    → get_or (set l i (add64 (get_or l i 0) 1)) j 0 % 2 ^ 64
      ≡ (get_or l j 0 + (if i == j then 1 else 0)) % 2 ^ 64
bump_at l i j h = elim (ℕ_discrete i j) [
  | yes p ↦
      subst
        (λ (q : ℕ).
          get_or (set l i (add64 (get_or l i 0) 1)) q 0 % 2 ^ 64
          ≡ (get_or l q 0 + (if i == q then 1 else 0)) % 2 ^ 64)
        p (ground (arith, get_or-set_self l i (add64 (get_or l i 0) 1) 0 h))
  | no p ↦ ground (arith, get_or-set_ne l i j (add64 (get_or l i 0) 1) 0 p)
]

-- A bump of the stripe of `j` counts for `k` if the two share it.
bump_count : Bytes → Bytes → Group → ℕ
bump_count j k g = if epoch_bucket g.opts j == epoch_bucket g.opts k then 1 else 0

bump_epoch-Moves : (j k : Bytes) (g : Group) → HasStripes g → Moves k 1 g (bump_epoch j g)
unfolding bump_epoch current_epoch bump_count
bump_epoch-Moves j k g s = record {
  stripes = record {
    words =
        length-set g.epochs (epoch_bucket g.opts j)
          (add64 (get_or g.epochs (epoch_bucket g.opts j) 0) 1)
        ∙ s.words;
    few = s.few;
  };
  opts = refl;
  bumps = bump_count j k g;
  few = ground arith;
  epoch = bump_at g.epochs (epoch_bucket g.opts j) (epoch_bucket g.opts k) (epoch_bucket-lt j g s);
  floor = inr (omega arith);
}

retired : VersionRecord → Group → Group
retired old g = record g {
  floors = record g.floors {
    advanced = drop_last g.floors.advanced;
    evictions = add64 g.floors.evictions 1;
  };
}

retire-Moves :
    (k : Bytes) (old : VersionRecord) (g : Group)
    → last_floor g.floors.advanced ≡ some old
    → HasStripes g
    → Moves k 1 g (bump_epoch old.key (retired old g))
unfolding retired bump_epoch current_epoch bump_count bump_epoch-Moves
retire-Moves k old g e s =
    let mid = retired old g in
    let p = bump_epoch-Moves old.key k mid (record { words = s.words; few = s.few }) in
    record {
      stripes = p.stripes;
      opts = p.opts;
      bumps = bump_count old.key k mid;
      few = p.few;
      epoch = p.epoch;
      floor = elim (Bytes-discrete old.key k) [
        | yes same ↦ inl (ground arith)
        | no other ↦ inr (ground (arith, find_floor-drop_last_ne k g.floors.advanced old e other))
      ];
    }

-- Retiring the oldest record bumps the stripe of the key that it forgets.
make_room-Moves : (k : Bytes) (g : Group) → HasStripes g → Moves k 1 g (make_room g)
unfolding make_room retired
make_room-Moves k g s = elim (Bool-cases (length g.floors.advanced == g.floors.capacity)) [
  | inr spare ↦
      rw (spare, make_room)
        (Moves-weaken k 0 1 g g (omega arith) (Moves-same k g g s refl refl (omega arith)))
  | inl full ↦ elim (Option-cases (last_floor g.floors.advanced)) [
    | inl e ↦
        rw (full, make_room, e)
          (Moves-weaken k 0 1 g g (omega arith) (Moves-same k g g s refl refl (omega arith)))
    | inr (old, e) ↦ rw (full, make_room, e) (retire-Moves k old g e s)
  ]
]

push_floor-Moves :
    (k j : Bytes) (v : ℕ) (g : Group)
    → floor_of j g ≡ 0
    → HasStripes g
    → Moves k 0 g (push_floor j v g)
unfolding push_floor find_floor
push_floor-Moves k j v g e s = Moves-same k g (push_floor j v g) s refl refl (ground arith)

advance_floor-Moves :
    (k j : Bytes) (v old : ℕ) (g : Group)
    → find_floor j g.floors.advanced ≡ some old
    → old < v
    → HasStripes g
    → Moves k 0 g (advance_floor j v g)
unfolding advance_floor find_floor
advance_floor-Moves k j v old g e lt s =
    Moves-same k g (advance_floor j v g) s refl refl
      (ground (arith, find_floor-remove_ne j k g.floors.advanced))

-- Making room adds no floor to a key without one.
make_room-absent :
    (j : Bytes) (g : Group) → find_floor j g.floors.advanced ≡ none → floor_of j (make_room g) ≡ 0
unfolding make_room bump_epoch
make_room-absent j g e = ground (arith, floor-drop_last-le j g.floors.advanced)

-- rememberVersionLocked bumps a stripe once at most, and lowers no floor without that.
pub remember_version-Moves :
    (k j : Bytes) (v : ℕ) (g : Group) → HasStripes g → Moves k 1 g (remember_version j v g)
unfolding remember_version
remember_version-Moves k j v g s = elim (Bool-cases (v == 0)) [
  | inl zero_version ↦ rw (zero_version, remember_version) (still g s)
  | inr positive ↦ elim (Option-cases (find_floor j g.floors.advanced)) [
    | inl e ↦
        let r = make_room-Moves k g s in
        rw (positive, remember_version, e)
          (Moves-trans k 1 0 g (make_room g) _ r
            (push_floor-Moves k j v (make_room g) (make_room-absent j g e) r.stripes))
    | inr (old, e) ↦ elim (Bool-cases (ltb old v)) [
      | inl newer ↦
          rw (positive, remember_version, e, newer)
            (Moves-weaken k 0 1 g _ (omega arith)
              (advance_floor-Moves k j v old g e (ltb→lt old v newer) s))
      | inr older ↦ rw (positive, remember_version, e, older) (still g s)
    ]
  ]
]
  where
    still : (g : Group) → HasStripes g → Moves k 1 g g
    still g s = Moves-weaken k 0 1 g g (omega arith) (Moves-same k g g s refl refl (omega arith))

-- Afterwards the floor of the key is at least the version.
pub remember_version-floor :
    (j : Bytes) (v : ℕ) (g : Group) → v ≤ floor_of j (remember_version j v g)
unfolding remember_version push_floor advance_floor find_floor
remember_version-floor j v g = elim (Option-cases (find_floor j g.floors.advanced)) [
  | inl e ↦ ground (arith, e)
  | inr (old, e) ↦ ground (arith, e)
]

pub known_version-Moves :
    (k : Bytes) (now : ℕ) (j : Bytes) (g : Group)
    → HasStripes g
    → Moves k 0 g (known_version now j g).0
unfolding known_version
known_version-Moves k now j g s = Moves-same k g _ s refl refl (omega arith)

pub drop_older-Moves :
    (k : Bytes) (later : ℕ) (j : Bytes) (v m : ℕ) (g : Group)
    → HasStripes g
    → Moves k 0 g (drop_older later j v m g)
unfolding drop_older
drop_older-Moves k later j v m g s = Moves-same k g _ s (ground arith) (ground arith) (ground arith)

-- The bump of an invalidation that is applied.
bump_if : Bool → Bytes → Group → Group
bump_if b j g = if b then bump_epoch j g else g

bump_if-Moves : (b : Bool) (k j : Bytes) (g : Group) → HasStripes g → Moves k 1 g (bump_if b j g)
unfolding bump_if
bump_if-Moves true k j g s = bump_epoch-Moves j k g s
bump_if-Moves false k j g s =
    Moves-weaken k 0 1 g g (omega arith) (Moves-same k g g s refl refl (omega arith))

-- An invalidation leaves the options and the number of stripes, adds at most two to any key's epoch,
-- modulo 2 ^ 64, and lowers no floor of a key whose epoch it leaves.
pub apply_version-Moves :
    (k : Bytes) (now later : ℕ) (j : Bytes) (v : ℕ) (g : Group)
    → HasStripes g
    → Moves k 2 g (apply_version now later j v g)
unfolding apply_version bump_if
apply_version-Moves k now later j v g s =
    let known = (known_version now j g).1 in
    let a = (known_version now j g).0 in
    let p = known_version-Moves k now j g s in
    let b = remember_version j (max known v) a in
    let q = remember_version-Moves k j (max known v) a p.stripes in
    let t = v == 0 || ltb known v in
    let r = bump_if-Moves t k j b q.stripes in
    Moves-trans k 2 0 g (bump_if t j b) _ (Moves-trans k 1 1 g b _ (Moves-trans k 0 1 g a b p q) r)
      (drop_older-Moves k later j v (max known v) _ r.stripes)
