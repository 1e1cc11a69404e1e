-- ===== src/Load/Publication.antt =====
-- load.go `loadSource`: what the critical section at its end puts into the cache.
use simple_cache.Prelude.{
  ℕ, ◌≤◌, ◌<◌, ◌≡◌, refl, sym, subst, ◌∙◌, ap, ◌⊎◌, ◌≢◌, inl, inr, max, Option, none, some, Bytes,
  Bytes-discrete, ltb, ◌==◌, Bool-cases, arith,
}
use simple_cache.Errors.{stale_version}
use simple_cache.Area
use simple_cache.Area.{Area, ByteView}
use simple_cache.Area.Reads.{version-get}
use simple_cache.Area.Insertion.{Inserted}
use simple_cache.Area.Placement.{IsDeadline, Placed, add-Placed}
use simple_cache.Area.Laws.{resident, version_in}
use simple_cache.Group.{Group, ReadFence, current_epoch, known_version}
use simple_cache.Group.Stripes.{HasStripes, floor_of, Moves, Moves-trans, Moves-same}
use simple_cache.Group.Fences.{known_version-Moves}
use simple_cache.Group.Invariant.{IsSound, known_version-Knows}
use simple_cache.Load.{
  no_view, Clock, Outcome, stale_outcome, stored_outcome, publish_known, publish,
}

-- The view entered under its key, past the fence and every version that is known of the key: that of its
-- floor, and that of the value that Get would have given.
pub record Entered (t : Clock) (key : Bytes) (fence : ReadFence) (view : ByteView) (g : Group)
    (k : Bytes) (w : ByteView) : Type 0 where
  pub same_key : key ≡ k
  pub same_bytes : w.b ≡ view.b
  pub same_version : w.version ≡ view.version
  pub epoch : fence.epoch ≡ current_epoch key g
  pub minimum : fence.minimum ≤ view.version
  pub floor : floor_of key g ≤ view.version
  pub newest :
      (x : ByteView) → (Area.get t.first key g.main_cache).1 ≡ some x → x.version ≤ view.version

-- `m` is the most of the fence's minimum, the floor of the key, and the version that Get would have given.
pub record IsKnown (t : Clock) (key : Bytes) (fence : ReadFence) (g : Group) (m : ℕ) : Type 0 where
  pub minimum : fence.minimum ≤ m
  pub floor : floor_of key g ≤ m
  pub cached : (x : ByteView) → (Area.get t.first key g.main_cache).1 ≡ some x → x.version ≤ m
  pub least :
      (m ≡ fence.minimum)
      ⊎ ((m ≡ floor_of key g)
          ⊎ ((x : ByteView) × ((Area.get t.first key g.main_cache).1 ≡ some x) × (m ≡ x.version)))

-- The area after the lookup of the known version.
abbrev pub looked_up : Clock → Bytes → Group → Area
looked_up t key g = (Area.version t.first key g.main_cache).0

-- An insertion of the view, and what is handed back.
abbrev pub Inserts : Clock → Bytes → ByteView → Group → Area → Outcome → Type 0
Inserts t key view g a o =
    (d : ℕ) × IsDeadline t.second g.opts.ttl view d
    × Placed t.third key view d a (o.group.main_cache, o.result.value)

-- What a publication leaves.
pub record Published (t : Clock) (key : Bytes) (fence : ReadFence) (view : ByteView) (g : Group)
    (o : Outcome) : Type 0 where
  pub sound : IsSound o.group
  pub moves : (k : Bytes) → Moves k 0 g o.group
  pub known : IsKnown t key fence g o.result.minimum
  pub answer :
      ((o.error ≡ some stale_version)
        × (o.result.value ≡ no_view)
        × (view.version < o.result.minimum))
      ⊎ ((o.error ≡ none)
          × (o.result.value.b ≡ view.b)
          × (o.result.value.version ≡ view.version)
          × (o.result.minimum ≤ view.version))
  pub changed :
      (k : Bytes) (w : ByteView)
      → resident k o.group.main_cache ≡ some w
      → (resident k g.main_cache ≡ some w) ⊎ Entered t key fence view g k w
  pub stored :
      o.error ≡ none
      → fence.epoch ≡ current_epoch key g
      → Inserts t key view g (looked_up t key g) o
  pub rejected : o.error ≡ some stale_version → o.group.main_cache ≡ looked_up t key g
  pub moved :
      o.error ≡ none
      → fence.epoch ≢ current_epoch key g
      → (o.group.main_cache ≡ looked_up t key g) × (o.result.value ≡ view)

-- The same of the section after the lookup, under a known version.
record KnownEntered (key : Bytes) (fence : ReadFence) (view : ByteView) (g : Group) (known : ℕ)
    (k : Bytes) (w : ByteView) : Type 0 where
  same_key : key ≡ k
  same_bytes : w.b ≡ view.b
  same_version : w.version ≡ view.version
  epoch : fence.epoch ≡ current_epoch key g
  minimum : max fence.minimum known ≤ view.version

record KnownPublished (t : Clock) (key : Bytes) (fence : ReadFence) (view : ByteView) (g : Group)
    (known : ℕ) (o : Outcome) : Type 0 where
  sound : IsSound o.group
  moves : (k : Bytes) → Moves k 0 g o.group
  minimum : o.result.minimum ≡ max fence.minimum known
  answer :
      ((o.error ≡ some stale_version)
        × (o.result.value ≡ no_view)
        × (view.version < o.result.minimum))
      ⊎ ((o.error ≡ none)
          × (o.result.value.b ≡ view.b)
          × (o.result.value.version ≡ view.version)
          × (o.result.minimum ≤ view.version))
  changed :
      (k : Bytes) (w : ByteView)
      → resident k o.group.main_cache ≡ some w
      → (resident k g.main_cache ≡ some w) ⊎ KnownEntered key fence view g known k w
  stored : o.error ≡ none → fence.epoch ≡ current_epoch key g → Inserts t key view g g.main_cache o
  rejected : o.error ≡ some stale_version → o.group.main_cache ≡ g.main_cache
  moved :
      o.error ≡ none
      → fence.epoch ≢ current_epoch key g
      → (o.group.main_cache ≡ g.main_cache) × (o.result.value ≡ view)

floors_kept :
    (key : Bytes) (view : ByteView) (g : Group) (r : Area × ByteView)
    → IsSound g
    → floor_of key g ≤ view.version
    → Inserted key view g.main_cache r
    → (k : Bytes) (w : ByteView) → resident k r.0 ≡ some w
    → floor_of k g ≤ w.version
floors_kept key view g r s low p k w h = elim (Bytes-discrete key k) [
  | yes same ↦
      subst (λ q. floor_of q g ≤ w.version) same
        (ground
          (arith, low, p.same_version, p.own w (subst (λ q. resident q r.0 ≡ some w) (sym same) h)))
  | no other ↦ s.held k w (p.others k w other h)
]

Inserted-IsSound :
    (key : Bytes) (view : ByteView) (g : Group) (r : Area × ByteView)
    → IsSound g
    → floor_of key g ≤ view.version
    → Inserted key view g.main_cache r
    → IsSound (record g { main_cache = r.0 })
Inserted-IsSound key view g r s low p = record {
  area = p.sound;
  stripes = record { words = s.stripes.words; few = s.stripes.few };
  some_room = s.some_room;
  bounded = s.bounded;
  held = floors_kept key view g r s low p;
}

Moves-still :
    (k : Bytes) (g : Group) (a : Area) → HasStripes g → Moves k 0 g (record g { main_cache = a })
Moves-still k g a s = Moves-same k g _ s refl refl (omega arith)

Inserted-KnownEntered :
    (key : Bytes) (fence : ReadFence) (view : ByteView) (g : Group) (known : ℕ)
    (r : Area × ByteView)
    → fence.epoch ≡ current_epoch key g
    → max fence.minimum known ≤ view.version
    → Inserted key view g.main_cache r
    → (k : Bytes) (w : ByteView) → resident k r.0 ≡ some w
    → (resident k g.main_cache ≡ some w) ⊎ KnownEntered key fence view g known k w
Inserted-KnownEntered key fence view g known r e m p k w h = elim (Bytes-discrete key k) [
  | yes same ↦
      let q = p.own w (subst (λ q. resident q r.0 ≡ some w) (sym same) h) in
      inr (record {
        same_key = same;
        same_bytes = ap (λ (x : ByteView). x.b) q ∙ p.same_bytes;
        same_version = ap (λ (x : ByteView). x.version) q ∙ p.same_version;
        epoch = e;
        minimum = m;
      })
  | no other ↦ inl (p.others k w other h)
]

publish_known-KnownPublished :
    (t : Clock) (key : Bytes) (fence : ReadFence) (view : ByteView) (g' : Group) (known : ℕ)
    → IsSound g'
    → floor_of key g' ≤ known
    → (o : Outcome) × (publish_known t key fence view g' known ≡ some o)
      × KnownPublished t key fence view g' known o
unfolding publish_known stale_outcome stored_outcome
publish_known-KnownPublished t key fence view g' known s low =
    elim (Bool-cases (ltb view.version (max fence.minimum known))) [
      | inl old ↦ (
        stale_outcome fence known g',
        rw (old, publish_known) refl,
        record {
          sound = s;
          moves = λ k. Moves-still k g' g'.main_cache s.stripes;
          minimum = refl;
          answer = inl (refl, refl, ground arith);
          changed = λ k w h. inl h;
          stored = λ h e. cc;
          rejected = λ h. refl;
          moved = λ h e. cc;
        },
      )
      | inr new ↦ elim (Bool-cases (fence.epoch == current_epoch key g')) [
        | inr moved ↦ (
          stored_outcome fence known view g',
          rw (new, publish_known, moved) refl,
          record {
            sound = s;
            moves = λ k. Moves-still k g' g'.main_cache s.stripes;
            minimum = refl;
            answer = inr (refl, refl, refl, ground arith);
            changed = λ k w h. inl h;
            stored = λ h e. absurd (ground arith);
            rejected = λ h. cc;
            moved = λ h e. (refl, refl);
          },
        )
        | inl same ↦
            let (d, ends, (r, run, q)) =
              add-Placed t.second t.third key view g'.opts.ttl g'.main_cache s.area in
            let p = q.inserted in
            let fits : floor_of key g' ≤ view.version = ground (arith, low) in
            (
              stored_outcome fence known r.1 (record g' { main_cache = r.0 }),
              rw (new, publish_known, same, run) refl,
              record {
                sound = Inserted-IsSound key view g' r s fits p;
                moves = λ k. Moves-still k g' r.0 s.stripes;
                minimum = refl;
                answer = inr (refl, p.same_bytes, p.same_version, ground arith);
                changed = λ k w h.
                    Inserted-KnownEntered key fence view g' known r (ground arith) (ground arith) p
                      k w h;
                stored = λ h e. (d, ends, q);
                rejected = λ h. cc;
                moved = λ h e. absurd (ground arith);
              },
            )
      ]
    ]

most_cases : (a b c : ℕ) → (max a (max b c) ≡ a) ⊎ ((max a (max b c) ≡ b) ⊎ (max a (max b c) ≡ c))
most_cases a b c = ground arith

known_least :
    (a b c : ℕ) (o : Option ByteView)
    → c ≡ version_in o
    → (max a (max b c) ≡ a)
      ⊎ ((max a (max b c) ≡ b) ⊎ ((x : ByteView) × (o ≡ some x) × (max a (max b c) ≡ x.version)))
known_least a b c none e = elim (most_cases a b c) [
  | inl p ↦ inl p
  | inr (inl p) ↦ inr (inl p)
  | inr (inr p) ↦ inr (inl (omega (arith, e, p)))
]
known_least a b c (some x) e = elim (most_cases a b c) [
  | inl p ↦ inl p
  | inr (inl p) ↦ inr (inl p)
  | inr (inr p) ↦ inr (inr (x, refl, p ∙ e))
]

known_version-IsKnown :
    (t : Clock) (key : Bytes) (fence : ReadFence) (g : Group)
    → IsKnown t key fence g (max fence.minimum (known_version t.first key g).1)
unfolding known_version
known_version-IsKnown t key fence g =
    let v = version-get t.first key g.main_cache in
    record {
      minimum = omega arith;
      floor = omega arith;
      cached = λ x h. ground (arith, v, h);
      least = known_least fence.minimum (floor_of key g) _ (Area.get t.first key g.main_cache).1 v;
    }

pub publish-Published :
    (t : Clock) (key : Bytes) (fence : ReadFence) (view : ByteView) (g : Group)
    → IsSound g
    → (o : Outcome) × (publish t key fence view g ≡ some o) × Published t key fence view g o
unfolding publish current_epoch known_version
publish-Published t key fence view g s =
    let k = known_version-Knows t.first key g s in
    let g' = (known_version t.first key g).0 in
    let known = (known_version t.first key g).1 in
    let most = known_version-IsKnown t key fence g in
    let (o, run, p) = publish_known-KnownPublished t key fence view g' known k.sound k.floor in
    (
      o,
      run,
      record {
        sound = p.sound;
        moves = λ j.
            Moves-trans j 0 0 g g' o.group (known_version-Moves j t.first key g s.stripes)
              (p.moves j);
        known = subst (IsKnown t key fence g) (sym p.minimum) most;
        answer = p.answer;
        changed = λ j w h. elim (p.changed j w h) [
          | inl q ↦ inl (k.shrinks j w q)
          | inr e ↦ inr (record {
            same_key = e.same_key;
            same_bytes = e.same_bytes;
            same_version = e.same_version;
            epoch = e.epoch;
            minimum = omega (arith, e.minimum, most.minimum);
            floor = omega (arith, e.minimum, most.floor);
            newest = λ x q. omega (arith, e.minimum, most.cached x q);
          })
        ];
        stored = p.stored;
        rejected = p.rejected;
        moved = p.moved;
      },
    )
