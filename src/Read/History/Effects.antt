-- ===== src/Read/History/Effects.antt =====
-- What each critical section of a Group does to its invariant, its epochs and its floors.
use simple_cache.Prelude.{
  ℕ, ◌+◌, ◌*◌, ◌≡◌, refl, sym, subst, ◌∙◌, inl, inr, Option, none, some, List, [], ◌∷◌, Bytes,
  length, Option-cases, arith,
}
use simple_cache.Prelude.Int.{ℤ, pos, negsuc}
use simple_cache.Errors.{Error, validate_key}
use simple_cache.Area
use simple_cache.Area.{Area, ByteView}
use simple_cache.Area.Laws.{Keeps, get-Keeps}
use simple_cache.Area.Cleaning.{clean_expired-Cleaned}
use simple_cache.Group.{Group, read_barrier, invalidate_version}
use simple_cache.Group.Stripes.{Moves, Moves-same, Moves-weaken, Moves-trans}
use simple_cache.Group.Fences.{known_version-Moves}
use simple_cache.Group.Invariant.{IsSound, shrunk-IsSound, known_version-IsSound}
use simple_cache.Group.Invalidation.{apply_version-Invalidated}
use simple_cache.Load.Publication.{publish-Published}
use simple_cache.Read.{lookup}
use simple_cache.Read.History.{Event, looked, fenced, published, invalidated, cleaned, step, run}

-- Sound afterwards, and no stripe bumped more than `n` times.
pub record Steps (n : ℕ) (g g' : Group) : Type 0 where
  pub sound : IsSound g'
  pub moves : (k : Bytes) → Moves k n g g'

pub Steps-refl : (n : ℕ) (g : Group) → IsSound g → Steps n g g
Steps-refl n g s = record {
  sound = s;
  moves = λ k.
      Moves-weaken k 0 n g g (omega arith) (Moves-same k g g s.stripes refl refl (omega arith));
}

-- A smaller cache under the same floors.
Keeps-Steps :
    (g : Group) (a : Area)
    → IsSound g
    → Keeps g.main_cache a
    → Steps 2 g (record g { main_cache = a })
Keeps-Steps g a s p = record {
  sound = shrunk-IsSound g a s p;
  moves = λ k.
      Moves-weaken k 0 2 g _ (omega arith) (Moves-same k g _ s.stripes refl refl (omega arith));
}

lookup_valid :
    (now : ℕ) (key : Bytes) (g : Group)
    → validate_key key ≡ none
    → (lookup none now key g).0 ≡ record g { main_cache = (Area.get now key g.main_cache).0 }
unfolding lookup
lookup_valid now key g good = ground arith

pub lookup-Steps :
    (ended : Option Error) (now : ℕ) (key : Bytes) (g : Group)
    → IsSound g
    → Steps 2 g (lookup ended now key g).0
unfolding lookup
lookup-Steps (some e) now key g s = Steps-refl 2 g s
lookup-Steps none now key g s = elim (Option-cases (validate_key key)) [
  | inr (e, bad) ↦ rw (bad, lookup) (Steps-refl 2 g s)
  | inl good ↦
      subst (Steps 2 g) (sym (lookup_valid now key g good))
        (Keeps-Steps g _ s (get-Keeps now key g.main_cache s.area))
]

pub invalidate_version-Steps :
    (now later : ℕ) (key : Bytes) (version : ℤ) (g : Group)
    → IsSound g
    → Steps 2 g (invalidate_version now later key version g).0
unfolding invalidate_version
invalidate_version-Steps now later key (negsuc n) g s = elim (Option-cases (validate_key key)) [
  | inr (e, bad) ↦ rw (bad, invalidate_version) (Steps-refl 2 g s)
  | inl good ↦ rw (good, invalidate_version) (Steps-refl 2 g s)
]
invalidate_version-Steps now later key (pos v) g s = elim (Option-cases (validate_key key)) [
  | inr (e, bad) ↦ rw (bad, invalidate_version) (Steps-refl 2 g s)
  | inl good ↦
      let p = apply_version-Invalidated now later key v g s in
      rw (good, invalidate_version) (record { sound = p.sound; moves = p.moves })
]

-- Each critical section ends, keeps the group sound and bumps no stripe more than twice.
pub step-Steps :
    (e : Event) (g : Group) → IsSound g → (g' : Group) × (step e g ≡ some g') × Steps 2 g g'
unfolding step read_barrier
step-Steps (looked ended now key) g s = (_, refl, lookup-Steps ended now key g s)
step-Steps (fenced now key) g s = (
  _,
  refl,
  record {
    sound = known_version-IsSound now key g s;
    moves = λ k. Moves-weaken k 0 2 g _ (omega arith) (known_version-Moves k now key g s.stripes);
  },
)
step-Steps (published t key fence view) g s =
    let (o, r, p) = publish-Published t key fence view g s in
    (
      o.group,
      rw (r, step) refl,
      record {
        sound = p.sound;
        moves = λ k. Moves-weaken k 0 2 g o.group (omega arith) (p.moves k);
      },
    )
step-Steps (invalidated now later key version) g s =
    (_, refl, invalidate_version-Steps now later key version g s)
step-Steps (cleaned busy clock now) g s = (
  _,
  refl,
  Keeps-Steps g _ s
      (clean_expired-Cleaned busy clock now g.opts.cleanup_batch g.main_cache s.area).keeps,
)

-- Any sequence of critical sections on a sound group ends, with a sound group and with at most two
-- bumps of any stripe for each section.
pub run-Steps :
    (l : List Event) (g : Group)
    → IsSound g
    → (g' : Group) × (run l g ≡ some g') × Steps (2 * length l) g g'
unfolding run
run-Steps [] g s = (g, refl, Steps-refl 0 g s)
run-Steps (e ∷ l) g s =
    let (g', first, p) = step-Steps e g s in
    let (h, rest, q) = run-Steps l g' p.sound in
    (
      h,
      rw (first, run, rest) refl,
      record {
        sound = q.sound;
        moves = λ k.
            Moves-weaken k (2 + 2 * length l) (2 * length (e ∷ l)) g h (ground arith)
              (Moves-trans k 2 (2 * length l) g g' h (p.moves k) (q.moves k));
      },
    )

pub run-Reaches :
    (l : List Event) (g h : Group) → IsSound g → run l g ≡ some h → Steps (2 * length l) g h
run-Reaches l g h s e =
    let (h', r, p) = run-Steps l g s in subst (Steps (2 * length l) g) (ground (arith, sym r ∙ e)) p
