-- ===== src/Cluster/Broadcast/Schedules.antt =====
-- invalidation.go: the order in which the workers end does not show in the report.
use simple_cache.Prelude.{
  ℕ, zero, suc, ◌<◌, ◌≡◌, refl, sym, ap, ◌∙◌, inl, inr, Bool, true, false, ◌||◌, none, some, List,
  [], ◌∷◌, get_elem?, length, ◌==◌, if◌then◌else◌, Bool-cases, Option-cases, arith,
}
use simple_cache.Cluster.Broadcast.{Status, InvalidationResult, set_status, run_jobs}

-- The slots that `done` has, filled.
unfoldable fill : (ℕ → Bool) → List Status → List InvalidationResult → List InvalidationResult
fill done [] l = l
fill done (s ∷ ss) [] = []
fill done (s ∷ ss) (r ∷ l) =
    let rest = fill (λ i. done (suc i)) ss l in
    (if done 0 then record r { status = s } else r) ∷ rest

fill_cong :
    (f g : ℕ → Bool) (ss : List Status) (l : List InvalidationResult)
    → ((i : ℕ) → i < length ss → f i ≡ g i)
    → fill f ss l ≡ fill g ss l
unfolding fill
fill_cong f g [] l h = refl
fill_cong f g (s ∷ ss) [] h = refl
fill_cong f g (s ∷ ss) (r ∷ l) h =
    let rest =
      fill_cong (λ i. f (suc i)) (λ i. g (suc i)) ss l (λ i b. h (suc i) (omega (arith, b))) in
    rw (h 0 (omega arith), rest) refl

fill-set_status :
    (f : ℕ → Bool) (i : ℕ) (ss : List Status) (s : Status) (l : List InvalidationResult)
    → get_elem? ss i ≡ some s
    → fill f ss (set_status i s l) ≡ fill (λ j. (j == i) || f j) ss l
unfolding fill set_status
fill-set_status f i [] s l e = ground (arith, e)
fill-set_status f i (s' ∷ ss) s [] e = refl
fill-set_status f zero (s' ∷ ss) s (r ∷ l) e =
    let rest =
      fill_cong (λ i. f (suc i)) (λ i. (suc i == 0) || f (suc i)) ss l (λ i b. ground arith) in
    let same : s' ≡ s = ground (arith, e) in
    elim (Bool-cases (f 0)) [
      | inl filled ↦ rw (filled, same, rest) refl
      | inr empty ↦ rw (empty, same, rest) refl
    ]
fill-set_status f (suc i) (s' ∷ ss) s (r ∷ l) e =
    let rest =
      fill-set_status (λ i. f (suc i)) i ss s l e
      ∙ fill_cong (λ j. (j == i) || f (suc j)) (λ j. (suc j == suc i) || f (suc j)) ss l
          (λ j b. ground arith) in
    let head : ((0 == suc i) || f 0) ≡ f 0 = ground arith in rw (head, rest) refl

unfoldable pub has_index : ℕ → List ℕ → Bool
has_index i [] = false
has_index i (j ∷ l) = let rest = has_index i l in i == j || rest

fill_none : (ss : List Status) (l : List InvalidationResult) → fill (λ i. false) ss l ≡ l
unfolding fill
fill_none [] l = refl
fill_none (s ∷ ss) [] = refl
fill_none (s ∷ ss) (r ∷ l) = ap (λ k. r ∷ k) (fill_none ss l)

beyond : (ss : List Status) (i j : ℕ) → get_elem? ss i ≡ none → j < length ss → (j == i) ≡ false
beyond [] i j e b = absurd (omega (arith, b))
beyond (s ∷ ss) zero j e b = cc
beyond (s ∷ ss) (suc i) zero e b = ground arith
beyond (s ∷ ss) (suc i) (suc j) e b = ground (arith, beyond ss i j e (omega (arith, b)))

run_jobs-fill :
    (ss : List Status) (order : List ℕ) (l : List InvalidationResult)
    → run_jobs ss order l ≡ fill (λ i. has_index i order) ss l
unfolding run_jobs has_index
run_jobs-fill ss [] l = sym (fill_none ss l)
run_jobs-fill ss (i ∷ order) l = elim (Option-cases (get_elem? ss i)) [
  | inl past ↦
      rw (past, run_jobs)
        (run_jobs-fill ss order l
          ∙ fill_cong (λ j. has_index j order) (λ j. has_index j (i ∷ order)) ss l
              (λ j b. ground (arith, beyond ss i j past b)))
  | inr (s, found) ↦
      rw (found, run_jobs)
        (run_jobs-fill ss order (set_status i s l)
          ∙ fill-set_status (λ j. has_index j order) i ss s l found)
]

-- Each status in its slot.
unfoldable pub filled : List Status → List InvalidationResult → List InvalidationResult
filled [] l = l
filled (s ∷ ss) [] = []
filled (s ∷ ss) (r ∷ l) = record r { status = s } ∷ filled ss l

fill_all : (ss : List Status) (l : List InvalidationResult) → fill (λ i. true) ss l ≡ filled ss l
unfolding fill filled
fill_all [] l = refl
fill_all (s ∷ ss) [] = refl
fill_all (s ∷ ss) (r ∷ l) = ap (λ k. record r { status = s } ∷ k) (fill_all ss l)

-- Where every job is done, once or more, in any order, every slot has its status.
pub run_jobs-filled :
    (ss : List Status) (order : List ℕ) (l : List InvalidationResult)
    → ((i : ℕ) → i < length ss → has_index i order ≡ true)
    → run_jobs ss order l ≡ filled ss l
run_jobs-filled ss order l h =
    run_jobs-fill ss order l ∙ fill_cong (λ i. has_index i order) (λ i. true) ss l h ∙ fill_all ss l
