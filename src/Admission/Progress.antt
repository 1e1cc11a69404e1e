-- ===== src/Admission/Progress.antt =====
-- admission.go: who can move, and when a caller is refused.
use simple_cache.Prelude.{
  ℕ, ◌-◌, ◌≤◌, ◌<◌, ◌≡◌, refl, ap, inl, inr, Bool, true, false, Option, none, some, List, [], ◌∷◌,
  ◌++◌, ◌==◌, arith, Option-cases, Bool-cases,
}
use simple_cache.Errors.{Error, overloaded}
use simple_cache.Admission.{
  Channel, SourceLimiter, send, receive, new_source_limiter, Phase, entering, trying, queueing,
  parked, admitted, running, finished, expiring, failed, move, System, Reaches,
}
use simple_cache.Admission.Limits.{
  slot_of, place_of, count, count-append, IsAccounted, idle, new_source_limiter-IsAccounted,
}

-- One of several callers counts.
count-among :
    (f : Phase → ℕ) (before after : List Phase) (p : Phase) → f p ≤ count f (before ++ p ∷ after)
count-among f before after p = omega (arith, count-append f before after p)

-- A caller that is not waiting for a slot and has something left to do.
abbrev pub IsActive : Phase → Type 0
IsActive parked = ⊥
IsActive finished = ⊥
IsActive (failed e) = ⊥
IsActive _ = Unit {0}

abbrev pub CanMove : Option Error → Bool → Phase → SourceLimiter → Type 0
CanMove ended slot p l = (r : SourceLimiter × Phase) × (move ended slot p l ≡ some r)

receive_ready : (c : Channel) → 1 ≤ c.held → receive c ≡ some (record c { held = c.held - 1 })
unfolding receive
receive_ready c h = ground arith

active-CanMove :
    (ended : Option Error) (slot : Bool) (p : Phase) (l : SourceLimiter)
    → IsActive p
    → slot_of p ≤ l.slots.held
    → place_of p ≤ l.waiting.held
    → CanMove ended slot p l
unfolding move
active-CanMove none slot entering l a h w = (_, refl)
active-CanMove (some e) slot entering l a h w = (_, refl)
active-CanMove ended slot trying l a h w = elim (Option-cases (send l.slots)) [
  | inl e ↦ ((l, queueing), rw (e, move) refl)
  | inr (c, e) ↦ ((record l { slots = c }, running), rw (e, move) refl)
]
active-CanMove ended slot queueing l a h w = elim (Option-cases (send l.waiting)) [
  | inl e ↦ ((l, failed overloaded), rw (e, move) refl)
  | inr (c, e) ↦ ((record l { waiting = c }, parked), rw (e, move) refl)
]
active-CanMove ended slot parked l a h w = absurd a
active-CanMove ended slot admitted l a h w = (
  (record l { waiting = record l.waiting { held = l.waiting.held - 1 } }, running),
  rw (receive_ready l.waiting w, move) refl,
)
active-CanMove ended slot (expiring e) l a h w = (
  (record l { waiting = record l.waiting { held = l.waiting.held - 1 } }, failed e),
  rw (receive_ready l.waiting w, move) refl,
)
active-CanMove ended slot running l a h w = (
  (record l { slots = record l.slots { held = l.slots.held - 1 } }, finished),
  rw (receive_ready l.slots h, move) refl,
)
active-CanMove ended slot finished l a h w = absurd a
active-CanMove ended slot (failed e) l a h w = absurd a

slot_of_none : (p : Phase) → (slot_of p == 1) ≡ false → slot_of p ≡ 0
slot_of_none entering h = refl
slot_of_none trying h = refl
slot_of_none queueing h = refl
slot_of_none parked h = refl
slot_of_none admitted h = absurd (ground (arith, h))
slot_of_none running h = absurd (ground (arith, h))
slot_of_none finished h = refl
slot_of_none (expiring e) h = refl
slot_of_none (failed e) h = refl

-- A caller with a slot, among callers that have some.
holder :
    (callers : List Phase)
    → 1 ≤ count slot_of callers
    → (before after : List Phase) × (q : Phase) × (callers ≡ before ++ q ∷ after) × (slot_of q ≡ 1)
unfolding count
holder [] h = absurd (omega (arith, h))
holder (p ∷ l) h = elim (Bool-cases (slot_of p == 1)) [
  | inl has ↦ ([], l, p, refl, ground arith)
  | inr lacks ↦
      let (b, a, q, e, one) = holder l (omega (arith, h, slot_of_none p lacks)) in
      (p ∷ b, a, q, ap (λ (x : List Phase). p ∷ x) e, one)
]

holder-IsActive : (q : Phase) → slot_of q ≡ 1 → IsActive q
holder-IsActive entering h = tt
holder-IsActive trying h = tt
holder-IsActive queueing h = tt
holder-IsActive parked h = absurd (omega (arith, h))
holder-IsActive admitted h = tt
holder-IsActive running h = tt
holder-IsActive finished h = absurd (omega (arith, h))
holder-IsActive (expiring e) h = tt
holder-IsActive (failed e) h = absurd (omega (arith, h))

-- Done with acquire and release.
abbrev pub IsDone : Phase → Type 0
IsDone finished = Unit {0}
IsDone (failed e) = Unit {0}
IsDone _ = ⊥

-- A caller of `callers` that can move.
pub record Mover (s : System) : Type 0 where
  pub before : List Phase
  pub after : List Phase
  pub phase : Phase
  pub among : s.callers ≡ before ++ phase ∷ after
  pub can : CanMove none true phase s.limiter

active-Mover :
    (limit max_pending : ℕ) (s : System) (before after : List Phase) (p : Phase)
    → IsAccounted limit max_pending s
    → s.callers ≡ before ++ p ∷ after
    → IsActive p
    → Mover s
active-Mover limit max_pending s before after p a e act = record {
  before = before;
  after = after;
  phase = p;
  among = e;
  can =
      active-CanMove none true p s.limiter act
        (omega (arith, a.slots, ap (count slot_of) e, count-among slot_of before after p))
        (omega (arith, a.places, ap (count place_of) e, count-among place_of before after p));
}

full_of : (c : Channel) → send c ≡ none → c.capacity ≤ c.held
unfolding send
full_of c h = ground arith

parked-Mover :
    (limit max_pending : ℕ) (s : System) (before after : List Phase)
    → 0 < limit
    → IsAccounted limit max_pending s
    → s.callers ≡ before ++ parked ∷ after
    → Mover s
unfolding move
parked-Mover limit max_pending s before after pos a e = elim (Option-cases (send s.limiter.slots)) [
  | inr (c, free) ↦ record {
    before = before;
    after = after;
    phase = parked;
    among = e;
    can = ((record s.limiter { slots = c }, admitted), rw (free, move) refl);
  }
  | inl full ↦
      let (b, z, q, w, h) =
        holder s.callers (omega (arith, a.slots, full_of s.limiter.slots full, a.limit_set, pos)) in
      active-Mover limit max_pending s b z q a w (holder-IsActive q h)
]

limit_positive :
    (limit max_pending : ℕ) (l : SourceLimiter)
    → new_source_limiter limit max_pending ≡ some l
    → 0 < limit
unfolding new_source_limiter
limit_positive limit max_pending l h = ground arith

unfinished-Mover :
    (limit max_pending : ℕ) (s : System) (before after : List Phase) (p : Phase)
    → 0 < limit
    → IsAccounted limit max_pending s
    → s.callers ≡ before ++ p ∷ after
    → (IsDone p → ⊥)
    → Mover s
unfinished-Mover n k s b z entering pos a e busy = active-Mover n k s b z entering a e tt
unfinished-Mover n k s b z trying pos a e busy = active-Mover n k s b z trying a e tt
unfinished-Mover n k s b z queueing pos a e busy = active-Mover n k s b z queueing a e tt
unfinished-Mover n k s b z parked pos a e busy = parked-Mover n k s b z pos a e
unfinished-Mover n k s b z admitted pos a e busy = active-Mover n k s b z admitted a e tt
unfinished-Mover n k s b z running pos a e busy = active-Mover n k s b z running a e tt
unfinished-Mover n k s b z finished pos a e busy = absurd (busy tt)
unfinished-Mover n k s b z (expiring x) pos a e busy = active-Mover n k s b z (expiring x) a e tt
unfinished-Mover n k s b z (failed x) pos a e busy = absurd (busy tt)

-- No deadlock, however callers come and interleave on a new limiter: while a caller is not done, some
-- caller can move, even where no context ends.
pub new_source_limiter-Mover :
    (limit max_pending : ℕ) (l : SourceLimiter) (s : System) (before after : List Phase) (p : Phase)
    → new_source_limiter limit max_pending ≡ some l
    → Reaches (idle l) s
    → s.callers ≡ before ++ p ∷ after
    → (IsDone p → ⊥)
    → Mover s
new_source_limiter-Mover limit max_pending l s before after p made r e busy =
    unfinished-Mover limit max_pending s before after p (limit_positive limit max_pending l made)
      (new_source_limiter-IsAccounted limit max_pending l s made r) e busy

-- A caller is refused as overloaded only while the places of the queue are all taken.
pub overloaded-full :
    (limit max_pending : ℕ) (l m : SourceLimiter) (s : System) (ended : Option Error) (slot : Bool)
    → new_source_limiter limit max_pending ≡ some l
    → Reaches (idle l) s
    → move ended slot queueing s.limiter ≡ some (m, failed overloaded)
    → count place_of s.callers ≡ max_pending
unfolding move send
overloaded-full limit max_pending l m s ended slot made r h =
    let a = new_source_limiter-IsAccounted limit max_pending l s made r in
    ground (arith, a.places, a.queue_set, a.queue_within)
