-- ===== src/Admission/Limits.antt =====
-- admission.go: the slots and the queue are bounded, accounted for and given back.
use simple_cache.Prelude.{
  ℕ, ◌+◌, ◌≤◌, ◌≡◌, refl, ◌∙◌, ◌⊎◌, Bool, true, false, Option, none, some, List, [], ◌∷◌, ◌++◌,
  arith,
}
use simple_cache.Errors.{Error}
use simple_cache.Admission.{
  SourceLimiter, send, receive, new_source_limiter, Phase, entering, trying, queueing, parked,
  admitted, running, finished, expiring, failed, move, System, Step, comes, moves, Reaches, start,
  next,
}

-- 1 for a caller that has a slot.
abbrev pub slot_of : Phase → ℕ
slot_of admitted = 1
slot_of running = 1
slot_of _ = 0

-- 1 for a caller that has a place in the queue.
abbrev pub place_of : Phase → ℕ
place_of parked = 1
place_of admitted = 1
place_of (expiring e) = 1
place_of _ = 0

unfoldable pub count : (Phase → ℕ) → List Phase → ℕ
count f [] = 0
count f (p ∷ l) = f p + count f l

pub count-append :
    (f : Phase → ℕ) (before after : List Phase) (p : Phase)
    → count f (before ++ p ∷ after) ≡ f p + count f (before ++ after)
unfolding count
count-append f [] after p = refl
count-append f (x ∷ before) after p = omega (arith, count-append f before after p)

-- The channels hold what the callers have taken.
pub record IsAccounted (limit max_pending : ℕ) (s : System) : Type 0 where
  pub slots : s.limiter.slots.held ≡ count slot_of s.callers
  pub places : s.limiter.waiting.held ≡ count place_of s.callers
  pub limit_set : s.limiter.slots.capacity ≡ limit
  pub queue_set : s.limiter.waiting.capacity ≡ max_pending
  pub within : s.limiter.slots.held ≤ limit
  pub queue_within : s.limiter.waiting.held ≤ max_pending

-- What one operation does to the channels.
record Moved (l m : SourceLimiter) (p q : Phase) : Type 0 where
  slots : m.slots.held + slot_of p ≡ l.slots.held + slot_of q
  places : m.waiting.held + place_of p ≡ l.waiting.held + place_of q
  same_limit : m.slots.capacity ≡ l.slots.capacity
  same_queue : m.waiting.capacity ≡ l.waiting.capacity
  within : (m.slots.held ≤ l.slots.held) ⊎ (m.slots.held ≤ m.slots.capacity)
  queue_within : (m.waiting.held ≤ l.waiting.held) ⊎ (m.waiting.held ≤ m.waiting.capacity)

move-Moved :
    (ended : Option Error) (slot : Bool) (p q : Phase) (l m : SourceLimiter)
    → move ended slot p l ≡ some (m, q)
    → Moved l m p q
unfolding move send receive
move-Moved none slot entering q l m h = record {
  slots = ground arith;
  places = ground arith;
  same_limit = ground arith;
  same_queue = ground arith;
  within = ground arith;
  queue_within = ground arith;
}
move-Moved (some e) slot entering q l m h = record {
  slots = ground arith;
  places = ground arith;
  same_limit = ground arith;
  same_queue = ground arith;
  within = ground arith;
  queue_within = ground arith;
}
move-Moved ended slot trying q l m h = record {
  slots = ground arith;
  places = ground arith;
  same_limit = ground arith;
  same_queue = ground arith;
  within = ground arith;
  queue_within = ground arith;
}
move-Moved ended slot queueing q l m h = record {
  slots = ground arith;
  places = ground arith;
  same_limit = ground arith;
  same_queue = ground arith;
  within = ground arith;
  queue_within = ground arith;
}
move-Moved ended true parked q l m h = record {
  slots = ground arith;
  places = ground arith;
  same_limit = ground arith;
  same_queue = ground arith;
  within = ground arith;
  queue_within = ground arith;
}
move-Moved none false parked q l m h = cc
move-Moved (some e) false parked q l m h = record {
  slots = ground arith;
  places = ground arith;
  same_limit = ground arith;
  same_queue = ground arith;
  within = ground arith;
  queue_within = ground arith;
}
move-Moved ended slot admitted q l m h = record {
  slots = ground arith;
  places = ground arith;
  same_limit = ground arith;
  same_queue = ground arith;
  within = ground arith;
  queue_within = ground arith;
}
move-Moved ended slot (expiring e) q l m h = record {
  slots = ground arith;
  places = ground arith;
  same_limit = ground arith;
  same_queue = ground arith;
  within = ground arith;
  queue_within = ground arith;
}
move-Moved ended slot running q l m h = record {
  slots = ground arith;
  places = ground arith;
  same_limit = ground arith;
  same_queue = ground arith;
  within = ground arith;
  queue_within = ground arith;
}
move-Moved ended slot finished q l m h = cc
move-Moved ended slot (failed e) q l m h = cc

count-moved :
    (f : Phase → ℕ) (before after : List Phase) (p q : Phase)
    → count f (before ++ p ∷ after) + f q ≡ count f (before ++ q ∷ after) + f p
count-moved f before after p q =
    omega (arith, count-append f before after p, count-append f before after q)

Step-IsAccounted :
    (limit max_pending : ℕ) (s t : System)
    → Step s t
    → IsAccounted limit max_pending s
    → IsAccounted limit max_pending t
unfolding count
Step-IsAccounted limit max_pending _ _ (comes l callers) a = record {
  slots = omega (arith, a.slots);
  places = omega (arith, a.places);
  limit_set = a.limit_set;
  queue_set = a.queue_set;
  within = a.within;
  queue_within = a.queue_within;
}
Step-IsAccounted limit max_pending _ _ (moves before after p q l m ended slot h) a =
    let d = move-Moved ended slot p q l m h in
    record {
      slots = omega (arith, a.slots, d.slots, count-moved slot_of before after p q);
      places = omega (arith, a.places, d.places, count-moved place_of before after p q);
      limit_set = d.same_limit ∙ a.limit_set;
      queue_set = d.same_queue ∙ a.queue_set;
      within = omega (arith, a.within, a.limit_set, d.same_limit, d.within);
      queue_within = omega (arith, a.queue_within, a.queue_set, d.same_queue, d.queue_within);
    }

Reaches-IsAccounted :
    (limit max_pending : ℕ) (s t : System)
    → IsAccounted limit max_pending s
    → Reaches s t
    → IsAccounted limit max_pending t
Reaches-IsAccounted limit max_pending s _ a start = a
Reaches-IsAccounted limit max_pending s t a (next {t = mid} r e) =
    Step-IsAccounted limit max_pending mid t e (Reaches-IsAccounted limit max_pending s mid a r)

abbrev pub idle : SourceLimiter → System
idle l = record { limiter = l; callers = [] }

idle-IsAccounted :
    (limit max_pending : ℕ) (l : SourceLimiter)
    → new_source_limiter limit max_pending ≡ some l
    → IsAccounted limit max_pending (idle l)
unfolding new_source_limiter count
idle-IsAccounted limit max_pending l h = record {
  slots = ground arith;
  places = ground arith;
  limit_set = ground arith;
  queue_set = ground arith;
  within = ground arith;
  queue_within = ground arith;
}

-- However callers come and interleave on a new limiter: the slots that are held are those of the callers
-- with a slot, at most `limit`; the places in the queue are those of the callers that wait or are about
-- to leave it, at most `max_pending`; and both capacities stay.
pub new_source_limiter-IsAccounted :
    (limit max_pending : ℕ) (l : SourceLimiter) (s : System)
    → new_source_limiter limit max_pending ≡ some l
    → Reaches (idle l) s
    → IsAccounted limit max_pending s
new_source_limiter-IsAccounted limit max_pending l s h r =
    Reaches-IsAccounted limit max_pending (idle l) s (idle-IsAccounted limit max_pending l h) r
