-- ===== src/Read/Flight.antt =====
-- read.go: the shared work of Get, from the fence to the answer. Between two of its critical sections
-- any sections of others may run; a `Gap` is that sequence. What `work` and the source answer is in
-- `Plan`. `none` says that an eviction loop did not end.
pub mod Minimum
pub mod Sharing
use simple_cache.Prelude.{
  Bool, true, false, not, ◌||◌, Option, none, some, List, Bytes, ℕ, if◌then◌else◌, ◌∷◌, ◌++◌,
}
use simple_cache.Prelude.Decimal.{format}
use simple_cache.Errors.{Error, stale_version}
use simple_cache.Area.{ByteView}
use simple_cache.Group.{Group, ReadFence, with_minimum, read_barrier}
use simple_cache.Load.{Run, Outcome, load_source}
use simple_cache.Read.{Found, lookup_at_least}
use simple_cache.Read.History.{Event, run}

abbrev pub Gap : Type 0
Gap = List Event

-- A lookup: work.Err() and the clock as it finds them.
pub record Look : Type 0 where
  pub ended : Option Error
  pub now : ℕ

-- Each step with the gap before it. `given_up` is work.Err() after the first attempt.
pub record Plan : Type 0 where
  pub look : Look
  pub before_first : Gap
  pub first : Run
  pub given_up : Option Error
  pub before_barrier : Gap
  pub barrier_now : ℕ
  pub before_look : Gap
  pub look_again : Look
  pub before_second : Gap
  pub second : Run

pub record Reply : Type 0 where
  pub group : Group
  pub value : ByteView
  pub error : Option Error

abbrev pub some_error : Option Error → Bool
some_error none = false
some_error (some e) = true

-- errors.Is(err, ErrStaleVersion)
unfoldable pub is_stale : Option Error → Bool
is_stale (some stale_version) = true
is_stale _ = false

abbrev pub found_reply : Group → Found → Reply
found_reply g f = record { group = g; value = f.view; error = f.error }

abbrev pub outcome_reply : Outcome → Reply
outcome_reply o = record { group = o.group; value = o.result.value; error = o.error }

-- loadSource after a gap.
unfoldable pub load_after : Gap → Run → Bytes → ReadFence → Group → Option Outcome
load_after gap work key fence g = elim (run gap g) [
  | none ↦ none
  | some g' ↦ load_source work key fence g'
]

-- The second attempt, whose outcome is the answer.
unfoldable pub second_attempt : Plan → Bytes → ReadFence → Group → Option Reply
unfolding load_after
second_attempt p key fence g = elim (load_after p.before_second p.second key fence g) [
  | none ↦ none
  | some o ↦ some (outcome_reply o)
]

-- A lookup at the minimum, which may answer.
unfoldable pub look_or : Look → Bytes → ReadFence → (Group → Option Reply) → Group → Option Reply
look_or l key fence next g =
    let (g', f) = lookup_at_least l.ended l.now key fence.minimum g in
    if f.hit || some_error f.error then some (found_reply g' f) else next g'

-- From the new fence, which keeps the minimum of the first attempt.
unfoldable pub look_again : Plan → Bytes → ReadFence → Group → Option Reply
unfolding second_attempt look_or
look_again p key fence g = elim (run p.before_look g) [
  | none ↦ none
  | some g' ↦ look_or p.look_again key fence (second_attempt p key fence) g'
]

unfoldable pub retry : Plan → Bytes → ReadFence → Group → Option Reply
unfolding look_again
retry p key fence g = elim (run p.before_barrier g) [
  | none ↦ none
  | some g' ↦
      let (h, fresh) = read_barrier p.barrier_now key g' in
      look_again p key (with_minimum fence.minimum fresh) h
]

unfoldable pub first_attempt : Plan → Bytes → ReadFence → Group → Option Reply
unfolding load_after is_stale retry
first_attempt p key fence g = elim (load_after p.before_first p.first key fence g) [
  | none ↦ none
  | some o ↦
      if not (is_stale o.error) || some_error p.given_up
      then some (outcome_reply o)
      else retry p key (with_minimum o.result.minimum fence) o.group
]

-- The function that DoChan runs once for each flight key.
unfoldable pub flight : Plan → Bytes → ReadFence → Group → Option Reply
unfolding first_attempt look_or
flight p key fence g = look_or p.look key fence (first_attempt p key fence) g

-- FormatUint(fence.epoch, 10) + ":" + FormatInt(fence.minimum, 10) + ":" + key
unfoldable pub flight_key : ReadFence → Bytes → Bytes
flight_key fence key = format fence.epoch ++ 58 ∷ (format fence.minimum ++ 58 ∷ key)
