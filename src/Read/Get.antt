-- ===== src/Read/Get.antt =====
-- read.go `Get`: a hit, a slot for the waiter, the fence, and the wait for the flight. The caller starts the
-- flight here; one that joins it is in Read/Flight/Sharing.antt.
use simple_cache.Prelude.{
  ℕ, ◌≡◌, refl, ap, subst, sym, inl, inr, Bool, true, false, not, ◌||◌, Option, none, some, Bytes,
  if◌then◌else◌, Option-cases,
}
use simple_cache.Errors.{Error, overloaded}
use simple_cache.Group.{Group, read_barrier}
use simple_cache.Group.Invariant.{IsSound, known_version-IsSound}
use simple_cache.Load.{no_view}
use simple_cache.Read.{lookup}
use simple_cache.Read.History.{run}
use simple_cache.Read.History.Effects.{run-Steps, lookup-Steps}
use simple_cache.Read.Flight.{Gap, Plan, Reply, some_error, found_reply, flight}
use simple_cache.Read.Flight.Minimum.{flight-Answered}

-- How the wait ends: with the caller's context, or with the result and what ctx.Err() is then.
pub data Wait : Type 0 where
  left : Error → Wait
  arrived : Option Error → Wait

abbrev failed_reply : Group → Error → Reply
failed_reply g e = record { group = g; value = no_view; error = some e }

-- await. The flight goes on where its caller has left.
abbrev pub await : Wait → Reply → Reply
await (left e) r = failed_reply r.group e
await (arrived (some e)) r = failed_reply r.group e
await (arrived none) r = elim r.error [ none ↦ r | some e ↦ failed_reply r.group e ]

abbrev awaited : Wait → Option Reply → Option Reply
awaited w none = none
awaited w (some r) = some (await w r)

-- What the lookup finds of the context and the clock; whether a waiter slot is free; the events before the
-- fence; and the flight.
pub record Visit : Type 0 where
  pub ended : Option Error
  pub now : ℕ
  pub slot : Bool
  pub gap : Gap
  pub barrier_now : ℕ
  pub plan : Plan
  pub wait : Wait

unfoldable pub fly : Visit → Bytes → Option Group → Option Reply
fly v key none = none
fly v key (some g) =
    let (g', fence) = read_barrier v.barrier_now key g in
    awaited v.wait (flight v.plan key fence g')

unfoldable pub get : Visit → Bytes → Group → Option Reply
unfolding fly
get v key g =
    let (g', f) = lookup v.ended v.now key g in
    if f.hit || some_error f.error
    then some (found_reply g' f)
    else if not v.slot
    then some (failed_reply g' overloaded)
    else fly v key (run v.gap g')

abbrev Returns : Option Reply → Type 0
Returns x = (r : Reply) × (x ≡ some r) × IsSound r.group

branch-Returns :
    (b : Bool) (x y : Option Reply) → Returns x → Returns y → Returns (if b then x else y)
branch-Returns true x y h g = h
branch-Returns false x y h g = g

await-IsSound : (w : Wait) (v : Reply) → IsSound v.group → IsSound (await w v).group
await-IsSound (left e) v s = s
await-IsSound (arrived (some e)) v s = s
await-IsSound (arrived none) v s = elim (Option-cases v.error) [
  | inl fine ↦ rw fine s
  | inr (e, bad) ↦ rw bad s
]

fly-Returns : (v : Visit) (key : Bytes) (g : Group) → IsSound g → Returns (fly v key (some g))
unfolding fly read_barrier
fly-Returns v key g s =
    let (g', fence) = read_barrier v.barrier_now key g in
    let (r, flew, a) =
      flight-Answered v.plan key fence g' (known_version-IsSound v.barrier_now key g s) in
    (await v.wait r, ap (awaited v.wait) flew, await-IsSound v.wait r a.sound)

-- Get of a sound group returns, with any critical sections of others between its own, and the group is sound
-- afterwards.
pub get-IsSound : (v : Visit) (key : Bytes) (g : Group) → IsSound g → Returns (get v key g)
unfolding get
get-IsSound v key g s =
    let (g', f) = lookup v.ended v.now key g in
    let found = (lookup-Steps v.ended v.now key g s).sound in
    let (h, ran, p) = run-Steps v.gap g' found in
    branch-Returns (f.hit || some_error f.error) (some (found_reply g' f))
      (if not v.slot then some (failed_reply g' overloaded) else fly v key (run v.gap g'))
      (found_reply g' f, refl, found)
      (branch-Returns (not v.slot) (some (failed_reply g' overloaded)) (fly v key (run v.gap g'))
        (failed_reply g' overloaded, refl, found)
        (subst (λ x. Returns (fly v key x)) (sym ran) (fly-Returns v key h p.sound)))
