-- ===== src/Store/Queue/Fencing.antt =====
-- outbox.go: Finish refuses work whose lease another claim has taken.
use simple_cache.Prelude.{
  ℕ, suc, ◌+◌, ◌≤◌, ◌<◌, ◌≡◌, refl, sym, subst, ap, ◌∙◌, inl, inr, Bool, false, ◌||◌, Option, some,
  List, ltb, ◌==◌, Bool-cases, arith,
}
use simple_cache.Errors.{Error}
use simple_cache.Outbox.{minute}
use simple_cache.Store.{Message, Tables, Trip, answered, lost_before, lost_after, send}
use simple_cache.Store.Queue.{
  Event, sooner, claimable, leased, claim, owns, finished, finish_statement, finish,
}
use simple_cache.Store.Queue.Rows.{
  AllRows, AllRows-map, first_by-AllRows, update_where_reaches, update_where_none, count_where_none,
}
use simple_cache.Store.Queue.Leases.{
  Turn, turns, Attempted, turns-Attempted, lease_row, claim_taken,
}

-- No row has the identity that the sequence gives next, or a later one.
abbrev pub IsNumbered : Tables → Type 0
IsNumbered t = AllRows (λ m. m.id < t.next_id) t.outbox

lease_row-Attempted :
    (m : Message) (until : ℕ) (t : Tables)
    → m.id < t.next_id
    → Attempted m.id (suc m.attempts) (lease_row m until t)
lease_row-Attempted m until t b = (
  update_where_reaches (λ r. r.id ≡ m.id → suc m.attempts ≤ r.attempts) (λ r. r.id == m.id)
      (leased (suc m.attempts) until) t.outbox (λ r fit e. omega arith)
      (λ r unfit e. ground (arith, unfit, e)),
  b,
)

module _ (trip : Trip) (locked : ℕ → Bool) (now later lease : ℕ) (t : Tables) (e : Event)
    (found : (claim trip locked now later lease t).1 ≡ some e) where
  claim_numbered : IsNumbered t → Attempted e.id e.attempt (claim trip locked now later lease t).0
  claim_numbered h =
      let (m, first, is, done) = claim_taken trip locked now later lease t e found in
      subst (Attempted e.id e.attempt) (sym done) (
        subst (λ (x : Event). Attempted x.id x.attempt (lease_row m (later + lease) t)) (sym is)
          (lease_row-Attempted m (later + lease) t (
            first_by-AllRows (λ r. r.id < t.next_id) sooner (claimable locked now) t.outbox m h
              first)))

  claim_again :
      (i a : ℕ)
      → e.id ≡ i
      → Attempted i a t
      → Attempted i (suc a) (claim trip locked now later lease t).0
  claim_again i a same (h, b) =
      let (m, first, is, done) = claim_taken trip locked now later lease t e found in
      let seen =
        first_by-AllRows (λ r. r.id ≡ i → a ≤ r.attempts) sooner (claimable locked now) t.outbox m h
          first in
      let here : m.id ≡ i = ap (λ (x : Event). x.id) (sym is) ∙ same in
      let (rows, b') = lease_row-Attempted m (later + lease) t (omega (arith, here, b)) in
      subst (Attempted i (suc a)) (sym done) (
        AllRows-map (λ r. r.id ≡ m.id → suc m.attempts ≤ r.attempts)
            (λ r. r.id ≡ i → suc a ≤ r.attempts) (lease_row m (later + lease) t).outbox
            (λ r f s. omega (arith, f (s ∙ sym here), seen here)) rows,
        b,
      )

finish_statement_unowned :
    (e : Event) (delivered : Bool) (now later retry : ℕ) (t : Tables)
    → AllRows (λ m. owns e now m ≡ false) t.outbox
    → finish_statement e delivered now later retry t ≡ some (t, some 0)
unfolding finish_statement
finish_statement_unowned e delivered now later retry t h =
    rw
      (
        update_where_none (owns e now) (finished delivered later retry) t.outbox h,
        count_where_none (owns e now) t.outbox h,
      )
      refl

-- Nothing has changed, and the lease is not owned.
abbrev pub IsRefused : Tables → Tables × Bool × Option Error → Type 0
IsRefused t r = (r.0 ≡ t) × (r.1 ≡ false)

finish_unowned :
    (trip : Trip) (e : Event) (delivered : Bool) (now later retry : ℕ) (t : Tables)
    → finish_statement e delivered now later retry t ≡ some (t, some 0)
    → IsRefused t (finish trip e delivered now later retry t)
unfolding finish send
finish_unowned trip e delivered now later retry t none_owned =
    elim (Bool-cases (e.id == 0 || (e.attempt == 0 || ltb minute retry))) [
      | inl bad ↦ (rw (bad, finish) refl, rw (bad, finish) refl)
      | inr good ↦ sent trip good
    ]
  where
    sent :
        (trip : Trip)
        → (e.id == 0 || (e.attempt == 0 || ltb minute retry)) ≡ false
        → IsRefused t (finish trip e delivered now later retry t)
    sent answered good = (rw (good, finish, none_owned) refl, rw (good, finish, none_owned) refl)
    sent lost_before good = (rw (good, finish) refl, rw (good, finish) refl)
    sent lost_after good = (rw (good, finish, none_owned) refl, rw (good, finish) refl)

-- On rows whose identities were given out, a worker claims an event. Whatever the processes do next, a
-- claim by anyone returns the same message again; and whatever follows, the first worker's Finish, however
-- it went and whenever it comes, leaves the tables as they are and does not say that the lease was owned.
pub lost_lease :
    (trip trip' trip'' : Trip) (locked locked' : ℕ → Bool)
    (now now' now'' later later' later'' lease lease' retry : ℕ) (delivered : Bool)
    (between after : List Turn) (t : Tables) (e e' : Event)
    → IsNumbered t
    → (claim trip locked now later lease t).1 ≡ some e
    → (claim trip' locked' now' later' lease'
        (turns between (claim trip locked now later lease t).0)).1
      ≡ some e'
    → e'.id ≡ e.id
    → let t' = turns between (claim trip locked now later lease t).0 in
      let t'' = turns after (claim trip' locked' now' later' lease' t').0 in
      IsRefused t'' (finish trip'' e delivered now'' later'' retry t'')
lost_lease trip trip' trip'' locked locked' now now' now'' later later' later'' lease lease' retry
      delivered between after t e e' h first again same =
    let t' = turns between (claim trip locked now later lease t).0 in
    let held =
      turns-Attempted between e.id e.attempt (claim trip locked now later lease t).0
        (claim_numbered trip locked now later lease t e first h) in
    let t'' = turns after (claim trip' locked' now' later' lease' t').0 in
    let (rows, b) =
      turns-Attempted after e.id (suc e.attempt) (claim trip' locked' now' later' lease' t').0
        (claim_again trip' locked' now' later' lease' t' e' again e.id e.attempt same held) in
    finish_unowned trip'' e delivered now'' later'' retry t'' (
      finish_statement_unowned e delivered now'' later'' retry t'' (
        AllRows-map (λ m. m.id ≡ e.id → suc e.attempt ≤ m.attempts) (λ m. owns e now'' m ≡ false)
          t''.outbox (λ m f. ground (arith, f)) rows))
