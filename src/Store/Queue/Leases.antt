-- ===== src/Store/Queue/Leases.antt =====
-- outbox.go: a lease is a number of attempts, and it is lost to the next claim.
use simple_cache.Prelude.{
  ℕ, suc, ◌^◌, ◌*◌, ◌+◌, ◌≤◌, ◌<◌, ◌≡◌, refl, ap, inl, inr, Bool, true, ◌||◌, none, some, List, [],
  ◌∷◌, Bytes, ltb, ◌==◌, Option-cases, Bool-cases, arith,
}
use simple_cache.Outbox.{minute}
use simple_cache.Store.{
  Product, Message, Tables, Statement, next_version, commit, Trip, answered, lost_before,
  lost_after, send, tables_of,
}
use simple_cache.Store.Writes.{Write, write, write_keeps}
use simple_cache.Store.Queue.{
  Event, sooner, claimable, first_by, update_where, leased, claim_statement, claim, owns, finished,
  finish_statement, finish, purgeable, purge_statement, purge_delivered,
}
use simple_cache.Store.Queue.Rows.{
  AllRows, first_by-AllRows, update_where-AllRows, purge_rows-AllRows,
}

-- What may happen to the tables, from any process.
pub data Turn : Type 0 where
  writes : Write → Turn
  claims : Trip → (ℕ → Bool) → ℕ → ℕ → ℕ → Turn
  finishes : Trip → Event → Bool → ℕ → ℕ → ℕ → Turn
  purges : Trip → (ℕ → Bool) → ℕ → ℕ → ℕ → Turn

unfoldable pub turn : Turn → Tables → Tables
turn (writes w) t = write w t
turn (claims trip locked now later lease) t = (claim trip locked now later lease t).0
turn (finishes trip e delivered now later retry) t = (finish trip e delivered now later retry t).0
turn (purges trip locked now retention limit) t =
    (purge_delivered trip locked now retention limit t).0

unfoldable pub turns : List Turn → Tables → Tables
turns [] t = t
turns (m ∷ ms) t = turns ms (turn m t)

module _ {A : Type 0} (P : Tables → Type 0) where
  pub send_keeps :
      (trip : Trip) (s : Statement A) (t : Tables)
      → P t
      → P (tables_of t (s t))
      → P (send trip s t).0
  unfolding send
  send_keeps answered s t p q = q
  send_keeps lost_before s t p q = p
  send_keeps lost_after s t p q = q

module _ (P : Tables → Type 0) where
  pub claim_keeps :
      (trip : Trip) (locked : ℕ → Bool) (now later lease : ℕ) (t : Tables)
      → P t
      → P (tables_of t (claim_statement locked now later lease t))
      → P (claim trip locked now later lease t).0
  unfolding claim
  claim_keeps trip locked now later lease t p q =
      elim (Bool-cases (lease == 0 || ltb minute lease)) [
        | inl bad ↦ rw (bad, claim) p
        | inr good ↦
            rw (good, claim) (send_keeps P trip (claim_statement locked now later lease) t p q)
      ]

  pub finish_keeps :
      (trip : Trip) (e : Event) (delivered : Bool) (now later retry : ℕ) (t : Tables)
      → P t
      → P (tables_of t (finish_statement e delivered now later retry t))
      → P (finish trip e delivered now later retry t).0
  unfolding finish
  finish_keeps trip e delivered now later retry t p q =
      elim (Bool-cases (e.id == 0 || (e.attempt == 0 || ltb minute retry))) [
        | inl bad ↦ rw (bad, finish) p
        | inr good ↦
            rw (good, finish)
              (send_keeps P trip (finish_statement e delivered now later retry) t p q)
      ]

  pub purge_delivered_keeps :
      (trip : Trip) (locked : ℕ → Bool) (now retention limit : ℕ) (t : Tables)
      → P t
      → P (tables_of t (purge_statement locked now retention limit t))
      → P (purge_delivered trip locked now retention limit t).0
  unfolding purge_delivered
  purge_delivered_keeps trip locked now retention limit t p q =
      elim (Bool-cases (ltb retention (60 * minute) || (limit == 0 || ltb 1000 limit))) [
        | inl bad ↦ rw (bad, purge_delivered) p
        | inr good ↦
            rw (good, purge_delivered)
              (send_keeps P trip (purge_statement locked now retention limit) t p q)
      ]

-- Every row with the identity has seen `a` attempts, and no row to come has that identity.
abbrev pub Attempted : ℕ → ℕ → Tables → Type 0
Attempted i a t = AllRows (λ m. m.id ≡ i → a ≤ m.attempts) t.outbox × (i < t.next_id)

abbrev pub event_of : Message → Event
event_of m = record { id = m.id; key = m.key; version = m.version; attempt = suc m.attempts }

abbrev pub lease_row : Message → ℕ → Tables → Tables
lease_row m until t = record t {
  outbox = update_where (λ (r : Message). r.id == m.id) (leased (suc m.attempts) until) t.outbox;
}

-- What taking the first row keeps, a claim keeps.
pub claim_statement_keeps :
    (P : Tables → Type 0) (locked : ℕ → Bool) (now later lease : ℕ) (t : Tables)
    → P t
    → ((m : Message)
        → first_by sooner (claimable locked now) t.outbox ≡ some m
        → P (lease_row m (later + lease) t))
    → P (tables_of t (claim_statement locked now later lease t))
unfolding claim_statement next_version
claim_statement_keeps P locked now later lease t p f =
    elim (Option-cases (first_by sooner (claimable locked now) t.outbox)) [
      | inl nothing ↦ rw (nothing, claim_statement) p
      | inr (m, first) ↦ elim (Bool-cases (ltb (suc m.attempts) (2 ^ 63))) [
        | inr big ↦ rw (first, claim_statement, big) p
        | inl small ↦ rw (first, claim_statement, small) (f m first)
      ]
    ]

claim_statement-Attempted :
    (locked : ℕ → Bool) (now later lease i a : ℕ) (t : Tables)
    → Attempted i a t
    → Attempted i a (tables_of t (claim_statement locked now later lease t))
claim_statement-Attempted locked now later lease i a t (h, b) =
    claim_statement_keeps (Attempted i a) locked now later lease t (h, b)
      (λ m found.
        let seen =
          first_by-AllRows (λ r. r.id ≡ i → a ≤ r.attempts) sooner (claimable locked now) t.outbox m
            h found in
        (
          update_where-AllRows (λ r. r.id ≡ i → a ≤ r.attempts) (λ r. r.id == m.id)
              (leased (suc m.attempts) (later + lease)) t.outbox
              (λ r fit p e. ground (arith, fit, seen, e)) h,
          b,
        ))

commit-Attempted :
    (now : ℕ) (key : Bytes) (p : Product) (i a : ℕ) (t : Tables)
    → Attempted i a t
    → Attempted i a (commit now key p t)
unfolding commit AllRows
commit-Attempted now key p i a t (h, b) = ((λ e. absurd (omega (arith, e, b)), h), omega (arith, b))

turn-Attempted : (m : Turn) (i a : ℕ) (t : Tables) → Attempted i a t → Attempted i a (turn m t)
unfolding turn finish_statement purge_statement finished
turn-Attempted (writes w) i a t h =
    write_keeps (λ t t'. Attempted i a t → Attempted i a t') (λ t h. h)
      (λ now key p t v h. commit-Attempted now key p i a t h) w t h
turn-Attempted (claims trip locked now later lease) i a t h =
    claim_keeps (Attempted i a) trip locked now later lease t h
      (claim_statement-Attempted locked now later lease i a t h)
turn-Attempted (finishes trip e delivered now later retry) i a t (h, b) =
    finish_keeps (Attempted i a) trip e delivered now later retry t (h, b)
      (
        update_where-AllRows (λ r. r.id ≡ i → a ≤ r.attempts) (owns e now)
            (finished delivered later retry) t.outbox (λ m fit p. p) h,
        b,
      )
turn-Attempted (purges trip locked now retention limit) i a t (h, b) =
    purge_delivered_keeps (Attempted i a) trip locked now retention limit t (h, b)
      (
        purge_rows-AllRows (λ r. r.id ≡ i → a ≤ r.attempts) (purgeable locked now retention) limit
            t.outbox h,
        b,
      )

pub turns-Attempted :
    (ms : List Turn) (i a : ℕ) (t : Tables) → Attempted i a t → Attempted i a (turns ms t)
unfolding turns
turns-Attempted [] i a t h = h
turns-Attempted (m ∷ ms) i a t h = turns-Attempted ms i a (turn m t) (turn-Attempted m i a t h)

claim_statement_found :
    (locked : ℕ → Bool) (now later lease : ℕ) (t : Tables) (m : Message)
    → first_by sooner (claimable locked now) t.outbox ≡ some m
    → ltb (suc m.attempts) (2 ^ 63) ≡ true
    → claim_statement locked now later lease t
      ≡ some (lease_row m (later + lease) t, some (event_of m))
unfolding claim_statement next_version
claim_statement_found locked now later lease t m first small =
    rw (first, claim_statement, small) refl

-- A claim that finds an event took the first row in the order, and leased it.
pub claim_taken :
    (trip : Trip) (locked : ℕ → Bool) (now later lease : ℕ) (t : Tables) (e : Event)
    → (claim trip locked now later lease t).1 ≡ some e
    → (m : Message) × (first_by sooner (claimable locked now) t.outbox ≡ some m)
      × (e ≡ event_of m)
      × ((claim trip locked now later lease t).0 ≡ lease_row m (later + lease) t)
unfolding claim claim_statement next_version send
claim_taken lost_before locked now later lease t e found = ground (arith, found)
claim_taken lost_after locked now later lease t e found = ground (arith, found)
claim_taken answered locked now later lease t e found =
    elim (Bool-cases (lease == 0 || ltb minute lease)) [
      | inl bad ↦ ground (arith, found)
      | inr good ↦ elim (Option-cases (first_by sooner (claimable locked now) t.outbox)) [
        | inl nothing ↦ ground (arith, found)
        | inr (m, first) ↦ elim (Bool-cases (ltb (suc m.attempts) (2 ^ 63))) [
          | inr big ↦ absurd (ground (arith, found, big))
          | inl small ↦
              let done = claim_statement_found locked now later lease t m first small in
              let ran : claim answered locked now later lease t
                  ≡ (lease_row m (later + lease) t, some (event_of m), none) =
                rw (good, claim, done) refl in
              (m, first, ground (arith, found, ran), ap (λ r. r.0) ran)
        ]
      ]
    ]
