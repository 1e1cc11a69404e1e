-- ===== src/Outbox/Worker/Delivery.antt =====
-- worker.go: a committed event is delivered at least once.
use simple_cache.Prelude.{
  ℕ, zero, suc, ◌+◌, ◌<◌, ◌≡◌, refl, subst, ◌≢◌, ◌⊎◌, inl, inr, Bool, true, false, Option, none,
  some, List, [], ◌∷◌, Bytes, ◌==◌, Option-cases, Bool-cases, arith,
}
use simple_cache.Errors.{Error}
use simple_cache.Outbox.{retry_delay}
use simple_cache.Outbox.Worker.{lease_duration, retention}
use simple_cache.Store.{Product, Message, Tables, commit, Trip}
use simple_cache.Store.Writes.{Write, write, write_keeps}
use simple_cache.Store.Queue.{
  Event, sooner, claimable, leased, claim, claim_statement, owns, finished, finish_statement,
  finish, purgeable, purge_statement, purge_delivered,
}
use simple_cache.Store.Queue.Rows.{
  AllRows, AllRows-map, HasId, first_by-AllRows, update_where-AllRows, update_where-HasId,
  purge_rows-AllRows, purge_rows-HasId,
}
use simple_cache.Store.Queue.Leases.{
  claim_statement_keeps, claim_keeps, finish_keeps, purge_delivered_keeps, claim_taken,
}
use simple_cache.Store.Queue.Fencing.{IsNumbered}
use simple_cache.Outbox.Worker.System.{
  System, Act, writes, purges, begins, ends, stops, act, acts, held_at, without, hold, end_held,
  AllEvents, AnyEvent,
}

module _ (i : ℕ) (key : Bytes) (v : ℕ) where
  -- The row of the message, not delivered.
  abbrev pub Undelivered : Message → Type 0
  Undelivered m = m.id ≡ i → (m.key ≡ key) × (m.version ≡ v) × (m.delivered_at ≡ none)

  abbrev pub Waits : Tables → Type 0
  Waits t = AllRows Undelivered t.outbox × HasId i t.outbox × (i < t.next_id)

  abbrev pub Carries : Event → Type 0
  Carries e = (e.id ≡ i) × (e.key ≡ key) × (e.version ≡ v)

  abbrev Sound : Event → Type 0
  Sound e = e.id ≡ i → (e.key ≡ key) × (e.version ≡ v)

  abbrev Kept : System → Type 0
  Kept s = AnyEvent Carries s.sent ⊎ (Waits s.tables × AllEvents Sound s.held)

  commit-Waits :
      (now : ℕ) (k : Bytes) (p : Product) (t : Tables) → Waits t → Waits (commit now k p t)
  unfolding commit AllRows HasId
  commit-Waits now k p t (h, there, b) =
      ((λ e. absurd (omega (arith, e, b)), h), inr there, omega (arith, b))

  write-Waits : (w : Write) (t : Tables) → Waits t → Waits (write w t)
  write-Waits w t h =
      write_keeps (λ t t'. Waits t → Waits t') (λ t h. h)
        (λ now k p t b h. commit-Waits now k p t h) w t h

  purge_delivered-Waits :
      (trip : Trip) (locked : ℕ → Bool) (now keep limit : ℕ) (t : Tables)
      → Waits t
      → Waits (purge_delivered trip locked now keep limit t).0
  unfolding purge_statement
  purge_delivered-Waits trip locked now keep limit t (h, there, b) =
      purge_delivered_keeps Waits trip locked now keep limit t (h, there, b)
        (
          purge_rows-AllRows Undelivered (purgeable locked now keep) limit t.outbox h,
          purge_rows-HasId i (purgeable locked now keep) limit t.outbox
              (AllRows-map Undelivered (λ m. m.id ≡ i → purgeable locked now keep m ≡ false)
                t.outbox (λ m f e. ground (arith, f e)) h)
              there,
          b,
        )

  finished-Undelivered :
      (e : Event) (delivered : Bool) (now later retry : ℕ)
      → (e.id ≢ i) ⊎ (delivered ≡ false)
      → (m : Message) → owns e now m ≡ true
      → Undelivered m
      → Undelivered (finished delivered later retry m)
  unfolding finished
  finished-Undelivered e delivered now later retry (inl other) m fit p same =
      absurd (other (ground (arith, fit, same)))
  finished-Undelivered e delivered now later retry (inr failed) m fit p same =
      let (k, n, d) = p same in (k, n, rw failed refl)

  finish-Waits :
      (trip : Trip) (e : Event) (delivered : Bool) (now later retry : ℕ) (t : Tables)
      → (e.id ≢ i) ⊎ (delivered ≡ false)
      → Waits t
      → Waits (finish trip e delivered now later retry t).0
  unfolding finish_statement finished
  finish-Waits trip e delivered now later retry t why (h, there, b) =
      finish_keeps Waits trip e delivered now later retry t (h, there, b)
        (
          update_where-AllRows Undelivered (owns e now) (finished delivered later retry) t.outbox
              (λ m fit p. finished-Undelivered e delivered now later retry why m fit p) h,
          update_where-HasId i (owns e now) (finished delivered later retry) t.outbox (λ m. refl)
              there,
          b,
        )

  claim-Waits :
      (trip : Trip) (locked : ℕ → Bool) (now later lease : ℕ) (t : Tables)
      → Waits t
      → Waits (claim trip locked now later lease t).0
  unfolding claim_statement
  claim-Waits trip locked now later lease t (h, there, b) =
      claim_keeps Waits trip locked now later lease t (h, there, b)
        (claim_statement_keeps Waits locked now later lease t (h, there, b)
          (λ m found. (
            update_where-AllRows Undelivered (λ r. r.id == m.id)
                (leased (suc m.attempts) (later + lease)) t.outbox (λ r fit p. p) h,
            update_where-HasId i (λ r. r.id == m.id) (leased (suc m.attempts) (later + lease))
                t.outbox (λ m. refl) there,
            b,
          )))

  held-Sound :
      (trip : Trip) (locked : ℕ → Bool) (now later lease : ℕ) (t : Tables) (l : List Event)
      → AllRows Undelivered t.outbox
      → AllEvents Sound l
      → AllEvents Sound (hold (claim trip locked now later lease t).1 l)
  unfolding AllEvents
  held-Sound trip locked now later lease t l h g =
      elim (Option-cases (claim trip locked now later lease t).1) [
        | inl nothing ↦ rw nothing g
        | inr (e, found) ↦
            let (m, first, is, done) = claim_taken trip locked now later lease t e found in
            let p = first_by-AllRows Undelivered sooner (claimable locked now) t.outbox m h first in
            rw found ((λ same. ground (arith, is, p, same)), g)
      ]

  without-Sound : (n : ℕ) (l : List Event) → AllEvents Sound l → AllEvents Sound (without n l)
  unfolding AllEvents
  without-Sound n [] h = h
  without-Sound zero (e ∷ l) (p, h) = h
  without-Sound (suc n) (e ∷ l) (p, h) = (p, without-Sound n l h)

  held_at-Sound :
      (n : ℕ) (l : List Event) (e : Event) → AllEvents Sound l → held_at n l ≡ some e → Sound e
  unfolding AllEvents
  held_at-Sound n [] e h f = cc
  held_at-Sound zero (x ∷ l) e (p, h) f = let same : x ≡ e = ground (arith, f) in subst Sound same p
  held_at-Sound (suc n) (x ∷ l) e (p, h) f = held_at-Sound n l e h f

  act-Kept : (a : Act) (s : System) → Kept s → Kept (act a s)
  unfolding act AnyEvent
  act-Kept (writes w) s (inl logged) = inl logged
  act-Kept (writes w) s (inr (h, g)) = inr (write-Waits w s.tables h, g)
  act-Kept (purges trip locked now) s (inl logged) = inl logged
  act-Kept (purges trip locked now) s (inr (h, g)) =
      inr (purge_delivered-Waits trip locked now retention 1000 s.tables h, g)
  act-Kept (begins trip locked now later) s (inl logged) = inl logged
  act-Kept (begins trip locked now later) s (inr (h, g)) = inr (
    claim-Waits trip locked now later lease_duration s.tables h,
    held-Sound trip locked now later lease_duration s.tables s.held h.0 g,
  )
  act-Kept (ends n trip outcome now later) s k = elim (Option-cases (held_at n s.held)) [
    | inl nothing ↦ rw nothing k
    | inr (e, found) ↦ rw found (ended-Kept n e trip outcome now later s found k)
  ]
    where
      ended-Kept :
          (n : ℕ) (e : Event) (trip : Trip) (outcome : Option Error) (now later : ℕ) (s : System)
          → held_at n s.held ≡ some e
          → Kept s
          → Kept (end_held n (some e) trip outcome now later s)
      ended-Kept n e trip none now later s found (inl logged) = inl (inr logged)
      ended-Kept n e trip (some x) now later s found (inl logged) = inl logged
      ended-Kept n e trip (some x) now later s found (inr (h, g)) = inr (
        finish-Waits trip e false now later (retry_delay e.attempt) s.tables (inr refl) h,
        without-Sound n s.held g,
      )
      ended-Kept n e trip none now later s found (inr (h, g)) = elim (Bool-cases (e.id == i)) [
        | inl same ↦
            let (k, v) = held_at-Sound n s.held e g found (ground (arith, same)) in
            inl (inl (ground (arith, same), k, v))
        | inr other ↦ inr (
          finish-Waits trip e true now later (retry_delay e.attempt) s.tables
              (inl (λ q. ground (arith, q, other))) h,
          without-Sound n s.held g,
        )
      ]
  act-Kept (stops n) s (inl logged) = inl logged
  act-Kept (stops n) s (inr (h, g)) = inr (h, without-Sound n s.held g)

  acts-Kept : (l : List Act) (s : System) → Kept s → Kept (acts l s)
  unfolding acts
  acts-Kept [] s k = k
  acts-Kept (a ∷ l) s k = acts-Kept l (act a s) (act-Kept a s k)

  commit-Waits_new :
      (now : ℕ) (p : Product) (t : Tables)
      → t.next_id ≡ i
      → p.version ≡ v
      → IsNumbered t
      → Waits (commit now key p t)
  unfolding commit AllRows HasId
  commit-Waits_new now p t new named h = (
    (
      λ e. (refl, named, refl),
      AllRows-map (λ m. m.id < t.next_id) Undelivered t.outbox
          (λ m b e. absurd (omega (arith, b, e, new))) h,
    ),
    inl new,
    omega (arith, new),
  )

-- A write commits its row and the message of it, in tables whose identities were given out. Whatever the
-- workers then do, with whatever other writes and answers lost, either an event with the identity, the key
-- and the version of that message was delivered without an error, or the message still waits: its row is
-- there and is not delivered.
pub acts-Delivered :
    (now : ℕ) (key : Bytes) (p : Product) (t : Tables) (l : List Act)
    → IsNumbered t
    → let s = acts l (record { tables = commit now key p t; held = []; sent = [] }) in
      AnyEvent (Carries t.next_id key p.version) s.sent ⊎ Waits t.next_id key p.version s.tables
unfolding AllEvents
acts-Delivered now key p t l h =
    elim (acts-Kept t.next_id key p.version l
      (record { tables = commit now key p t; held = []; sent = [] })
      (inr (commit-Waits_new t.next_id key p.version now p t refl refl h, tt))) [
        | inl logged ↦ inl logged
        | inr (waits, sound) ↦ inr waits
      ]
