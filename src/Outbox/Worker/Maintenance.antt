-- ===== src/Outbox/Worker/Maintenance.antt =====
-- worker.go: the maintenance ends.
use simple_cache.Prelude.{
  ℕ, zero, suc, ◌+◌, ◌≤◌, ◌<◌, ◌≡◌, refl, inl, inr, Bool, Option, none, some, List, [], ◌∷◌, length,
  ltb, Option-cases, Bool-cases, arith,
}
use simple_cache.Errors.{Error}
use simple_cache.Outbox.Worker.{retention, purge_loop}
use simple_cache.Store.{Message, Tables, Trip, answered, lost_before, lost_after, send}
use simple_cache.Store.Queue.{
  first_by, delete_id, purge_rows, delivered_sooner, purgeable, purge_statement, purge_delivered,
}

length-delete_id : (l : List Message) (i : ℕ) → length (delete_id i l) ≤ length l
unfolding delete_id
length-delete_id [] i = omega arith
length-delete_id (m ∷ l) i = ground (arith, length-delete_id l i)

length-delete_first :
    (before : Message → Message → Bool) (fits : Message → Bool) (l : List Message) (m : Message)
    → first_by before fits l ≡ some m
    → suc (length (delete_id m.id l)) ≤ length l
unfolding delete_id first_by
length-delete_first before fits [] m e = cc
length-delete_first before fits (x ∷ l) m e = elim (Bool-cases (fits x)) [
  | inr unfit ↦ ground (arith, length-delete_first before fits l m (ground (arith, e)))
  | inl fit ↦ elim (Option-cases (first_by before fits l)) [
    | inl nothing ↦ ground (arith, e, length-delete_id l m.id)
    | inr (r, found) ↦ elim (Bool-cases (before r x)) [
      | inl sooner ↦ ground (arith, length-delete_first before fits l m (ground (arith, e)))
      | inr later ↦ ground (arith, e, length-delete_id l m.id)
    ]
  ]
]

length-purge_rows :
    (fits : Message → Bool) (limit : ℕ) (l : List Message)
    → length (purge_rows fits limit l).0 + (purge_rows fits limit l).1 ≤ length l
unfolding purge_rows
length-purge_rows fits zero l = omega arith
length-purge_rows fits (suc limit) l = elim (Option-cases (first_by delivered_sooner fits l)) [
  | inl nothing ↦ rw (nothing, purge_rows) (omega arith)
  | inr (m, found) ↦
      rw (found, purge_rows)
        (omega (
          arith,
          length-purge_rows fits limit (delete_id m.id l),
          length-delete_first delivered_sooner fits l m found,
        ))
]

-- A round that is not the last takes rows away.
length-purge_delivered :
    (trip : Trip) (locked : ℕ → Bool) (now keep limit : ℕ) (t : Tables)
    → (purge_delivered trip locked now keep limit t).2 ≡ none
    → length (purge_delivered trip locked now keep limit t).0.outbox
        + (purge_delivered trip locked now keep limit t).1
      ≤ length t.outbox
unfolding purge_delivered purge_statement send
length-purge_delivered lost_before locked now keep limit t e = ground (arith, e)
length-purge_delivered lost_after locked now keep limit t e = ground (arith, e)
length-purge_delivered answered locked now keep limit t e =
    ground (arith, e, length-purge_rows (purgeable locked now keep) limit t.outbox)

-- The loop of the maintenance returns within one round more than the outbox has rows, however long the
-- deadline, whatever the database answers and whichever rows are held.
pub purge_loop-returns :
    (ended : ℕ → Bool) (trip : ℕ → Trip) (locked : ℕ → ℕ → Bool) (now : ℕ → ℕ) (fuel : ℕ)
    (t : Tables)
    → length t.outbox < fuel
    → (r : Tables × Option Error) × (purge_loop fuel ended trip locked now t ≡ some r)
unfolding purge_loop
purge_loop-returns ended trip locked now zero t h = absurd (omega (arith, h))
purge_loop-returns ended trip locked now (suc fuel) t h =
    let r = purge_delivered (trip fuel) (locked fuel) (now fuel) retention 1000 t in
    elim (Bool-cases (ended fuel)) [
      | inl over ↦ ((t, none), rw (over, purge_loop) refl)
      | inr running ↦ elim (Option-cases r.2) [
        | inr (e, failed) ↦ ((r.0, some e), rw (running, purge_loop, failed) refl)
        | inl good ↦ elim (Bool-cases (ltb r.1 1000)) [
          | inl few ↦ ((r.0, none), rw (running, purge_loop, good, few) refl)
          | inr many ↦
              let (x, e) = purge_loop-returns ended trip locked now fuel r.0 (
                ground (
                  arith,
                  many,
                  length-purge_delivered (trip fuel) (locked fuel) (now fuel) retention 1000 t good,
                )) in
              (x, rw (running, purge_loop, good, many) e)
        ]
      ]
    ]
