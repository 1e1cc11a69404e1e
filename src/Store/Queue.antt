-- ===== src/Store/Queue.antt =====
-- internal/source/postgres/outbox.go: the statements on the outbox. `FOR UPDATE SKIP LOCKED` passes over
-- the rows that other transactions hold, which `locked` says. A statement reads the clock twice: for the
-- condition, `now`, and for what it writes, `later`.
pub mod Rows
pub mod Leases
pub mod Fencing
use simple_cache.Prelude.{
  ℕ, zero, suc, ◌+◌, ◌-◌, ◌*◌, Bool, true, false, not, ◌&&◌, ◌||◌, Option, none, some, List, [],
  ◌∷◌, Bytes, ltb, leb, ◌==◌, if◌then◌else◌,
}
use simple_cache.Errors.{Error, other}
use simple_cache.Outbox.{second, minute}
use simple_cache.Store.{
  Message, Tables, Statement, next_version, Trip, Answer, no_rows, row, fault, send,
}

-- outbox.Event
pub record Event : Type 0 where
  pub id : ℕ
  pub key : Bytes
  pub version : ℕ
  pub attempt : ℕ

abbrev pub is_null : Option ℕ → Bool
is_null none = true
is_null (some n) = false

-- leased_until IS NULL OR leased_until <= now
abbrev pub is_free : ℕ → Option ℕ → Bool
is_free now none = true
is_free now (some u) = leb u now

-- leased_until > now, which NULL is not
abbrev pub is_held : ℕ → Option ℕ → Bool
is_held now none = false
is_held now (some u) = ltb now u

abbrev pub claimable : (ℕ → Bool) → ℕ → Message → Bool
claimable locked now m =
    is_null m.delivered_at
    && (leb m.available_at now && (is_free now m.leased_until && not (locked m.id)))

-- ORDER BY available_at, id
abbrev pub sooner : Message → Message → Bool
sooner m n =
    ltb m.available_at n.available_at || (m.available_at == n.available_at && ltb m.id n.id)

-- The first row in the order, among those that fit.
unfoldable pub first_by :
    (Message → Message → Bool) → (Message → Bool) → List Message → Option Message
first_by before fits [] = none
first_by before fits (m ∷ l) =
    let rest = first_by before fits l in
    if fits m
    then elim rest [ none ↦ some m | some r ↦ some (if before r m then r else m) ]
    else rest

-- UPDATE … WHERE
unfoldable pub update_where : (Message → Bool) → (Message → Message) → List Message → List Message
update_where fits change [] = []
update_where fits change (m ∷ l) = (if fits m then change m else m) ∷ update_where fits change l

unfoldable pub count_where : (Message → Bool) → List Message → ℕ
count_where fits [] = 0
count_where fits (m ∷ l) = (if fits m then 1 else 0) + count_where fits l

abbrev pub leased : ℕ → ℕ → Message → Message
leased attempt until m = record m { attempts = attempt; leased_until = some until }

unfoldable pub claim_statement : (ℕ → Bool) → ℕ → ℕ → ℕ → Statement Event
unfolding next_version first_by update_where
claim_statement locked now later lease t = elim (first_by sooner (claimable locked now) t.outbox) [
  | none ↦ some (t, none)
  | some m ↦ elim (next_version m.attempts) [
    | none ↦ none
    | some attempt ↦ some (
      record t {
        outbox =
            update_where (λ (r : Message). r.id == m.id) (leased attempt (later + lease)) t.outbox;
      },
      some (record { id = m.id; key = m.key; version = m.version; attempt = attempt }),
    )
  ]
]

abbrev pub claimed : Answer Event → Option Event × Option Error
claimed no_rows = (none, none)
claimed (row e) = (some e, none)
claimed fault = (none, some other)

-- Claim: the tables, the event that was found, and the error.
unfoldable pub claim : Trip → (ℕ → Bool) → ℕ → ℕ → ℕ → Tables → Tables × Option Event × Option Error
claim trip locked now later lease t =
    if lease == 0 || ltb minute lease
    then (t, none, some other)
    else let (t', a) = send trip (claim_statement locked now later lease) t in
      let (x, e) = claimed a in (t', x, e)

-- The lease that an event stands for is still the row's.
abbrev pub owns : Event → ℕ → Message → Bool
owns e now m =
    m.id == e.id
    && (m.attempts == e.attempt && (is_null m.delivered_at && is_held now m.leased_until))

unfoldable pub finished : Bool → ℕ → ℕ → Message → Message
finished delivered later retry m = record m {
  delivered_at = if delivered then some later else none;
  available_at = if delivered then m.available_at else later + retry;
  leased_until = none;
}

-- RETURNING stands for RowsAffected.
unfoldable pub finish_statement : Event → Bool → ℕ → ℕ → ℕ → Statement ℕ
unfolding update_where count_where finished
finish_statement e delivered now later retry t = some (
  record t { outbox = update_where (owns e now) (finished delivered later retry) t.outbox },
  some (count_where (owns e now) t.outbox),
)

abbrev pub completed : Answer ℕ → Bool × Option Error
completed no_rows = (false, none)
completed (row n) = (n == 1, none)
completed fault = (false, some other)

-- Finish: the tables, whether the lease was still owned, and the error.
unfoldable pub finish : Trip → Event → Bool → ℕ → ℕ → ℕ → Tables → Tables × Bool × Option Error
finish trip e delivered now later retry t =
    if e.id == 0 || (e.attempt == 0 || ltb minute retry)
    then (t, false, some other)
    else let (t', a) = send trip (finish_statement e delivered now later retry) t in
      let (x, x') = completed a in (t', x, x')

-- delivered_at < now - retention, which NULL is not
abbrev pub purgeable : (ℕ → Bool) → ℕ → ℕ → Message → Bool
purgeable locked now retention m =
    elim m.delivered_at [ none ↦ false | some d ↦ ltb (d + retention) now ] && not (locked m.id)

abbrev pub delivery_of : Message → ℕ
delivery_of m = elim m.delivered_at [ none ↦ 0 | some d ↦ d ]

-- ORDER BY delivered_at, id
abbrev pub delivered_sooner : Message → Message → Bool
delivered_sooner m n =
    ltb (delivery_of m) (delivery_of n) || (delivery_of m == delivery_of n && ltb m.id n.id)

unfoldable pub delete_id : ℕ → List Message → List Message
delete_id i [] = []
delete_id i (m ∷ l) = let rest = delete_id i l in if m.id == i then rest else m ∷ rest

-- DELETE … WHERE id IN (SELECT … LIMIT): one row after the other. The rows left, and how many went.
unfoldable pub purge_rows : (Message → Bool) → ℕ → List Message → List Message × ℕ
unfolding first_by delete_id
purge_rows fits zero l = (l, 0)
purge_rows fits (suc limit) l = elim (first_by delivered_sooner fits l) [
  | none ↦ (l, 0)
  | some m ↦ let (l', n) = purge_rows fits limit (delete_id m.id l) in (l', suc n)
]

unfoldable pub purge_statement : (ℕ → Bool) → ℕ → ℕ → ℕ → Statement ℕ
unfolding purge_rows
purge_statement locked now retention limit t =
    let (l, n) = purge_rows (purgeable locked now retention) limit t.outbox in
    some (record t { outbox = l }, some n)

abbrev pub purged : Answer ℕ → ℕ × Option Error
purged no_rows = (0, none)
purged (row n) = (n, none)
purged fault = (0, some other)

-- PurgeDelivered: the tables, how many rows went, and the error.
unfoldable pub purge_delivered : Trip → (ℕ → Bool) → ℕ → ℕ → ℕ → Tables → Tables × ℕ × Option Error
purge_delivered trip locked now retention limit t =
    if ltb retention (60 * minute) || (limit == 0 || ltb 1000 limit)
    then (t, 0, some other)
    else let (t', a) = send trip (purge_statement locked now retention limit) t in
      let (x, e) = purged a in (t', x, e)
