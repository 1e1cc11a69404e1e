-- ===== src/Store.antt =====
-- internal/source/postgres/postgres.go: the source of truth. Each method is one SQL statement, read here
-- as PostgreSQL documents it: a function on the two tables of deploy/products/schema.sql that happens
-- whole or not at all. What the connection and the context do is in `Trip` and in ctx.Err().
pub mod Statements
pub mod Generations
pub mod Commits
pub mod Writes
pub mod Tokens
pub mod Spent
pub mod Queue
use simple_cache.Prelude.{
  ℕ, zero, suc, ◌^◌, Bool, true, false, not, ◌&&◌, ◌||◌, Option, none, some, List, [], ◌∷◌, Bytes,
  length, ltb, ◌==◌, if◌then◌else◌,
}
use simple_cache.Prelude.Int.{ℤ, pos, negsuc}
use simple_cache.Prelude.Maps
use simple_cache.Prelude.Maps.{StringMap}
use simple_cache.Errors.{
  Error, not_found, value_too_large, precondition_failed, other, max_value_bytes, validate_key,
}

-- A row of simplecache_products, by its primary key. A deleted row is a tombstone.
pub record Product : Type 0 where
  pub value : Bytes
  pub version : ℕ
  pub deleted : Bool

-- A row of simplecache_outbox. Times as in the cache; NULL is `none`.
pub record Message : Type 0 where
  pub id : ℕ
  pub key : Bytes
  pub version : ℕ
  pub available_at : ℕ
  pub leased_until : Option ℕ
  pub attempts : ℕ
  pub delivered_at : Option ℕ

-- Both tables, and the sequence behind the identities of messages.
pub record Tables : Type 0 where
  pub products : StringMap Product
  pub outbox : List Message
  pub next_id : ℕ

-- What a statement returns: nothing where the database raises an error, and then nothing has changed;
-- the tables and what RETURNING gives, if there is a row.
abbrev pub Statement : Type 0 → Type 0
Statement A = Tables → Option (Tables × Option A)

-- The end of each writing statement: the changed row, and its message in the outbox.
unfoldable pub commit : ℕ → Bytes → Product → Tables → Tables
commit now key p t = record {
  products = Maps.put key p t.products;
  outbox =
      record {
        id = t.next_id;
        key = key;
        version = p.version;
        available_at = now;
        leased_until = none;
        attempts = 0;
        delivered_at = none;
      }
      ∷ t.outbox;
  next_id = suc t.next_id;
}

-- `version + 1` on a bigint, which raises an error past its range.
unfoldable pub next_version : ℕ → Option ℕ
next_version v = if ltb (suc v) (2 ^ 63) then some (suc v) else none

-- UPDATE of a row that is there.
unfoldable pub advance : ℕ → Bytes → (ℕ → Product) → ℕ → Statement ℕ
unfolding commit next_version
advance now key changed version t = elim (next_version version) [
  | none ↦ none
  | some v ↦ some (commit now key (changed v) t, some v)
]

abbrev pub live : Bytes → ℕ → Product
live value version = record { value = value; version = version; deleted = false }

abbrev pub tombstone : ℕ → Product
tombstone version = record { value = []; version = version; deleted = true }

-- INSERT … ON CONFLICT (key) DO UPDATE …, with `WHERE deleted` or without.
unfoldable pub upsert : Bool → ℕ → Bytes → Bytes → Statement ℕ
unfolding advance
upsert only_deleted now key value t = elim (Maps.get key t.products) [
  | none ↦ some (commit now key (live value 1) t, some 1)
  | some p ↦
      if only_deleted && not p.deleted
      then some (t, none)
      else advance now key (live value) p.version t
]

-- UPDATE … WHERE key = $1 AND NOT deleted, and AND version = $2 where a version is expected.
unfoldable pub update_live : Option ℕ → ℕ → Bytes → (ℕ → Product) → Statement ℕ
unfolding advance
update_live expected now key changed t = elim (Maps.get key t.products) [
  | none ↦ some (t, none)
  | some p ↦
      if p.deleted || elim expected [ none ↦ false | some v ↦ not (p.version == v) ]
      then some (t, none)
      else advance now key changed p.version t
]

-- A statement on its way: answered; lost before it reached the database; or done, with its answer lost.
pub data Trip : Type 0 where
  answered lost_before lost_after : Trip

-- What the driver makes of it: pgx.ErrNoRows, the scanned row, or another error.
pub data Answer (A : Type 0) : Type 0 where
  no_rows : Answer A
  row : A → Answer A
  fault : Answer A

abbrev pub answer_of : {A : Type 0} → Option A → Answer A
answer_of none = no_rows
answer_of (some v) = row v

abbrev pub tables_of : {A : Type 0} → Tables → Option (Tables × Option A) → Tables
tables_of t none = t
tables_of t (some (t', v)) = t'

abbrev pub scanned : {A : Type 0} → Option (Tables × Option A) → Answer A
scanned none = fault
scanned (some (t', v)) = answer_of v

unfoldable pub send : {A : Type 0} → Trip → Statement A → Tables → Tables × Answer A
send answered s t = (tables_of t (s t), scanned (s t))
send lost_before s t = (t, fault)
send lost_after s t = (tables_of t (s t), fault)

-- writeError of an error, with ctx.Err().
unfoldable pub write_error : Option Error → Error
write_error (some e) = e
write_error none = other

unfoldable pub mutation_result : Option Error → Answer ℕ → ℕ × Option Error
unfolding write_error
mutation_result ended no_rows = (0, some precondition_failed)
mutation_result ended (row v) = (v, none)
mutation_result ended fault = (0, some (write_error ended))

-- The error of pool.Exec.
unfoldable pub exec_result : Option Error → Answer ℕ → Option Error
unfolding write_error
exec_result ended fault = some (write_error ended)
exec_result ended _ = none

unfoldable pub validate_value : Bytes → Bytes → Option Error
validate_value key value = elim (validate_key key) [
  | some e ↦ some e
  | none ↦ if ltb max_value_bytes (length value) then some value_too_large else none
]

abbrev pub mutated : Trip → Option Error → Statement ℕ → Tables → Tables × ℕ × Option Error
mutated trip ended s t =
    let (t', a) = send trip s t in let (v, e) = mutation_result ended a in (t', v, e)

abbrev pub executed : Trip → Option Error → Statement ℕ → Tables → Tables × Option Error
executed trip ended s t = let (t', a) = send trip s t in (t', exec_result ended a)

unfoldable pub put : Trip → Option Error → ℕ → Bytes → Bytes → Tables → Tables × Option Error
put trip ended now key value t = elim (validate_value key value) [
  | some e ↦ (t, some e)
  | none ↦ executed trip ended (upsert false now key value) t
]

-- PutIfVersion, past the checks.
unfoldable pub put_checked :
    Trip → Option Error → ℕ → Bytes → Bytes → ℤ → Tables → Tables × ℕ × Option Error
put_checked trip ended now key value (negsuc n) t = (t, 0, some other)
put_checked trip ended now key value (pos zero) t = mutated trip ended (upsert true now key value) t
put_checked trip ended now key value (pos (suc n)) t =
    mutated trip ended (update_live (some (suc n)) now key (live value)) t

unfoldable pub put_if_version :
    Trip → Option Error → ℕ → Bytes → Bytes → ℤ → Tables → Tables × ℕ × Option Error
unfolding put_checked
put_if_version trip ended now key value expected t = elim (validate_value key value) [
  | some e ↦ (t, 0, some e)
  | none ↦ put_checked trip ended now key value expected t
]

unfoldable pub delete : Trip → Option Error → ℕ → Bytes → Tables → Tables × Option Error
delete trip ended now key t = elim (validate_key key) [
  | some e ↦ (t, some e)
  | none ↦ executed trip ended (update_live none now key tombstone) t
]

unfoldable pub delete_checked :
    Trip → Option Error → ℕ → Bytes → ℤ → Tables → Tables × ℕ × Option Error
delete_checked trip ended now key (negsuc n) t = (t, 0, some other)
delete_checked trip ended now key (pos zero) t = (t, 0, some other)
delete_checked trip ended now key (pos (suc n)) t =
    mutated trip ended (update_live (some (suc n)) now key tombstone) t

unfoldable pub delete_if_version :
    Trip → Option Error → ℕ → Bytes → ℤ → Tables → Tables × ℕ × Option Error
unfolding delete_checked
delete_if_version trip ended now key expected t = elim (validate_key key) [
  | some e ↦ (t, 0, some e)
  | none ↦ delete_checked trip ended now key expected t
]

-- GetVersioned: SELECT … WHERE key = $1 AND NOT deleted.
unfoldable pub get_versioned :
    Trip → Option Error → Bytes → Tables → Option (Bytes × ℕ) × Option Error
unfolding write_error
get_versioned trip ended key t = elim (validate_key key) [
  | some e ↦ (none, some e)
  | none ↦ elim trip [
    | answered ↦ elim (Maps.get key t.products) [
      | none ↦ (none, some not_found)
      | some p ↦ if p.deleted then (none, some not_found) else (some (p.value, p.version), none)
    ]
    | _ ↦ (none, some (write_error ended))
  ]
]
