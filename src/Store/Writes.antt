-- ===== src/Store/Writes.antt =====
-- postgres.go: the writing methods, and what each of them keeps that a commit of the next generation keeps.
use simple_cache.Prelude.{
  ℕ, zero, suc, ◌<◌, ◌≡◌, refl, sym, subst, inl, inr, Bool, true, false, not, ◌&&◌, Option, none,
  some, List, [], ◌∷◌, Bytes, Option-cases, Bool-cases, arith,
}
use simple_cache.Prelude.Int.{ℤ, pos, negsuc}
use simple_cache.Prelude.Maps
use simple_cache.Prelude.Maps.{get-put}
use simple_cache.Errors.{Error, validate_key}
use simple_cache.Store.{
  Product, Tables, Statement, commit, advance, live, tombstone, upsert, update_live, Trip, answered,
  lost_before, lost_after, send, tables_of, mutated, put, put_if_version, put_checked, delete,
  delete_if_version, delete_checked, validate_value,
}
use simple_cache.Store.Generations.{version_of}
use simple_cache.Store.Statements.{
  advance_lem, upsert_absent, upsert_blocked, upsert_free, unfit_for, update_live_absent,
  update_live_blocked, update_live_free,
}

-- The writing methods, with what the caller, the context and the connection bring.
pub data Write : Type 0 where
  puts : Trip → Option Error → ℕ → Bytes → Bytes → Write
  puts_if : Trip → Option Error → ℕ → Bytes → Bytes → ℤ → Write
  deletes : Trip → Option Error → ℕ → Bytes → Write
  deletes_if : Trip → Option Error → ℕ → Bytes → ℤ → Write

unfoldable pub write : Write → Tables → Tables
write (puts trip ended now key value) t = (put trip ended now key value t).0
write (puts_if trip ended now key value expected) t =
    (put_if_version trip ended now key value expected t).0
write (deletes trip ended now key) t = (delete trip ended now key t).0
write (deletes_if trip ended now key expected) t =
    (delete_if_version trip ended now key expected t).0

unfoldable pub write_all : List Write → Tables → Tables
write_all [] t = t
write_all (w ∷ ws) t = write_all ws (write w t)

version_of_found :
    (k : Bytes) (t : Tables) (p : Product)
    → Maps.get k t.products ≡ some p
    → version_of k t ≡ p.version
version_of_found k t p e = rw e refl

module _ (Q : Tables → Tables → Type 0) (same : (t : Tables) → Q t t)
    (committed : (now : ℕ) (key : Bytes) (p : Product) (t : Tables)
      → version_of key t < p.version
      → Q t (commit now key p t)) where
  abbrev Keeps : Tables → Option (Tables × Option ℕ) → Type 0
  Keeps t none = Unit {0}
  Keeps t (some (t', v)) = Q t t'

  advance-Keeps :
      (now : ℕ) (key : Bytes) (changed : ℕ → Product) (v : ℕ) (t : Tables)
      → ((n : ℕ) → (changed n).version ≡ n)
      → version_of key t ≡ v
      → Keeps t (advance now key changed v t)
  advance-Keeps now key changed v t named e = elim (advance_lem now key changed v t) [
    | inl raised ↦ subst (Keeps t) (sym raised.0) tt
    | inr done ↦
        subst (Keeps t) (sym done)
          (committed now key (changed (suc v)) t (omega (arith, named (suc v), e)))
  ]

  upsert-Keeps :
      (only_deleted : Bool) (now : ℕ) (key value : Bytes) (t : Tables)
      → Keeps t (upsert only_deleted now key value t)
  upsert-Keeps b now key value t = elim (Option-cases (Maps.get key t.products)) [
    | inl e ↦
        subst (Keeps t) (sym (upsert_absent b now key value t e))
          (committed now key (live value 1) t (ground (arith, e)))
    | inr (p, e) ↦ elim (Bool-cases (b && not p.deleted)) [
      | inl blocked ↦ subst (Keeps t) (sym (upsert_blocked b now key value t p e blocked)) (same t)
      | inr free ↦
          subst (Keeps t) (sym (upsert_free b now key value t p e free)) (
            advance-Keeps now key (live value) p.version t (λ n. refl) (version_of_found key t p e))
    ]
  ]

  update_live-Keeps :
      (expected : Option ℕ) (now : ℕ) (key : Bytes) (changed : ℕ → Product) (t : Tables)
      → ((n : ℕ) → (changed n).version ≡ n)
      → Keeps t (update_live expected now key changed t)
  update_live-Keeps x now key changed t named = elim (Option-cases (Maps.get key t.products)) [
    | inl e ↦ subst (Keeps t) (sym (update_live_absent x now key changed t e)) (same t)
    | inr (p, e) ↦ elim (Bool-cases (unfit_for x p)) [
      | inl unfit ↦
          subst (Keeps t) (sym (update_live_blocked x now key changed t p e unfit)) (same t)
      | inr fit ↦
          subst (Keeps t) (sym (update_live_free x now key changed t p e fit))
            (advance-Keeps now key changed p.version t named (version_of_found key t p e))
    ]
  ]

  tables_of_keeps : (t : Tables) (r : Option (Tables × Option ℕ)) → Keeps t r → Q t (tables_of t r)
  tables_of_keeps t none h = same t
  tables_of_keeps t (some (t', v)) h = h

  send_keeps : (trip : Trip) (s : Statement ℕ) (t : Tables) → Keeps t (s t) → Q t (send trip s t).0
  unfolding send
  send_keeps answered s t h = tables_of_keeps t (s t) h
  send_keeps lost_before s t h = same t
  send_keeps lost_after s t h = tables_of_keeps t (s t) h

  mutated_keeps :
      (trip : Trip) (ended : Option Error) (s : Statement ℕ) (t : Tables)
      → Keeps t (s t)
      → Q t (mutated trip ended s t).0
  mutated_keeps trip ended s t h = send_keeps trip s t h

  put_keeps :
      (trip : Trip) (ended : Option Error) (now : ℕ) (key value : Bytes) (t : Tables)
      → Q t (put trip ended now key value t).0
  unfolding put
  put_keeps trip ended now key value t = elim (Option-cases (validate_value key value)) [
    | inr (e, bad) ↦ rw (bad, put) (same t)
    | inl good ↦ rw (good, put) (send_keeps trip _ t (upsert-Keeps false now key value t))
  ]

  delete_keeps :
      (trip : Trip) (ended : Option Error) (now : ℕ) (key : Bytes) (t : Tables)
      → Q t (delete trip ended now key t).0
  unfolding delete
  delete_keeps trip ended now key t = elim (Option-cases (validate_key key)) [
    | inr (e, bad) ↦ rw (bad, delete) (same t)
    | inl good ↦
        rw (good, delete)
          (send_keeps trip _ t (update_live-Keeps none now key tombstone t (λ n. refl)))
  ]

  put_checked_keeps :
      (trip : Trip) (ended : Option Error) (now : ℕ) (key value : Bytes) (expected : ℤ) (t : Tables)
      → Q t (put_checked trip ended now key value expected t).0
  unfolding put_checked
  put_checked_keeps trip ended now key value (negsuc n) t = same t
  put_checked_keeps trip ended now key value (pos zero) t =
      mutated_keeps trip ended (upsert true now key value) t (upsert-Keeps true now key value t)
  put_checked_keeps trip ended now key value (pos (suc n)) t =
      mutated_keeps trip ended (update_live (some (suc n)) now key (live value)) t
        (update_live-Keeps (some (suc n)) now key (live value) t (λ n. refl))

  put_if_version_keeps :
      (trip : Trip) (ended : Option Error) (now : ℕ) (key value : Bytes) (expected : ℤ) (t : Tables)
      → Q t (put_if_version trip ended now key value expected t).0
  unfolding put_if_version
  put_if_version_keeps trip ended now key value expected t =
      elim (Option-cases (validate_value key value)) [
        | inr (e, bad) ↦ rw (bad, put_if_version) (same t)
        | inl good ↦
            rw (good, put_if_version) (put_checked_keeps trip ended now key value expected t)
      ]

  delete_checked_keeps :
      (trip : Trip) (ended : Option Error) (now : ℕ) (key : Bytes) (expected : ℤ) (t : Tables)
      → Q t (delete_checked trip ended now key expected t).0
  unfolding delete_checked
  delete_checked_keeps trip ended now key (negsuc n) t = same t
  delete_checked_keeps trip ended now key (pos zero) t = same t
  delete_checked_keeps trip ended now key (pos (suc n)) t =
      mutated_keeps trip ended (update_live (some (suc n)) now key tombstone) t
        (update_live-Keeps (some (suc n)) now key tombstone t (λ n. refl))

  delete_if_version_keeps :
      (trip : Trip) (ended : Option Error) (now : ℕ) (key : Bytes) (expected : ℤ) (t : Tables)
      → Q t (delete_if_version trip ended now key expected t).0
  unfolding delete_if_version
  delete_if_version_keeps trip ended now key expected t = elim (Option-cases (validate_key key)) [
    | inr (e, bad) ↦ rw (bad, delete_if_version) (same t)
    | inl good ↦ rw (good, delete_if_version) (delete_checked_keeps trip ended now key expected t)
  ]

  pub write_keeps : (w : Write) (t : Tables) → Q t (write w t)
  unfolding write
  write_keeps (puts trip ended now key value) t = put_keeps trip ended now key value t
  write_keeps (puts_if trip ended now key value expected) t =
      put_if_version_keeps trip ended now key value expected t
  write_keeps (deletes trip ended now key) t = delete_keeps trip ended now key t
  write_keeps (deletes_if trip ended now key expected) t =
      delete_if_version_keeps trip ended now key expected t

  pub write_all_keeps :
      ((t t' t'' : Tables) → Q t t' → Q t' t'' → Q t t'')
      → (ws : List Write) (t : Tables) → Q t (write_all ws t)
  unfolding write_all
  write_all_keeps join [] t = same t
  write_all_keeps join (w ∷ ws) t =
      join t (write w t) (write_all ws (write w t)) (write_keeps w t)
        (write_all_keeps join ws (write w t))
