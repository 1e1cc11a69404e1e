-- ===== src/Store/Generations.antt =====
-- postgres.go: the generation of a key, what a reader sees of it, and what a conditional statement does.
use simple_cache.Prelude.{
  ℕ, zero, suc, ◌^◌, ◌≤◌, ◌≡◌, refl, sym, subst, ◌⊎◌, inl, inr, true, Option, none, some, Bytes,
  if◌then◌else◌, Option-cases, Bool-cases, arith,
}
use simple_cache.Prelude.Maps
use simple_cache.Prelude.Maps.{get-put}
use simple_cache.Store.Statements.{
  advance_lem, upsert_blocked, upsert_free, unfit_for, update_live_absent, update_live_blocked,
  update_live_free,
}
use simple_cache.Store.{Product, Tables, commit, advance, live, upsert, update_live}

abbrev version_in : Option Product → ℕ
version_in none = 0
version_in (some p) = p.version

-- The generation of a key, deleted or not; zero before the first.
abbrev pub version_of : Bytes → Tables → ℕ
version_of k t = version_in (Maps.get k t.products)

abbrev live_in : Option Product → Option ℕ
live_in none = none
live_in (some p) = if p.deleted then none else some p.version

-- The version that a reader sees.
abbrev pub live_at : Bytes → Tables → Option ℕ
live_at k t = live_in (Maps.get k t.products)

-- A statement on `key` that changes the row to `changed` where `Fits` holds: it raises an error on a row
-- that fits, past the range of the generations; it finds no row that fits; or it commits the next
-- generation.
abbrev pub Ran : ℕ → Bytes → (ℕ → Product) → Type 0 → Tables → Option (Tables × Option ℕ) → Type 0
Ran now key changed Fits t r =
    ((r ≡ none) × (2 ^ 63 ≤ suc (version_of key t)) × Fits)
    ⊎ (((r ≡ some (t, none)) × (Fits → ⊥))
        ⊎ ((r
              ≡ some (
                commit now key (changed (suc (version_of key t))) t,
                some (suc (version_of key t)),
              ))
            × Fits))

advanced-Ran :
    (now : ℕ) (key : Bytes) (changed : ℕ → Product) (Fits : Type 0) (t : Tables) (p : Product)
    → Maps.get key t.products ≡ some p
    → Fits
    → Ran now key changed Fits t (advance now key changed p.version t)
advanced-Ran now key changed Fits t p e fits = elim (advance_lem now key changed p.version t) [
  | inl (raised, big) ↦ inl (raised, rw e big, fits)
  | inr done ↦ inr (inr (rw e done, fits))
]

-- The condition of PutIfVersion on what a reader sees.
abbrev pub Matches : ℕ → Bytes → Tables → Type 0
Matches zero k t = live_at k t ≡ none
Matches (suc n) k t = live_at k t ≡ some (suc n)

live_at_of :
    (k : Bytes) (t : Tables) (p : Product)
    → Maps.get k t.products ≡ some p
    → live_at k t ≡ (if p.deleted then none else some p.version)
live_at_of k t p e = rw e refl

pub upsert-Ran :
    (now : ℕ) (key value : Bytes) (t : Tables)
    → Ran now key (live value) (Matches 0 key t) t (upsert true now key value t)
unfolding upsert
upsert-Ran now key value t = elim (Option-cases (Maps.get key t.products)) [
  | inl e ↦ inr (inr (rw (e, upsert) refl, rw e refl))
  | inr (p, e) ↦
      let seen = live_at_of key t p e in
      elim (Bool-cases p.deleted) [
        | inl gone ↦
            subst (Ran now key (live value) (Matches 0 key t) t)
              (sym (upsert_free true now key value t p e (ground arith)))
              (advanced-Ran now key (live value) (Matches 0 key t) t p e (ground (arith, seen)))
        | inr there ↦ inr (
            inl (
              upsert_blocked true now key value t p e (ground arith),
              λ h. ground (arith, seen, h),
            ))
      ]
]

pub update_live-Ran :
    (expected now : ℕ) (key : Bytes) (changed : ℕ → Product) (t : Tables)
    → Ran now key changed
        (Matches (suc expected) key t)
        t
        (update_live (some (suc expected)) now key changed t)
update_live-Ran expected now key changed t = elim (Option-cases (Maps.get key t.products)) [
  | inl e ↦
      inr
        (inl (update_live_absent (some (suc expected)) now key changed t e, λ h. ground (arith, e)))
  | inr (p, e) ↦
      let seen = live_at_of key t p e in
      elim (Bool-cases (unfit_for (some (suc expected)) p)) [
        | inl unfit ↦ inr (
            inl (
              update_live_blocked (some (suc expected)) now key changed t p e unfit,
              λ h. ground (arith, seen, h),
            ))
        | inr same ↦
            subst (Ran now key changed (Matches (suc expected) key t) t)
              (sym (update_live_free (some (suc expected)) now key changed t p e same))
              (advanced-Ran now key changed (Matches (suc expected) key t) t p e
                (ground (arith, seen)))
      ]
]
