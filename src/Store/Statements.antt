-- ===== src/Store/Statements.antt =====
-- postgres.go: the statements on the products, one branch at a time.
use simple_cache.Prelude.{
  ℕ, suc, ◌^◌, ◌≤◌, ◌≡◌, refl, ◌⊎◌, inl, inr, Bool, true, false, not, ◌&&◌, ◌||◌, Option, none,
  some, Bytes, ltb, ◌==◌, Bool-cases, arith,
}
use simple_cache.Prelude.Maps
use simple_cache.Store.{Product, Tables, commit, next_version, advance, live, upsert, update_live}

pub advance_lem :
    (now : ℕ) (key : Bytes) (changed : ℕ → Product) (v : ℕ) (t : Tables)
    → ((advance now key changed v t ≡ none) × (2 ^ 63 ≤ suc v))
      ⊎ (advance now key changed v t ≡ some (commit now key (changed (suc v)) t, some (suc v)))
unfolding advance next_version
advance_lem now key changed v t = elim (Bool-cases (ltb (suc v) (2 ^ 63))) [
  | inl small ↦ inr (rw (small, advance) refl)
  | inr big ↦ inl (rw (big, advance) refl, ground (arith, big))
]

module _ (only_deleted : Bool) (now : ℕ) (key value : Bytes) (t : Tables) where
  pub upsert_absent :
      Maps.get key t.products ≡ none
      → upsert only_deleted now key value t ≡ some (commit now key (live value 1) t, some 1)
  unfolding upsert
  upsert_absent e = rw (e, upsert) refl

  pub upsert_blocked :
      (p : Product)
      → Maps.get key t.products ≡ some p
      → (only_deleted && not p.deleted) ≡ true
      → upsert only_deleted now key value t ≡ some (t, none)
  unfolding upsert
  upsert_blocked p e h = rw (e, upsert, h) refl

  pub upsert_free :
      (p : Product)
      → Maps.get key t.products ≡ some p
      → (only_deleted && not p.deleted) ≡ false
      → upsert only_deleted now key value t ≡ advance now key (live value) p.version t
  unfolding upsert
  upsert_free p e h = rw (e, upsert, h) refl

abbrev pub unfit_for : Option ℕ → Product → Bool
unfit_for expected p = p.deleted || elim expected [ none ↦ false | some v ↦ not (p.version == v) ]

module _ (expected : Option ℕ) (now : ℕ) (key : Bytes) (changed : ℕ → Product) (t : Tables) where
  pub update_live_absent :
      Maps.get key t.products ≡ none → update_live expected now key changed t ≡ some (t, none)
  unfolding update_live
  update_live_absent e = rw (e, update_live) refl

  pub update_live_blocked :
      (p : Product)
      → Maps.get key t.products ≡ some p
      → unfit_for expected p ≡ true
      → update_live expected now key changed t ≡ some (t, none)
  unfolding update_live
  update_live_blocked p e h = rw (e, update_live, h) refl

  pub update_live_free :
      (p : Product)
      → Maps.get key t.products ≡ some p
      → unfit_for expected p ≡ false
      → update_live expected now key changed t ≡ advance now key changed p.version t
  unfolding update_live
  update_live_free p e h = rw (e, update_live, h) refl
