-- ===== src/Store/Queue/Rows.antt =====
-- outbox.go: what the statements keep of every row.
use simple_cache.Prelude.{
  ℕ, zero, suc, ◌≡◌, refl, subst, ap, ◌∙◌, ◌≢◌, ◌⊎◌, inl, inr, Bool, true, false, some, List, [],
  ◌∷◌, ◌==◌, Option-cases, Bool-cases, arith,
}
use simple_cache.Store.{Message}
use simple_cache.Store.Queue.{
  count_where, first_by, update_where, delete_id, purge_rows, delivered_sooner,
}

unfoldable pub AllRows : (Message → Type 0) → List Message → Type 0
AllRows P [] = Unit
AllRows P (m ∷ l) = P m × AllRows P l

-- A row with the identity `i`.
unfoldable pub HasId : ℕ → List Message → Type 0
HasId i [] = ⊥
HasId i (m ∷ l) = (m.id ≡ i) ⊎ HasId i l

pub first_by-AllRows :
    (P : Message → Type 0) (before : Message → Message → Bool) (fits : Message → Bool)
    (l : List Message) (m : Message)
    → AllRows P l
    → first_by before fits l ≡ some m
    → P m
unfolding AllRows first_by
first_by-AllRows P before fits [] m h e = cc
first_by-AllRows P before fits (x ∷ l) m (p, h) e = elim (Bool-cases (fits x)) [
  | inr unfit ↦ first_by-AllRows P before fits l m h (ground (arith, e))
  | inl fit ↦ elim (Option-cases (first_by before fits l)) [
    | inl nothing ↦ subst P (ground (arith, e)) p
    | inr (r, found) ↦ elim (Bool-cases (before r x)) [
      | inl sooner ↦ first_by-AllRows P before fits l m h (ground (arith, e))
      | inr later ↦ subst P (ground (arith, e)) p
    ]
  ]
]

pub first_by_fits :
    (before : Message → Message → Bool) (fits : Message → Bool) (l : List Message) (m : Message)
    → first_by before fits l ≡ some m
    → fits m ≡ true
unfolding first_by
first_by_fits before fits [] m e = cc
first_by_fits before fits (x ∷ l) m e = elim (Bool-cases (fits x)) [
  | inr unfit ↦ first_by_fits before fits l m (ground (arith, e))
  | inl fit ↦ elim (Option-cases (first_by before fits l)) [
    | inl nothing ↦ ground (arith, e)
    | inr (r, found) ↦ elim (Bool-cases (before r x)) [
      | inl sooner ↦ first_by_fits before fits l m (ground (arith, e))
      | inr later ↦ ground (arith, e)
    ]
  ]
]

module _ (P : Message → Type 0) where
  pub update_where-AllRows :
      (fits : Message → Bool) (change : Message → Message) (l : List Message)
      → ((m : Message) → fits m ≡ true → P m → P (change m))
      → AllRows P l
      → AllRows P (update_where fits change l)
  unfolding AllRows update_where
  update_where-AllRows fits change [] ok h = tt
  update_where-AllRows fits change (m ∷ l) ok (p, h) = elim (Bool-cases (fits m)) [
    | inl fit ↦ (rw fit (ok m fit p), update_where-AllRows fits change l ok h)
    | inr unfit ↦ (rw unfit p, update_where-AllRows fits change l ok h)
  ]

  pub delete_id-AllRows : (i : ℕ) (l : List Message) → AllRows P l → AllRows P (delete_id i l)
  unfolding AllRows delete_id
  delete_id-AllRows i [] h = tt
  delete_id-AllRows i (m ∷ l) (p, h) = elim (Bool-cases (m.id == i)) [
    | inl same ↦ rw same (delete_id-AllRows i l h)
    | inr differ ↦ rw differ (p, delete_id-AllRows i l h)
  ]

  pub purge_rows-AllRows :
      (fits : Message → Bool) (limit : ℕ) (l : List Message)
      → AllRows P l
      → AllRows P (purge_rows fits limit l).0
  unfolding purge_rows
  purge_rows-AllRows fits zero l h = h
  purge_rows-AllRows fits (suc limit) l h = elim (Option-cases (first_by delivered_sooner fits l)) [
    | inl nothing ↦ rw (nothing, purge_rows) h
    | inr (m, found) ↦
        rw (found, purge_rows)
          (purge_rows-AllRows fits limit (delete_id m.id l) (delete_id-AllRows m.id l h))
  ]

pub update_where-HasId :
    (i : ℕ) (fits : Message → Bool) (change : Message → Message) (l : List Message)
    → ((m : Message) → (change m).id ≡ m.id)
    → HasId i l
    → HasId i (update_where fits change l)
unfolding HasId update_where
update_where-HasId i fits change [] same h = h
update_where-HasId i fits change (m ∷ l) same (inl e) = elim (Bool-cases (fits m)) [
  | inl fit ↦ rw fit (inl (same m ∙ e))
  | inr unfit ↦ rw unfit (inl e)
]
update_where-HasId i fits change (m ∷ l) same (inr h) =
    inr (update_where-HasId i fits change l same h)

pub delete_id-HasId : (i j : ℕ) (l : List Message) → j ≢ i → HasId i l → HasId i (delete_id j l)
unfolding HasId delete_id
delete_id-HasId i j [] other h = h
delete_id-HasId i j (m ∷ l) other (inl e) =
    let differ : (m.id == j) ≡ false = ground (arith, e, other) in rw (differ, delete_id) (inl e)
delete_id-HasId i j (m ∷ l) other (inr h) = elim (Bool-cases (m.id == j)) [
  | inl same ↦ rw same (delete_id-HasId i j l other h)
  | inr differ ↦ rw differ (inr (delete_id-HasId i j l other h))
]

-- A row that does not fit is not purged.
pub purge_rows-HasId :
    (i : ℕ) (fits : Message → Bool) (limit : ℕ) (l : List Message)
    → AllRows (λ m. m.id ≡ i → fits m ≡ false) l
    → HasId i l
    → HasId i (purge_rows fits limit l).0
unfolding purge_rows
purge_rows-HasId i fits zero l kept h = h
purge_rows-HasId i fits (suc limit) l kept h =
    elim (Option-cases (first_by delivered_sooner fits l)) [
      | inl nothing ↦ rw (nothing, purge_rows) h
      | inr (m, found) ↦
          let spared =
            first_by-AllRows (λ r. r.id ≡ i → fits r ≡ false) delivered_sooner fits l m kept
              found in
          rw (found, purge_rows)
            (purge_rows-HasId i fits limit (delete_id m.id l)
              (delete_id-AllRows (λ r. r.id ≡ i → fits r ≡ false) m.id l kept)
              (delete_id-HasId i m.id l
                (λ e. ground (arith, spared e, first_by_fits delivered_sooner fits l m found)) h))
    ]

pub AllRows-map :
    (P Q : Message → Type 0) (l : List Message)
    → ((m : Message) → P m → Q m)
    → AllRows P l
    → AllRows Q l
unfolding AllRows
AllRows-map P Q [] f h = tt
AllRows-map P Q (m ∷ l) f (p, h) = (f m p, AllRows-map P Q l f h)

pub update_where_reaches :
    (Q : Message → Type 0) (fits : Message → Bool) (change : Message → Message) (l : List Message)
    → ((m : Message) → fits m ≡ true → Q (change m))
    → ((m : Message) → fits m ≡ false → Q m)
    → AllRows Q (update_where fits change l)
unfolding AllRows update_where
update_where_reaches Q fits change [] f g = tt
update_where_reaches Q fits change (m ∷ l) f g = elim (Bool-cases (fits m)) [
  | inl fit ↦ (rw fit (f m fit), update_where_reaches Q fits change l f g)
  | inr unfit ↦ (rw unfit (g m unfit), update_where_reaches Q fits change l f g)
]

pub update_where_none :
    (fits : Message → Bool) (change : Message → Message) (l : List Message)
    → AllRows (λ m. fits m ≡ false) l
    → update_where fits change l ≡ l
unfolding AllRows update_where
update_where_none fits change [] h = refl
update_where_none fits change (m ∷ l) (unfit, h) =
    rw unfit (ap (λ r. m ∷ r) (update_where_none fits change l h))

pub count_where_none :
    (fits : Message → Bool) (l : List Message)
    → AllRows (λ m. fits m ≡ false) l
    → count_where fits l ≡ 0
unfolding AllRows count_where
count_where_none fits [] h = refl
count_where_none fits (m ∷ l) (unfit, h) = ground (arith, unfit, count_where_none fits l h)
