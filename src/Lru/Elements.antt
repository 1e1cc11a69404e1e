-- ===== src/Lru/Elements.antt =====
-- container/list as internal/cache/lru uses it: identified elements, front first. An identity
-- stands for the `*list.Element` that the index and the cursor hold.
use simple_cache.Prelude.{
  ℕ, suc, ◌≤◌, ◌<◌, ◌≡◌, refl, ◌≢◌, ite, List, [], ◌∷◌, Option, none, some, Bytes, Bytes-discrete,
  ℕ_discrete, length, arith,
}

-- lru.go `entry`, under the identity of its element. A zero `expire_at` disables expiration.
pub record Element (V : Type 0) : Type 0 where
  pub id : ℕ
  pub key : Bytes
  pub value : V
  pub expire_at : ℕ

module _ {V : Type 0} where
  -- The element that a pointer names.
  unfoldable pub find_id : ℕ → List (Element V) → Option (Element V)
  find_id i [] = none
  find_id i (x ∷ l) = ite (ℕ_discrete x.id i) (some x) (find_id i l)

  -- ll.Remove(e)
  unfoldable pub remove_id : ℕ → List (Element V) → List (Element V)
  remove_id i [] = []
  remove_id i (x ∷ l) = ite (ℕ_discrete x.id i) l (x ∷ remove_id i l)

  -- ll.Back()
  unfoldable pub back : List (Element V) → Option (Element V)
  back [] = none
  back (x ∷ []) = some x
  back (x ∷ y ∷ l) = back (y ∷ l)

  -- e.Prev()
  unfoldable pub prev : ℕ → List (Element V) → Option ℕ
  prev i [] = none
  prev i (x ∷ []) = none
  prev i (x ∷ y ∷ l) =
      ite (ℕ_discrete x.id i) none (ite (ℕ_discrete y.id i) (some x.id) (prev i (y ∷ l)))

  -- The first element with a key: what the index is meant to find.
  unfoldable pub find_key : Bytes → List (Element V) → Option (Element V)
  find_key k [] = none
  find_key k (x ∷ l) = ite (Bytes-discrete x.key k) (some x) (find_key k l)

  -- No two elements share an identity, and all are below the next one.
  abbrev pub IdsDistinct : ℕ → List (Element V) → Type 0
  IdsDistinct n [] = Unit {0}
  IdsDistinct n (x ∷ l) = (x.id < n) × (find_id x.id l ≡ none) × IdsDistinct n l

  abbrev pub KeysDistinct : List (Element V) → Type 0
  KeysDistinct [] = Unit {0}
  KeysDistinct (x ∷ l) = (find_key x.key l ≡ none) × KeysDistinct l

  pub find_id-remove_ne :
      (i j : ℕ) (l : List (Element V)) → i ≢ j → find_id j (remove_id i l) ≡ find_id j l
  unfolding find_id remove_id
  find_id-remove_ne i j [] h = refl
  find_id-remove_ne i j (x ∷ l) h = ground (arith, find_id-remove_ne i j l h)

  pub find_id-remove_self :
      (i n : ℕ) (l : List (Element V)) → IdsDistinct n l → find_id i (remove_id i l) ≡ none
  unfolding find_id remove_id
  find_id-remove_self i n [] h = refl
  find_id-remove_self i n (x ∷ l) h = ground (arith, find_id-remove_self i n l h.2)

  pub find_id-id : (i : ℕ) (l : List (Element V)) (x : Element V) → find_id i l ≡ some x → x.id ≡ i
  unfolding find_id
  find_id-id i [] x h = cc
  find_id-id i (y ∷ l) x h = ground (arith, find_id-id i l x)

  pub find_key-key :
      (k : Bytes) (l : List (Element V)) (x : Element V) → find_key k l ≡ some x → x.key ≡ k
  unfolding find_key
  find_key-key k [] x h = cc
  find_key-key k (y ∷ l) x h = ground (arith, find_key-key k l x)

  -- Looking up by key and then by identity comes back to the element.
  pub find_id-find_key :
      (k : Bytes) (n : ℕ) (l : List (Element V)) (x : Element V)
      → IdsDistinct n l
      → find_key k l ≡ some x
      → find_id x.id l ≡ some x
  unfolding find_id find_key
  find_id-find_key k n [] x d h = cc
  find_id-find_key k n (y ∷ l) x d h = ground (arith, find_id-find_key k n l x d.2)

  -- And the other way round, with no key twice.
  pub find_key-find_id :
      (i : ℕ) (l : List (Element V)) (x : Element V)
      → KeysDistinct l
      → find_id i l ≡ some x
      → find_key x.key l ≡ some x
  unfolding find_id find_key
  find_key-find_id i [] x d h = cc
  find_key-find_id i (y ∷ l) x d h = ground (arith, find_key-find_id i l x d.1)

  pub remove_id-IdsDistinct :
      (i n : ℕ) (l : List (Element V)) → IdsDistinct n l → IdsDistinct n (remove_id i l)
  unfolding remove_id find_id
  remove_id-IdsDistinct i n [] d = tt
  remove_id-IdsDistinct i n (x ∷ l) d =
      ground (arith, remove_id-IdsDistinct i n l d.2, find_id-remove_ne i x.id l)

  -- Removing one element leaves the lookup of every other key.
  pub find_key-remove_ne :
      (i : ℕ) (k : Bytes) (l : List (Element V)) (x : Element V)
      → find_id i l ≡ some x
      → x.key ≢ k
      → find_key k (remove_id i l) ≡ find_key k l
  unfolding find_id remove_id find_key
  find_key-remove_ne i k [] x h ne = refl
  find_key-remove_ne i k (y ∷ l) x h ne = ground (arith, find_key-remove_ne i k l x)

  find_key-remove_none :
      (i : ℕ) (k : Bytes) (l : List (Element V))
      → find_key k l ≡ none
      → find_key k (remove_id i l) ≡ none
  unfolding remove_id find_key
  find_key-remove_none i k [] h = refl
  find_key-remove_none i k (y ∷ l) h = ground (arith, find_key-remove_none i k l)

  pub find_key-remove_self :
      (i : ℕ) (l : List (Element V)) (x : Element V)
      → KeysDistinct l
      → find_id i l ≡ some x
      → find_key x.key (remove_id i l) ≡ none
  unfolding find_id remove_id find_key
  find_key-remove_self i [] x d h = refl
  find_key-remove_self i (y ∷ l) x d h =
      ground (arith, find_key-remove_self i l x d.1, find_key-find_id i l x d.1)

  pub remove_id-KeysDistinct :
      (i : ℕ) (l : List (Element V)) → KeysDistinct l → KeysDistinct (remove_id i l)
  unfolding remove_id find_key
  remove_id-KeysDistinct i [] d = tt
  remove_id-KeysDistinct i (x ∷ l) d =
      ground (arith, remove_id-KeysDistinct i l d.1, find_key-remove_none i x.key l)

  pub find_id_fresh :
      (n i : ℕ) (l : List (Element V)) → IdsDistinct n l → n ≤ i → find_id i l ≡ none
  unfolding find_id
  find_id_fresh n i [] d h = refl
  find_id_fresh n i (x ∷ l) d h = ground (arith, find_id_fresh n i l d.2)

  pub IdsDistinct-suc : (n : ℕ) (l : List (Element V)) → IdsDistinct n l → IdsDistinct (suc n) l
  IdsDistinct-suc n [] d = tt
  IdsDistinct-suc n (x ∷ l) d = (omega arith, d.1, IdsDistinct-suc n l d.2)

  pub find_id-lt :
      (n i : ℕ) (l : List (Element V)) (x : Element V)
      → IdsDistinct n l
      → find_id i l ≡ some x
      → i < n
  unfolding find_id
  find_id-lt n i [] x d h = cc
  find_id-lt n i (y ∷ l) x d h = ground (arith, find_id-lt n i l x d.2)

  pub find_id-back :
      (n : ℕ) (l : List (Element V)) (x : Element V)
      → IdsDistinct n l
      → back l ≡ some x
      → find_id x.id l ≡ some x
  unfolding find_id back
  find_id-back n [] x d h = cc
  find_id-back n (y ∷ []) x d h = ground arith
  find_id-back n (y ∷ z ∷ l) x d h = ground (arith, find_id-back n (z ∷ l) x d.2)

  -- The element before one that goes is another one, and stays.
  pub prev-find_id :
      (n i j : ℕ) (l : List (Element V))
      → IdsDistinct n l
      → prev i l ≡ some j
      → find_id j (remove_id i l) ≢ none
  unfolding find_id remove_id prev
  prev-find_id n i j [] d h = cc
  prev-find_id n i j (x ∷ []) d h = cc
  prev-find_id n i j (x ∷ y ∷ l) d h = ground (arith, prev-find_id n i j (y ∷ l) d.2)

  pub prev-find_id_in : (i j : ℕ) (l : List (Element V)) → prev i l ≡ some j → find_id j l ≢ none
  unfolding find_id prev
  prev-find_id_in i j [] h = cc
  prev-find_id_in i j (x ∷ []) h = cc
  prev-find_id_in i j (x ∷ y ∷ l) h = ground (arith, prev-find_id_in i j (y ∷ l))

  pub length-remove_id :
      (i : ℕ) (l : List (Element V)) (x : Element V)
      → find_id i l ≡ some x
      → suc (length (remove_id i l)) ≡ length l
  unfolding find_id remove_id
  length-remove_id i [] x h = cc
  length-remove_id i (y ∷ l) x h = ground (arith, length-remove_id i l x)
