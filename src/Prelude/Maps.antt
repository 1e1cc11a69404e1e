-- ===== src/Prelude/Maps.antt =====
-- Go maps with string keys, as association lists: a write shadows, a delete drops every entry.
use mathlib.Core.List.{List, [], ◌∷◌}
use mathlib.Core.Logic.{ite}
use mathlib.Core.Option.{Option, none, some}
use mathlib.Core.Path.{◌≡◌, refl}
use native.Mathlib.Omega.{arith}
use simple_cache.Prelude.Strings.{Bytes, Bytes-discrete}

abbrev pub StringMap {ℓ} : Type ℓ → Type ℓ
StringMap V = List (Bytes × V)

module _ {ℓ} {V : Type ℓ} where
  -- m[key]
  unfoldable pub get : Bytes → StringMap V → Option V
  get k [] = none
  get k ((j, v) ∷ m) = ite (Bytes-discrete j k) (some v) (get k m)

  -- delete(m, key)
  unfoldable pub delete : Bytes → StringMap V → StringMap V
  delete k [] = []
  delete k ((j, v) ∷ m) = let rest = delete k m in ite (Bytes-discrete j k) rest ((j, v) ∷ rest)

  -- m[key] = v
  unfoldable pub put : Bytes → V → StringMap V → StringMap V
  unfolding delete
  put k v m = (k, v) ∷ delete k m

  pub get-delete :
      (k j : Bytes) (m : StringMap V) → get j (delete k m) ≡ ite (Bytes-discrete k j) none (get j m)
  unfolding get delete
  get-delete k j [] = ground arith
  get-delete k j ((i, v) ∷ m) = ground (arith, get-delete k j m)

  pub get-put :
      (k j : Bytes) (v : V) (m : StringMap V)
      → get j (put k v m) ≡ ite (Bytes-discrete k j) (some v) (get j m)
  unfolding get put
  get-put k j v m = ground (arith, get-delete k j m)

  pub get-empty : (k : Bytes) → get k [] ≡ none
  unfolding get
  get-empty k = refl
