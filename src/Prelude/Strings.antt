-- ===== src/Prelude/Strings.antt =====
-- Go strings and byte slices: lists of bytes, with their equality decided.
use Prim.Native.Nat.{ℕ}
use mathlib.Core.List.{List, [], ◌∷◌}
use mathlib.Core.Path.{◌≡◌, refl, ap₂}
use native.Mathlib.Decide.{ℕ_discrete}

abbrev pub Bytes : Type 0
Bytes = List ℕ

-- Both heads and both tails agree, or the lists differ.
both : {x y : ℕ} {xs ys : Bytes} → Dec (x ≡ y) → Dec (xs ≡ ys) → Dec (x ∷ xs ≡ y ∷ ys)
both (yes p) (yes q) = yes (ap₂ ◌∷◌ p q)
both (yes p) (no q) = no (λ e. q (cc))
both (no p) _ = no (λ e. p (cc))

unfoldable pub Bytes-discrete : (xs ys : Bytes) → Dec (xs ≡ ys)
unfolding ℕ_discrete both
Bytes-discrete [] [] = yes refl
Bytes-discrete [] (y ∷ ys) = no (λ e. cc)
Bytes-discrete (x ∷ xs) [] = no (λ e. cc)
Bytes-discrete (x ∷ xs) (y ∷ ys) = both (ℕ_discrete x y) (Bytes-discrete xs ys)
