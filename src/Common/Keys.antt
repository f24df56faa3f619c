-- ===== src/Common/Keys.antt =====
-- The keys of an association list over the native numbers.
use Prim.Native.Nat.{ℕ}
use mathlib.Core.Path.{◌≡◌}
use mathlib.Core.Bool.{Bool, true, false, ◌||◌}
use mathlib.Core.List.{List, [], ◌∷◌}
use new_ip_linux.Common.Tests.{◌==◌}

module _ {ℓ} {A : Type ℓ} where
  infix 40 ◌∈◌ ◌∉◌
  abbrev pub is_key : ℕ → List (ℕ × A) → Bool
  is_key k [] = false
  is_key k (x ∷ xs) = (k == x.0) || is_key k xs

  abbrev pub ◌∈◌ : ℕ → List (ℕ × A) → Type 0
  k ∈ xs = is_key k xs ≡ true

  abbrev pub ◌∉◌ : ℕ → List (ℕ × A) → Type 0
  k ∉ xs = is_key k xs ≡ false
