-- ===== src/Common/Bits.antt =====
-- Laws of `bit_and` and `bit_or` at variables, one binary digit at a time.
use Prim.Native.Nat.{
  ℕ, zero, suc, ◌+◌, ◌*◌, ◌/◌, ◌%◌, ◌≤◌, min, max, bit_and, bit_or, digits, bit_and-bitwise,
  bit_or-bitwise,
}
use mathlib.Core.Path.{◌≡◌, refl}
use native.Mathlib.Omega.{arith}

-- Once the count of digits covers the first number, a larger one changes nothing.
digits-fuel :
    (z : ℕ → ℕ) (f : ℕ → ℕ → ℕ) (count more x y : ℕ)
    → x ≤ count
    → x ≤ more
    → digits z f count x y ≡ digits z f more x y
digits-fuel z f zero zero x y p q = refl
digits-fuel z f zero (suc more) zero y p q = refl
digits-fuel z f (suc count) zero zero y p q = refl
digits-fuel z f (suc count) (suc more) zero y p q = refl
digits-fuel z f zero (suc more) (suc x) y p q = absurd (omega arith)
digits-fuel z f (suc count) zero (suc x) y p q = absurd (omega arith)
digits-fuel z f (suc count) (suc more) (suc x) y p q =
    omega (arith, digits-fuel z f count more (suc x / 2) (y / 2) (omega arith) (omega arith))

zero-bit_and : (y : ℕ) → bit_and 0 y ≡ 0
zero-bit_and y = bit_and-bitwise 0 y

zero-bit_or : (y : ℕ) → bit_or 0 y ≡ y
zero-bit_or y = bit_or-bitwise 0 y

pub bit_and-digit : (x y : ℕ) → bit_and x y ≡ bit_and (x / 2) (y / 2) * 2 + min (x % 2) (y % 2)
bit_and-digit zero y = omega (arith, zero-bit_and y, zero-bit_and (y / 2))
bit_and-digit (suc x) y = omega (
  arith,
  bit_and-bitwise (suc x) y,
  bit_and-bitwise (suc x / 2) (y / 2),
  digits-fuel (λ _. zero) min x (suc x / 2) (suc x / 2) (y / 2) (omega arith) (omega arith),
)

pub bit_or-digit : (x y : ℕ) → bit_or x y ≡ bit_or (x / 2) (y / 2) * 2 + max (x % 2) (y % 2)
bit_or-digit zero y = omega (arith, zero-bit_or y, zero-bit_or (y / 2))
bit_or-digit (suc x) y = omega (
  arith,
  bit_or-bitwise (suc x) y,
  bit_or-bitwise (suc x / 2) (y / 2),
  digits-fuel (λ d. d) max x (suc x / 2) (suc x / 2) (y / 2) (omega arith) (omega arith),
)

bit_or-zero_below : (count x : ℕ) → x ≤ count → bit_or x 0 ≡ x
bit_or-zero_below count zero h = zero-bit_or 0
bit_or-zero_below zero (suc x) h = absurd (omega arith)
bit_or-zero_below (suc count) (suc x) h =
    omega (arith, bit_or-digit (suc x) 0, bit_or-zero_below count (suc x / 2) (omega arith))

pub bit_or-zero : (x : ℕ) → bit_or x 0 ≡ x
bit_or-zero x = bit_or-zero_below x x (omega arith)
