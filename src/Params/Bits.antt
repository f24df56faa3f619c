-- ===== src/Params/Bits.antt =====
-- The bits of the XDP flags after each change that the options make.
use new_ip_linux.Common.{ℕ, ◌+◌, ◌*◌, ◌/◌, ◌%◌, ◌≡◌, arith, bit_and}
use new_ip_linux.Common.Bits.{bit_and-digit, bit_or-digit, bit_or-zero}
use new_ip_linux.Params.{clear_modes, set_mode, clear_noexist}

-- The bits 1 to 3 of the flags, the modes, and bit 0.
abbrev pub modes_of : ℕ → ℕ
modes_of flags = flags / 2 % 8

abbrev pub noexist_of : ℕ → ℕ
noexist_of flags = flags % 2

clear_modes-digits : (x : ℕ) → clear_modes x ≡ 16 * bit_and (x / 2 / 2 / 2 / 2) 268435455 + x % 2
unfolding clear_modes
clear_modes-digits x = omega (
  arith,
  bit_and-digit x 4294967281,
  bit_and-digit (x / 2) 2147483640,
  bit_and-digit (x / 2 / 2) 1073741820,
  bit_and-digit (x / 2 / 2 / 2) 536870910,
)

pub clear_modes-bits :
    (x : ℕ) → (modes_of (clear_modes x) ≡ 0) × (noexist_of (clear_modes x) ≡ noexist_of x)
clear_modes-bits x = (omega (arith, clear_modes-digits x), omega (arith, clear_modes-digits x))

pub set_mode-skb :
    (x : ℕ) → (modes_of (set_mode 2 x) ≡ 1) × (noexist_of (set_mode 2 x) ≡ noexist_of x)
unfolding set_mode
set_mode-skb x =
    let e = bit_or-digit (clear_modes x) 2 in
    let e₁ = bit_or-digit (clear_modes x / 2) 1 in
    let e₂ = bit_or-zero (clear_modes x / 2 / 2) in
    let d = clear_modes-digits x in (omega (arith, e, e₁, e₂, d), omega (arith, e, e₁, e₂, d))

pub set_mode-drv :
    (x : ℕ) → (modes_of (set_mode 4 x) ≡ 2) × (noexist_of (set_mode 4 x) ≡ noexist_of x)
unfolding set_mode
set_mode-drv x =
    let e = bit_or-digit (clear_modes x) 4 in
    let e₁ = bit_or-digit (clear_modes x / 2) 2 in
    let e₂ = bit_or-digit (clear_modes x / 2 / 2) 1 in
    let e₃ = bit_or-zero (clear_modes x / 2 / 2 / 2) in
    let d = clear_modes-digits x in
    (omega (arith, e, e₁, e₂, e₃, d), omega (arith, e, e₁, e₂, e₃, d))

pub set_mode-hw :
    (x : ℕ) → (modes_of (set_mode 8 x) ≡ 4) × (noexist_of (set_mode 8 x) ≡ noexist_of x)
unfolding set_mode
set_mode-hw x =
    let e = bit_or-digit (clear_modes x) 8 in
    let e₁ = bit_or-digit (clear_modes x / 2) 4 in
    let e₂ = bit_or-digit (clear_modes x / 2 / 2) 2 in
    let e₃ = bit_or-digit (clear_modes x / 2 / 2 / 2) 1 in
    let e₄ = bit_or-zero (clear_modes x / 2 / 2 / 2 / 2) in
    let d = clear_modes-digits x in
    (omega (arith, e, e₁, e₂, e₃, e₄, d), omega (arith, e, e₁, e₂, e₃, e₄, d))

low_bits : (y : ℕ) → bit_and y 2147483647 % 8 ≡ y % 8
low_bits y = omega (
  arith,
  bit_and-digit y 2147483647,
  bit_and-digit (y / 2) 1073741823,
  bit_and-digit (y / 2 / 2) 536870911,
)

pub clear_noexist-bits :
    (x : ℕ) → (modes_of (clear_noexist x) ≡ modes_of x) × (noexist_of (clear_noexist x) ≡ 0)
unfolding clear_noexist
clear_noexist-bits x =
    let e = bit_and-digit x 4294967294 in (omega (arith, e, low_bits (x / 2)), omega (arith, e))
