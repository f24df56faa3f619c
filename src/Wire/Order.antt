-- ===== src/Wire/Order.antt =====
-- Laws of loads, stores and the exchange of bytes.
use new_ip_linux.Common.{ℕ, ◌+◌, ◌^◌, ◌<◌, ◌≡◌, ◌≢◌, arith}
use new_ip_linux.Wire.{Mem, u16, load16, store16, swap16}

pub swap16-lt : (v : ℕ) → swap16 v < 2 ^ 16
unfolding swap16
swap16-lt v = omega arith

pub swap16-swap16 : (v : ℕ) → swap16 (swap16 v) ≡ u16 v
unfolding swap16
swap16-swap16 v = omega arith

pub load16-lt : (m : Mem) (o : ℕ) → load16 m o < 2 ^ 16
unfolding load16
load16-lt m o = omega arith

pub load16-store16 : (m : Mem) (o v : ℕ) → load16 (store16 m o v) o ≡ u16 v
unfolding load16 store16
load16-store16 m o v = ground arith

-- A store leaves every other byte.
pub store16_ne : (m : Mem) (o v i : ℕ) → i ≢ o → i ≢ o + 1 → store16 m o v i ≡ m i
unfolding store16
store16_ne m o v i p q = ground arith

-- A store of two bytes leaves a field that it does not overlap.
pub load16-store16_ne :
    (m : Mem) (o v p : ℕ) → p ≢ o → p ≢ o + 1 → p + 1 ≢ o → load16 (store16 m o v) p ≡ load16 m p
unfolding load16 store16
load16-store16_ne m o v p a b c = ground arith

pub ruleset order_laws = (swap16-lt, swap16-swap16, load16-lt, load16-store16)
