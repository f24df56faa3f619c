-- ===== src/Parsing/Reads.antt =====
-- Reads that are checked against the end of the data.
use new_ip_linux.Common.{ℕ, ◌+◌, ◌<◌, ◌≡◌, Option, none, some, arith, ltb, if◌then◌else◌}
use new_ip_linux.Wire.{Mem, load8, load16}

pub record Data : Type 0 where
  pub bytes : Mem
  pub len : ℕ

abbrev pub and_then : {A B : Type 0} → Option A → (A → Option B) → Option B
and_then none k = none
and_then (some a) k = k a

infixl 5 ◌>>=◌
abbrev pub ◌>>=◌ : {A B : Type 0} → Option A → (A → Option B) → Option B
o >>= k = and_then o k

unfoldable pub fetch8 : Data → ℕ → Option ℕ
fetch8 d o = if ltb o d.len then some (load8 d.bytes o) else none

unfoldable pub fetch16 : Data → ℕ → Option ℕ
fetch16 d o = if ltb (o + 1) d.len then some (load16 d.bytes o) else none

module _ (d : Data) (o : ℕ) where
  pub fetch8-ok : o < d.len → fetch8 d o ≡ some (load8 d.bytes o)
  unfolding fetch8
  fetch8-ok h = ground arith

  pub fetch16-ok : o + 1 < d.len → fetch16 d o ≡ some (load16 d.bytes o)
  unfolding fetch16
  fetch16-ok h = ground arith
