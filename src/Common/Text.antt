-- ===== src/Common/Text.antt =====
-- Strings of C as lists of bytes, and the buffers that hold them.
use Prim.Native.Nat.{ℕ, zero, suc, ◌<◌, ◌≤◌}
use mathlib.Core.Path.{◌≡◌, refl, ap}
use mathlib.Core.Bool.{Bool, true, false, ◌&&◌}
use mathlib.Core.List.{List, [], ◌∷◌}
use native.Mathlib.Omega.{arith}
use mathlib.Core.Logic.{inl, inr}
use new_ip_linux.Common.Tests.{◌==◌, if◌then◌else◌, Bool-cases, suc-nonzero}
use new_ip_linux.Common.Lists.{length, All}

-- A string of C without its end.
abbrev pub Str : Type 0
Str = List ℕ

-- `strcmp` with the result 0.
abbrev pub same_str : Str → Str → Bool
same_str [] [] = true
same_str [] (d ∷ ds) = false
same_str (c ∷ cs) [] = false
same_str (c ∷ cs) (d ∷ ds) = (c == d) && same_str cs ds

-- An array of bytes.
abbrev pub Buf : Type 0
Buf = List ℕ

abbrev pub zeros : ℕ → Buf
zeros zero = []
zeros (suc n) = 0 ∷ zeros n

-- What `strncpy(buf, s, n)` leaves in the first n bytes of `buf`: no end if `s` fills them.
unfoldable pub strncpy : (n : ℕ) → Str → Buf
strncpy zero s = []
strncpy (suc n) [] = 0 ∷ zeros n
strncpy (suc n) (c ∷ s) = c ∷ strncpy n s

-- The first n bytes.
abbrev pub take : ℕ → Str → Str
take zero s = []
take (suc n) [] = []
take (suc n) (c ∷ s) = c ∷ take n s

-- The string at the start of a buffer, up to the first zero or the buffer's end.
unfoldable pub text_of : Buf → Str
text_of [] = []
text_of (c ∷ b) = let rest = text_of b in if c == 0 then [] else c ∷ rest

-- A string has no zero inside.
abbrev pub IsText : Str → Type 0
IsText s = All (λ c. 1 ≤ c) s

-- A string that is copied into a buffer with room to spare is read back from it.
pub text_of-strncpy : (n : ℕ) (s : Str) → IsText s → length s < n → text_of (strncpy n s) ≡ s
unfolding text_of strncpy
text_of-strncpy zero s t h = absurd (omega arith)
text_of-strncpy (suc n) [] t h = refl
text_of-strncpy (suc n) (suc c ∷ s) t h =
    simp (suc-nonzero c) (ap (λ r. suc c ∷ r) (text_of-strncpy n s (t.1) (omega arith)))
text_of-strncpy (suc n) (zero ∷ s) t h = absurd (omega (arith, t.0))

length-zeros : (n : ℕ) → length (zeros n) ≡ n
length-zeros zero = refl
length-zeros (suc n) = omega (arith, length-zeros n)

-- `strncpy` fills the whole of the n bytes.
pub length-strncpy : (n : ℕ) (s : Str) → length (strncpy n s) ≡ n
unfolding strncpy
length-strncpy zero s = refl
length-strncpy (suc n) [] = omega (arith, length-zeros n)
length-strncpy (suc n) (c ∷ s) = omega (arith, length-strncpy n s)

-- What is read back is not longer than what was copied.
pub text_of-strncpy_le : (n : ℕ) (s : Str) → length (text_of (strncpy n s)) ≤ length s
unfolding strncpy text_of
text_of-strncpy_le zero s = omega arith
text_of-strncpy_le (suc n) [] = omega arith
text_of-strncpy_le (suc n) (c ∷ s) = elim (Bool-cases (c == 0)) [
  | inl y ↦ rw y (omega arith)
  | inr z ↦ rw z (omega (arith, text_of-strncpy_le n s))
]
