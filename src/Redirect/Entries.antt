-- ===== src/Redirect/Entries.antt =====
-- The text of a route: for each entry a digit, an underscore, five bytes of a name and a dash, and what
-- is read back from it.
use new_ip_linux.Common.{
  ℕ, zero, suc, ◌+◌, ◌-◌, ◌*◌, ◌%◌, ◌<◌, ◌≤◌, ◌≡◌, refl, ap, some, List, [], ◌∷◌, ◌++◌, length, Str,
  Buf, IsText, All, arith,
}
use new_ip_linux.Redirect.{byte_at, bytes_from, entry_at, strlen}

-- An address of one digit, and the five bytes of an interface's name.
pub record Route : Type 0 where
  pub dst : ℕ
  pub n₀ : ℕ
  pub n₁ : ℕ
  pub n₂ : ℕ
  pub n₃ : ℕ
  pub n₄ : ℕ

abbrev pub name_bytes : Route → Str
name_bytes e = e.n₀ ∷ e.n₁ ∷ e.n₂ ∷ e.n₃ ∷ e.n₄ ∷ []

-- The address is a digit, and the name has no zero inside.
abbrev pub IsRoute : Route → Type 0
IsRoute e = (e.dst < 10) × IsText (name_bytes e)

-- "%d_%s-"
abbrev pub entry_text : Route → Str
entry_text e = (e.dst + 48) ∷ 95 ∷ e.n₀ ∷ e.n₁ ∷ e.n₂ ∷ e.n₃ ∷ e.n₄ ∷ 45 ∷ []

abbrev pub route_text : List Route → Str
route_text [] = []
route_text (e ∷ es) = entry_text e ++ route_text es

-- A byte behind a prefix.
byte_at-append : (pre b : Buf) (k n : ℕ) → n ≡ length pre + k → byte_at (pre ++ b) n ≡ byte_at b k
unfolding byte_at
byte_at-append [] b k n e = ap (byte_at b) (omega (arith, e))
byte_at-append (c ∷ pre) b k zero e = absurd (omega (arith, e))
byte_at-append (c ∷ pre) b k (suc n) e = byte_at-append pre b k n (omega (arith, e))

-- The bytes of the first entry of a text.
byte_at-text :
    (pre rest : Buf) (e : Route) (es : List Route) (k n : ℕ)
    → n ≡ length pre + k
    → byte_at (pre ++ (route_text (e ∷ es) ++ rest)) n ≡ byte_at (route_text (e ∷ es) ++ rest) k
byte_at-text pre rest e es k n h = byte_at-append pre (route_text (e ∷ es) ++ rest) k n h

bytes_from-text :
    (pre rest : Buf) (e : Route) (es : List Route) (n : ℕ)
    → n ≡ length pre + 2
    → bytes_from (pre ++ (route_text (e ∷ es) ++ rest)) 5 n ≡ some (name_bytes e)
unfolding bytes_from byte_at
bytes_from-text pre rest e es n h =
    let at = byte_at-text pre rest e es in
    rw (at 2 n h) (
      rw (at 3 (n + 1) (omega (arith, h))) (
        rw (at 4 (n + 1 + 1) (omega (arith, h))) (
          rw (at 5 (n + 1 + 1 + 1) (omega (arith, h)))
            (rw (at 6 (n + 1 + 1 + 1 + 1) (omega (arith, h))) refl))))

digit_back : (d : ℕ) → d < 10 → (d + 48 + 256 - 48) % 256 ≡ d
digit_back d h = omega arith

-- The entry behind a prefix.
pub entry_at-route_text :
    (pre rest : Buf) (e : Route) (es : List Route)
    → e.dst < 10
    → entry_at (pre ++ (route_text (e ∷ es) ++ rest)) (length pre) ≡ some (e.dst, name_bytes e)
unfolding entry_at byte_at
entry_at-route_text pre rest e es h =
    rw (byte_at-text pre rest e es 0 (length pre) (omega arith))
      (rw (bytes_from-text pre rest e es (length pre + 2) refl) (rw (digit_back e.dst h) refl))

pub length-route_text : (es : List Route) → length (route_text es) ≡ 8 * length es
length-route_text [] = refl
length-route_text (e ∷ es) = omega (arith, length-route_text es)

-- The length of a text in a buffer.
pub strlen-append : (s : Str) (rest : Buf) → IsText s → strlen (s ++ 0 ∷ rest) ≡ some (length s)
unfolding strlen
strlen-append [] rest t = refl
strlen-append (suc c ∷ s) rest t = rw (strlen-append s rest (t.1)) refl
strlen-append (zero ∷ s) rest t = absurd (omega (arith, t.0))

-- Reads inside the buffer.
byte_at-inside : (b : Buf) (n : ℕ) → n < length b → (c : ℕ) × (byte_at b n ≡ some c)
unfolding byte_at
byte_at-inside [] n h = absurd (omega arith)
byte_at-inside (c ∷ b) zero h = (c, refl)
byte_at-inside (c ∷ b) (suc n) h = byte_at-inside b n (omega arith)

bytes_from-inside : (b : Buf) (k n : ℕ) → n + k ≤ length b → (s : Str) × (bytes_from b k n ≡ some s)
unfolding bytes_from
bytes_from-inside b zero n h = ([], refl)
bytes_from-inside b (suc k) n h =
    let (c, e) = byte_at-inside b n (omega arith) in
    let (s, f) = bytes_from-inside b k (n + 1) (omega arith) in (c ∷ s, rw (e, f) refl)

pub entry_at-inside : (b : Buf) (n : ℕ) → n + 7 ≤ length b → (e : ℕ × Str) × (entry_at b n ≡ some e)
unfolding entry_at
entry_at-inside b n h =
    let (c, e) = byte_at-inside b n (omega arith) in
    let (s, f) = bytes_from-inside b 5 (n + 2) (omega arith) in
    (((c + 256 - 48) % 256, s), rw (e, f) refl)

pub route_text-IsText : (es : List Route) → All IsRoute es → IsText (route_text es)
route_text-IsText [] h = tt
route_text-IsText (e ∷ es) h =
    let t = h.0.1 in
    (
      omega arith,
      (
        omega arith,
        (
          t.0,
          (t.1.0, (t.1.1.0, (t.1.1.1.0, (t.1.1.1.1.0, (omega arith, route_text-IsText es (h.1)))))),
        ),
      ),
    )
