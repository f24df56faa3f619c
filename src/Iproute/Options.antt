-- ===== src/Iproute/Options.antt =====
-- What the options of a command come to.
use new_ip_linux.Common.{Str, ℕ, ◌≡◌, Option, some, List, [], ◌∷◌, All}
use new_ip_linux.Iproute.{limit_word}

-- The arguments `limit v` for each string `v`.
abbrev pub limits : List Str → List Str
limits [] = []
limits (v ∷ vs) = limit_word ∷ v ∷ limits vs

-- The last of some numbers.
abbrev pub last_of : List ℕ → (so_far : ℕ) → ℕ
last_of [] so_far = so_far
last_of (n ∷ ns) so_far = last_of ns n

-- Each string is read as the number beside it.
abbrev pub AllRead : (Str → Option ℕ) → List (Str × ℕ) → Type 0
AllRead get_unsigned vs = All (λ v. get_unsigned (v.0) ≡ some (v.1)) vs

abbrev pub strings : List (Str × ℕ) → List Str
strings [] = []
strings (v ∷ vs) = v.0 ∷ strings vs

abbrev pub numbers : List (Str × ℕ) → List ℕ
numbers [] = []
numbers (v ∷ vs) = v.1 ∷ numbers vs
