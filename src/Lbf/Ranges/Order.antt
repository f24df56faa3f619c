-- ===== src/Lbf/Ranges/Order.antt =====
-- The hnodes of the discipline as a list: which one serves a budget, and where a new one goes.
use mathlib.Core.List.{Perm}
use mathlib.Core.List.Perm
use new_ip_linux.Common.{
  ℕ, ◌+◌, ◌%◌, ◌≤◌, ◌≡◌, ◌⊎◌, refl, inl, inr, Bool, true, false, Option, none, some, ◌&&◌, is_key,
  List, [], ◌∷◌, arith, tests, ltb, leb, if◌then◌else◌, Bool-cases, All,
}
use new_ip_linux.Lbf.Store.{Ptr, Hnode}
use new_ip_linux.Lbf.Ranges.{lqb_range, new_hnode}

-- Address and content of each hnode, in order; what the content says of the next one is void.
abbrev pub Cells : Type 0
Cells = List (Ptr × Hnode)

-- The test of the loop.
abbrev pub covers : ℕ → Hnode → Bool
covers b v = leb v.range_start b && ltb b v.range_end

-- The hnode that the loop returns without allocating one.
unfoldable pub lookup : ℕ → Cells → Option Ptr
lookup b [] = none
lookup b (x ∷ xs) =
    if covers b (x.1) then some (x.0) else if ltb b (x.1).range_start then none else lookup b xs

-- A new hnode's place: before the first that starts behind the budget.
unfoldable pub insert : ℕ → Ptr × Hnode → Cells → Cells
insert b c [] = c ∷ []
insert b c (x ∷ xs) = if ltb b (x.1).range_start then c ∷ x ∷ xs else x ∷ insert b c xs

pub is_key-insert :
    (a : Ptr) (b : ℕ) (c : Ptr × Hnode) (xs : Cells) → is_key a (insert b c xs) ≡ is_key a (c ∷ xs)
unfolding insert
is_key-insert a b c [] = refl
is_key-insert a b c (x ∷ xs) = ground (arith, is_key-insert a b c xs)

-- A range starts at a multiple of `LQB_RANGE` and ends with its last budget.
pub record IsRange (v : Hnode) : Type 0 where
  pub aligned : v.range_start % lqb_range ≡ 0
  pub closed : v.range_end + 1 ≡ v.range_start + lqb_range

abbrev pub IsSorted : Cells → Type 0
IsSorted [] = Unit
IsSorted (x ∷ xs) =
    IsRange (x.1) × All (λ y. (x.1).range_start ≤ (y.1).range_start) xs × IsSorted xs

pub new_hnode-IsRange : (b n : ℕ) → IsRange (new_hnode b n)
new_hnode-IsRange b n = record { aligned = omega arith; closed = omega arith }

pub new_hnode-holds :
    (b n : ℕ) → ((new_hnode b n).range_start ≤ b) × (b ≤ (new_hnode b n).range_end)
new_hnode-holds b n = omega arith

insert-All :
    (n b : ℕ) (c : Ptr × Hnode) (xs : Cells)
    → n ≤ (c.1).range_start
    → All (λ y. n ≤ (y.1).range_start) xs
    → All (λ y. n ≤ (y.1).range_start) (insert b c xs)
unfolding insert
insert-All n b c [] h a = (h, tt)
insert-All n b c (x ∷ xs) h a = ground (arith, insert-All n b c xs h a.1)

All-le :
    (m n : ℕ) (xs : Cells)
    → m ≤ n
    → All (λ y. n ≤ (y.1).range_start) xs
    → All (λ y. m ≤ (y.1).range_start) xs
All-le m n [] h a = tt
All-le m n (x ∷ xs) h a = (omega arith, All-le m n xs h a.1)

module _ (b n : ℕ) (p : Ptr) where
  pub insert-IsSorted : (xs : Cells) → IsSorted xs → IsSorted (insert b (p, new_hnode b n) xs)
  unfolding insert
  insert-IsSorted [] h = (new_hnode-IsRange b n, tt, tt)
  insert-IsSorted (x ∷ xs) h = elim (Bool-cases (ltb b (x.1).range_start)) [
    | inl hit ↦ rw hit (new_hnode-IsRange b n, (omega tests, All-le _ _ xs (omega tests) (h.1)), h)
    | inr miss ↦
        let aligned = (h.0).aligned in
        rw miss (h.0, insert-All _ b _ xs (ground arith) (h.1), insert-IsSorted xs (h.2))
  ]

pub insert-perm : (b : ℕ) (c : Ptr × Hnode) (xs : Cells) → Perm (insert b c xs) (c ∷ xs)
unfolding insert
insert-perm b c [] = Perm.refl (c ∷ [])
insert-perm b c (x ∷ xs) = elim (Bool-cases (ltb b (x.1).range_start)) [
  | inl hit ↦ rw hit (Perm.refl _)
  | inr miss ↦ rw miss (Perm.trans (Perm.cons x (insert-perm b c xs)) (Perm.swap _ _ _))
]

-- The last budget of a range is never found, since the test leaves out the end of a range.
pub lookup_last : (b : ℕ) (xs : Cells) → IsSorted xs → b % lqb_range ≡ 9 → lookup b xs ≡ none
unfolding lookup
lookup_last b [] h e = refl
lookup_last b (x ∷ xs) h e =
    let aligned = (h.0).aligned in
    let closed = (h.0).closed in ground (arith, lookup_last b xs (h.2) e)

-- Why the loop goes past an hnode, or stops at it, when it finds none.
pub lookup-none :
    (b : ℕ) (p : Ptr) (v : Hnode) (xs : Cells)
    → lookup b ((p, v) ∷ xs) ≡ none
    → (covers b v ≡ false)
      × ((ltb b v.range_start ≡ true) ⊎ (ltb b v.range_start ≡ false) × (lookup b xs ≡ none))
unfolding lookup
lookup-none b p v xs e = ground arith

pub lookup-some :
    (b : ℕ) (p r : Ptr) (v : Hnode) (xs : Cells)
    → lookup b ((p, v) ∷ xs) ≡ some r
    → (covers b v ≡ true) × (p ≡ r)
      ⊎ (covers b v ≡ false) × (ltb b v.range_start ≡ false) × (lookup b xs ≡ some r)
unfolding lookup
lookup-some b p r v xs e = ground arith
