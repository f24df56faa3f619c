-- ===== src/Lbf/Queue/Order.antt =====
-- The place of a packet in a queue that is sorted by the time from which packets may leave.
use mathlib.Core.List.{Perm}
use mathlib.Core.List.Perm
use new_ip_linux.Common.{
  is_key, ℕ, ◌≤◌, ◌≡◌, refl, inl, inr, [], ◌∷◌, arith, tests, ltb, if◌then◌else◌, Bool-cases, All,
}
use new_ip_linux.Lbf.Store.{Ptr}
use new_ip_linux.Lbf.Queue.Chain.{Packet, Cells}

-- Behind the packets that may leave no later.
unfoldable pub insert : Ptr × Packet → Cells → Cells
insert c [] = c ∷ []
insert c (x ∷ xs) = if ltb (c.1).tmin_nsec (x.1).tmin_nsec then c ∷ x ∷ xs else x ∷ insert c xs

pub is_key-insert :
    (a : Ptr) (c : Ptr × Packet) (xs : Cells) → is_key a (insert c xs) ≡ is_key a (c ∷ xs)
unfolding insert
is_key-insert a c [] = refl
is_key-insert a c (x ∷ xs) = ground (arith, is_key-insert a c xs)

-- A queue in which no packet may leave before one that stands in front of it.
abbrev pub IsSorted : Cells → Type 0
IsSorted [] = Unit
IsSorted (x ∷ xs) = All (λ y. (x.1).tmin_nsec ≤ (y.1).tmin_nsec) xs × IsSorted xs

insert-All :
    (n : ℕ) (c : Ptr × Packet) (xs : Cells)
    → n ≤ (c.1).tmin_nsec
    → All (λ y. n ≤ (y.1).tmin_nsec) xs
    → All (λ y. n ≤ (y.1).tmin_nsec) (insert c xs)
unfolding insert
insert-All n c [] h a = (h, tt)
insert-All n c (x ∷ xs) h a = ground (arith, insert-All n c xs h a.1)

All-le :
    (m n : ℕ) (xs : Cells)
    → m ≤ n
    → All (λ y. n ≤ (y.1).tmin_nsec) xs
    → All (λ y. m ≤ (y.1).tmin_nsec) xs
All-le m n [] h a = tt
All-le m n (x ∷ xs) h a = (omega arith, All-le m n xs h a.1)

pub insert-IsSorted : (c : Ptr × Packet) (xs : Cells) → IsSorted xs → IsSorted (insert c xs)
unfolding insert
insert-IsSorted c [] h = (tt, tt)
insert-IsSorted c (x ∷ xs) h = elim (Bool-cases (ltb (c.1).tmin_nsec (x.1).tmin_nsec)) [
  | inl hit ↦ rw hit ((omega tests, All-le _ _ xs (omega tests) h.0), h)
  | inr miss ↦ rw miss (insert-All _ c xs (ground arith) h.0, insert-IsSorted c xs h.1)
]

pub insert-perm : (c : Ptr × Packet) (xs : Cells) → Perm (insert c xs) (c ∷ xs)
unfolding insert
insert-perm c [] = Perm.refl (c ∷ [])
insert-perm c (x ∷ xs) = elim (Bool-cases (ltb (c.1).tmin_nsec (x.1).tmin_nsec)) [
  | inl hit ↦ rw hit (Perm.refl _)
  | inr miss ↦ rw miss (Perm.trans (Perm.cons x (insert-perm c xs)) (Perm.swap _ _ _))
]
