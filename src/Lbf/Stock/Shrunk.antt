-- ===== src/Lbf/Stock/Shrunk.antt =====
-- Queues of lbf/src/linux/sch_lbf.c that have lost packets at their heads.
use new_ip_linux.Common.{
  ℕ, suc, ◌≤◌, ◌<◌, ◌≡◌, refl, ◌∙◌, sym, ap, Bool-cases, inl, inr, [], ◌∷◌, ◌++◌, arith, All, ◌==◌,
  length,
}
use mathlib.Core.List.{append_assoc}
use mathlib.Core.Path.{subst}
use new_ip_linux.Lbf.Store.{Ptr, Hnode}
use new_ip_linux.Lbf.Queue.Chain.{Packet, Cells}
use new_ip_linux.Lbf.Queue.Order.{IsSorted}
use new_ip_linux.Lbf.Ranges.Order.{IsSorted as InOrder, IsRange}
use new_ip_linux.Lbf.Stock.{Stock, holding, hnodes_of}
use new_ip_linux.Lbf.Stock.Heads.{behind, without}

-- The first is what is left of the second when some packets are taken off its head.
abbrev pub IsSuffix : Cells → Cells → Type 0
IsSuffix ys xs = (zs : Cells) × (xs ≡ zs ++ ys)

-- The same hnodes, whose queues have lost packets at their heads and else are as before.
abbrev pub Shrunk : Stock → Stock → Type 0
Shrunk [] [] = Unit
Shrunk [] (y ∷ st') = ⊥
Shrunk (x ∷ st) [] = ⊥
Shrunk (x ∷ st) (y ∷ st') =
    (y.at ≡ x.at) × (y.hnode ≡ x.hnode) × IsSuffix y.packets x.packets × Shrunk st st'

pub Shrunk-refl : (st : Stock) → Shrunk st st
Shrunk-refl [] = tt
Shrunk-refl (x ∷ st) = (refl, refl, ([], refl), Shrunk-refl st)

pub Shrunk-trans : (xs ys zs : Stock) → Shrunk xs ys → Shrunk ys zs → Shrunk xs zs
Shrunk-trans [] [] zs h k = k
Shrunk-trans [] (y ∷ ys) zs h k = absurd h
Shrunk-trans (x ∷ xs) [] zs h k = absurd h
Shrunk-trans (x ∷ xs) (y ∷ ys) [] h k = absurd k
Shrunk-trans (x ∷ xs) (y ∷ ys) (z ∷ zs) (e, f, (a, i), h) (e', f', (b, j), k) = (
  e' ∙ e,
  f' ∙ f,
  (a ++ b, i ∙ ap (λ c. a ++ c) j ∙ sym (append_assoc a b z.packets)),
  Shrunk-trans xs ys zs h k,
)

behind-IsSuffix : (r : Ptr) (xs : Cells) → IsSuffix (behind r xs) xs
behind-IsSuffix r [] = ([], refl)
behind-IsSuffix r (x ∷ xs) = elim (Bool-cases (x.0 == r)) [
  | inl y ↦ rw y (x ∷ [], refl)
  | inr n ↦ rw n ([], refl)
]

pub without-Shrunk : (r : Ptr) (st : Stock) → Shrunk st (without r st)
without-Shrunk r [] = tt
without-Shrunk r (x ∷ st) = (refl, refl, behind-IsSuffix r x.packets, without-Shrunk r st)

-- Properties of the packets of a queue that the rest of the queue has as well.
suffix-All : (P : Ptr × Packet → Type 0) (zs ys : Cells) → All P (zs ++ ys) → All P ys
suffix-All P [] ys h = h
suffix-All P (z ∷ zs) ys h = suffix-All P zs ys (h.1)

suffix-IsSorted : (zs ys : Cells) → IsSorted (zs ++ ys) → IsSorted ys
suffix-IsSorted [] ys h = h
suffix-IsSorted (z ∷ zs) ys h = suffix-IsSorted zs ys (h.1)

length-suffix : (zs ys : Cells) → length ys ≤ length (zs ++ ys)
length-suffix [] ys = omega arith
length-suffix (z ∷ zs) ys = omega (arith, length-suffix zs ys)

pub Shrunk-All :
    (P : Ptr × Packet → Type 0) (st st' : Stock)
    → Shrunk st st'
    → All (λ x. All P x.packets) st
    → All (λ x. All P x.packets) st'
Shrunk-All P [] [] h a = tt
Shrunk-All P [] (y ∷ st') h a = absurd h
Shrunk-All P (x ∷ st) [] h a = absurd h
Shrunk-All P (x ∷ st) (y ∷ st') (e, f, (zs, i), h) a =
    (suffix-All P zs y.packets (subst (λ c. All P c) i (a.0)), Shrunk-All P st st' h (a.1))

pub Shrunk-IsSorted :
    (st st' : Stock)
    → Shrunk st st'
    → All (λ x. IsSorted x.packets) st
    → All (λ x. IsSorted x.packets) st'
Shrunk-IsSorted [] [] h a = tt
Shrunk-IsSorted [] (y ∷ st') h a = absurd h
Shrunk-IsSorted (x ∷ st) [] h a = absurd h
Shrunk-IsSorted (x ∷ st) (y ∷ st') (e, f, (zs, i), h) a =
    (suffix-IsSorted zs y.packets (subst (λ c. IsSorted c) i (a.0)), Shrunk-IsSorted st st' h (a.1))

pub Shrunk-small :
    (k : ℕ) (st st' : Stock)
    → Shrunk st st'
    → All (λ x. length x.packets < k) st
    → All (λ x. length x.packets < k) st'
Shrunk-small k [] [] h a = tt
Shrunk-small k [] (y ∷ st') h a = absurd h
Shrunk-small k (x ∷ st) [] h a = absurd h
Shrunk-small k (x ∷ st) (y ∷ st') (e, f, (zs, i), h) a = (
  omega (arith, length-suffix zs y.packets, ap (λ c. length c) i, a.0),
  Shrunk-small k st st' h (a.1),
)

pub length-Shrunk : (st st' : Stock) → Shrunk st st' → length st' ≡ length st
length-Shrunk [] [] h = refl
length-Shrunk [] (y ∷ st') h = absurd h
length-Shrunk (x ∷ st) [] h = absurd h
length-Shrunk (x ∷ st) (y ∷ st') (e, f, i, h) = ap suc (length-Shrunk st st' h)

starts-Shrunk :
    (n : ℕ) (st st' : Stock)
    → Shrunk st st'
    → All (λ y. n ≤ (y.1).range_start) (hnodes_of st)
    → All (λ y. n ≤ (y.1).range_start) (hnodes_of st')
starts-Shrunk n [] [] h a = tt
starts-Shrunk n [] (y ∷ st') h a = absurd h
starts-Shrunk n (x ∷ st) [] h a = absurd h
starts-Shrunk n (x ∷ st) (y ∷ st') (e, f, i, h) a =
    (omega (arith, ap (λ (v : Hnode). v.range_start) f, a.0), starts-Shrunk n st st' h (a.1))

pub holding-IsRange : (v : Hnode) (xs ys : Cells) → IsRange (holding v xs) → IsRange (holding v ys)
holding-IsRange v xs ys r = record { aligned = r.aligned; closed = r.closed }

pub Shrunk-ranges :
    (st st' : Stock) → Shrunk st st' → InOrder (hnodes_of st) → InOrder (hnodes_of st')
Shrunk-ranges [] [] h a = tt
Shrunk-ranges [] (y ∷ st') h a = absurd h
Shrunk-ranges (x ∷ st) [] h a = absurd h
Shrunk-ranges (x ∷ st) (y ∷ st') (e, f, i, h) a = (
  subst (λ v. IsRange (holding v y.packets)) (sym f)
      (holding-IsRange (x.hnode) x.packets y.packets (a.0)),
  subst (λ v. All (λ z. v.range_start ≤ (z.1).range_start) (hnodes_of st')) (sym f)
      (starts-Shrunk ((x.hnode).range_start) st st' h (a.1)),
  Shrunk-ranges st st' h (a.2),
)
