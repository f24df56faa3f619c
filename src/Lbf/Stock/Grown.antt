-- ===== src/Lbf/Stock/Grown.antt =====
-- One more packet in a queue of lbf/src/linux/sch_lbf.c.
use new_ip_linux.Common.{
  ℕ, ◌≤◌, ◌≡◌, ◌∙◌, sym, inl, inr, ◌∉◌, none, [], ◌∷◌, arith, All, ◌==◌, if_cases, ltb,
}
use new_ip_linux.Lbf.Store.{Ptr}
use new_ip_linux.Lbf.Queue.Chain.{Packet, Cells, Pnodes, not-mem_of_none}
use new_ip_linux.Lbf.Queue.Order.{insert, is_key-insert}
use new_ip_linux.Lbf.Ranges.Order.{IsSorted as InOrder}
use new_ip_linux.Lbf.Stock.{Stock, hnodes_of, Apart, IsFilled, Within}
use new_ip_linux.Lbf.Stock.Change.{with_packets, put_in, ApartFrom}
use new_ip_linux.Lbf.Stock.Shrunk.{holding-IsRange}

module _ (a : Ptr) (ys : Cells) where
  pub with_packets-All :
      (P : Cells → Type 0) (st : Stock)
      → P ys
      → All (λ x. P x.packets) st
      → All (λ x. P x.packets) (with_packets a ys st)
  with_packets-All P [] p h = tt
  with_packets-All P (x ∷ st) p h =
      (if_cases P (x.at == a) ys x.packets (λ e. p) (λ e. h.0), with_packets-All P st p (h.1))

  starts-with_packets :
      (n : ℕ) (st : Stock)
      → All (λ y. n ≤ (y.1).range_start) (hnodes_of st)
      → All (λ y. n ≤ (y.1).range_start) (hnodes_of (with_packets a ys st))
  starts-with_packets n [] h = tt
  starts-with_packets n (x ∷ st) h = (h.0, starts-with_packets n st (h.1))

  pub with_packets-InOrder :
      (st : Stock) → InOrder (hnodes_of st) → InOrder (hnodes_of (with_packets a ys st))
  with_packets-InOrder [] h = tt
  with_packets-InOrder (x ∷ st) h = (
    holding-IsRange (x.hnode) x.packets ((put_in a ys x).packets) (h.0),
    starts-with_packets ((x.hnode).range_start) st (h.1),
    with_packets-InOrder st (h.2),
  )

-- A pnode that is not in use is on no shelf.
Apart-one : (c : Ptr × Packet) (xs ys : Cells) → (c.0) ∉ ys → Apart ys xs → Apart ys (c ∷ xs)
Apart-one c xs [] out h = tt
Apart-one c xs (y ∷ ys) out h =
    (ground (arith, out, h.0), Apart-one c xs ys (ground (arith, out)) (h.1))

pub ApartFrom-fresh :
    (m : Pnodes) (a : Ptr) (c : Ptr × Packet) (xs : Cells) (st : Stock)
    → m (c.0) ≡ none
    → All (λ x. IsFilled m x) st
    → ApartFrom a xs st
    → ApartFrom a (c ∷ xs) st
ApartFrom-fresh m a c xs [] unused f h = tt
ApartFrom-fresh m a c xs (x ∷ st) unused f (inl e, h) =
    (inl e, ApartFrom-fresh m a c xs st unused (f.1) h)
ApartFrom-fresh m a c xs (x ∷ st) unused f (inr e, h) = (
  inr (Apart-one c xs x.packets (not-mem_of_none (c.0) (f.0.1) unused) e),
  ApartFrom-fresh m a c xs st unused (f.1) h,
)

pub insert-Within : (c : Ptr × Packet) (xs : Cells) → Within (insert c xs) (c ∷ xs)
insert-Within c xs b i = sym (is_key-insert b c xs) ∙ i

pub insert-All :
    (P : Ptr × Packet → Type 0) (c : Ptr × Packet) (xs : Cells)
    → P c
    → All P xs
    → All P (insert c xs)
unfolding insert
insert-All P c [] p h = (p, tt)
insert-All P c (x ∷ xs) p h =
    if_cases (λ (z : Cells). All P z) (ltb ((c.1).tmin_nsec) ((x.1).tmin_nsec)) (c ∷ x ∷ xs)
      (x ∷ insert c xs) (λ e. (p, h)) (λ e. (h.0, insert-All P c xs p (h.1)))
