-- ===== src/Lbf/Search/Leaves.antt =====
-- What the walks over all hnodes of lbf/src/linux/sch_lbf.c leave of them.
use new_ip_linux.Common.{
  ◌≡◌, refl, sym, ◌∉◌, is_key, Bool, Bool-cases, inl, inr, none, [], ◌∷◌, ◌++◌, All, if◌then◌else◌,
  if_cases, true, false,
}
use mathlib.Core.Path.{subst}
use new_ip_linux.Lbf.Store.{Ptr, State}
use new_ip_linux.Lbf.Queue.Chain.{Packet, Cells, Pnodes}
use new_ip_linux.Lbf.Ranges.Line.{Hnodes}
use new_ip_linux.Lbf.Stock.{
  Shelf, Stock, hnodes_of, Apart, Stocked, OutsideAll, Apart-sym, Apart-Within,
}
use new_ip_linux.Lbf.Search.Expired.{dropped, kept, kept-Within}

abbrev pub left_of : (Packet → Bool) → Shelf → Shelf
left_of gone x = record x { packets = kept gone x.packets }

-- The hnodes after a walk that drops packets up to the first queue at which it stops.
module _ (gone : Packet → Bool) (stops : Cells → Bool) where
  abbrev pub left : Stock → Stock
  left [] = []
  left (x ∷ st) = left_of gone x ∷ (if stops (kept gone x.packets) then st else left st)

  -- The packets that it drops.
  abbrev pub lost : Stock → Cells
  lost [] = []
  lost (x ∷ st) = dropped gone x.packets ++ (if stops (kept gone x.packets) then [] else lost st)

  pub is_key-left :
      (a : Ptr) (st : Stock) → is_key a (hnodes_of (left st)) ≡ is_key a (hnodes_of st)
  is_key-left a [] = refl
  is_key-left a (x ∷ st) = elim (Bool-cases (stops (kept gone x.packets))) [
    | inl y ↦ rw y refl
    | inr n ↦ rw (n, is_key-left a st) refl
  ]

  pub Apart-left :
      (xs : Cells) (st : Stock)
      → All (λ y. Apart y.packets xs) st
      → All (λ y. Apart y.packets xs) (left st)
  Apart-left xs [] h = tt
  Apart-left xs (x ∷ st) h =
      let here : Apart (kept gone x.packets) xs =
        Apart-sym xs _
          (Apart-Within xs _ x.packets (kept-Within gone x.packets) (Apart-sym _ xs (h.0))) in
      (
        here,
        if_cases (λ (zs : Stock). All (λ y. Apart y.packets xs) zs) (stops (kept gone x.packets)) st
            (left st) (λ y. h.1) (λ n. Apart-left xs st (h.1)),
      )

-- What a walk from `p` over the shelves `st` leaves: the shelves `st'`, where the packets `lost` are
-- freed; of the pnodes and hnodes only those on the shelves are changed, and nothing else.
abbrev pub Left : (s : State) (p : Ptr) (st st' : Stock) (lost : Cells) → State → Type 0
Left s p st st' lost s' =
    (g : Pnodes) × (hs : Hnodes) × (s' ≡ record s { pnodes = g; hnodes = hs })
    × Stocked hs g p st'
    × All (λ c. g (c.0) ≡ none) lost
    × ((a : Ptr) → OutsideAll a st → g a ≡ s.pnodes a)
    × ((a : Ptr) → a ∉ hnodes_of st → hs a ≡ s.hnodes a)

pub Left-refl :
    (s : State) (p : Ptr) (st : Stock) → Stocked s.hnodes s.pnodes p st → Left s p st st [] s
Left-refl s p st h = (s.pnodes, s.hnodes, refl, h, tt, (λ a o. refl), (λ a o. refl))

module _ (gone : Packet → Bool) (stops : Cells → Bool) (s : State) (p : Ptr) (x : Shelf)
    (st : Stock) (s' : State) where
  -- A walk that ends at the first shelf, and one that goes on.
  pub Left-stops :
      stops (kept gone x.packets) ≡ true
      → Left s p (x ∷ st) (left_of gone x ∷ st) (dropped gone x.packets ++ []) s'
      → Left s p (x ∷ st) (left gone stops (x ∷ st)) (lost gone stops (x ∷ st)) s'
  Left-stops e h =
      subst
        (λ b.
          Left s p (x ∷ st) (left_of gone x ∷ (if b then st else left gone stops st))
            (dropped gone x.packets ++ (if b then [] else lost gone stops st)) s')
        (sym e) h

  pub Left-goes_on :
      stops (kept gone x.packets) ≡ false
      → Left s p
          (x ∷ st)
          (left_of gone x ∷ left gone stops st)
          (dropped gone x.packets ++ lost gone stops st)
          s'
      → Left s p (x ∷ st) (left gone stops (x ∷ st)) (lost gone stops (x ∷ st)) s'
  Left-goes_on e h =
      subst
        (λ b.
          Left s p (x ∷ st) (left_of gone x ∷ (if b then st else left gone stops st))
            (dropped gone x.packets ++ (if b then [] else lost gone stops st)) s')
        (sym e) h
