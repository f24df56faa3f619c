-- ===== src/Lbf/Stock.antt =====
-- All hnodes of the discipline of lbf/src/linux/sch_lbf.c, each with the packets of its queue.
pub mod Change
pub mod Heads
pub mod Shrunk
pub mod Queued
pub mod Valid
pub mod Shelve
pub mod Grown
use new_ip_linux.Common.{
  ◌≡◌, refl, sym, ◌∈◌, ◌∉◌, is_key, Option, List, [], ◌∷◌, arith, ◌==◌, ==_iff, Bool-cases, inl,
  inr, All,
}
use mathlib.Core.Path.{subst}
use new_ip_linux.Lbf.Store.{Ptr, null, Hnode, At}
use new_ip_linux.Lbf.Queue.Chain.{Packet, Cells, Pnodes, Chain, nil, cons}
use new_ip_linux.Lbf.Ranges.Order
use new_ip_linux.Lbf.Ranges.Line
use new_ip_linux.Lbf.Ranges.Line.{Hnodes, Line, linked}

-- A hnode with its address, and the packets in its queue. What the hnode says of the next hnode and
-- of its queue is void.
pub record Shelf : Type 0 where
  pub at : Ptr
  pub hnode : Hnode
  pub packets : Cells

abbrev pub Stock : Type 0
Stock = List Shelf

-- The address of a queue's first packet.
abbrev pub head_of : Cells → Ptr
head_of [] = null
head_of (x ∷ xs) = x.0

-- The hnode with the queue `ys`.
abbrev pub holding : Hnode → Cells → Hnode
holding h ys = record h { queue = head_of ys }

-- The hnodes with their addresses.
abbrev pub hnodes_of : Stock → Order.Cells
hnodes_of [] = []
hnodes_of (x ∷ st) = (x.at, holding (x.hnode) x.packets) ∷ hnodes_of st

-- No packet of the first is in the second.
abbrev pub Apart : Cells → Cells → Type 0
Apart ys zs = All (λ y. (y.0) ∉ zs) ys

-- No two queues share a packet.
abbrev pub AllApart : Stock → Type 0
AllApart [] = Unit
AllApart (x ∷ st) = All (λ y. Apart y.packets x.packets) st × AllApart st

-- The hnode has no link back, and its queue holds its packets.
abbrev pub IsFilled : Pnodes → Shelf → Type 0
IsFilled m x = ((x.hnode).prev_hnode ≡ null) × Chain m x.at (head_of x.packets) x.packets

-- The hnodes are linked from `p` on and hold their packets.
pub record Stocked (hs : Hnodes) (m : Pnodes) (p : Ptr) (st : Stock) : Type 0 where
  pub line : Line hs p (hnodes_of st)
  pub filled : All (λ x. IsFilled m x) st
  pub apart : AllApart st

-- The address is not that of a packet on any of the shelves.
abbrev pub OutsideAll : Ptr → Stock → Type 0
OutsideAll a st = All (λ x. a ∉ x.packets) st

pub Chain-head_of : {m : Pnodes} {o p : Ptr} {xs : Cells} → Chain m o p xs → p ≡ head_of xs
Chain-head_of nil = refl
Chain-head_of (cons e out c) = refl

-- A packet in a queue that is apart from another one is not in that.
pub Apart-mem : (a : Ptr) (ys zs : Cells) → Apart ys zs → a ∈ ys → a ∉ zs
Apart-mem a [] zs h i = ground arith
Apart-mem a (y ∷ ys) zs h i = elim (Bool-cases (a == y.0)) [
  | inl e ↦ subst (λ b. b ∉ zs) (sym ((==_iff a (y.0)).0 e)) (h.0)
  | inr n ↦ let j : a ∈ ys = ground (arith, i, n) in Apart-mem a ys zs (h.1) j
]

Apart-cons : (zs ys : Cells) (y : Ptr × Packet) → Apart zs (y ∷ ys) → ((y.0) ∉ zs) × Apart zs ys
Apart-cons [] ys y h = (refl, tt)
Apart-cons (z ∷ zs) ys y h =
    let r = Apart-cons zs ys y (h.1) in (ground (arith, h.0, r.0), (ground (arith, h.0), r.1))

pub Apart-sym : (zs ys : Cells) → Apart zs ys → Apart ys zs
Apart-sym zs [] h = tt
Apart-sym zs (y ∷ ys) h = let r = Apart-cons zs ys y h in (r.0, Apart-sym zs ys (r.1))

-- Every packet of the first is in the second.
abbrev pub Within : Cells → Cells → Type 0
Within ys zs = (a : Ptr) → a ∈ ys → a ∈ zs

pub not-mem-Within : (a : Ptr) (ys zs : Cells) → Within ys zs → a ∉ zs → a ∉ ys
not-mem-Within a ys zs sub out = elim (Bool-cases (is_key a ys)) [
  | inl y ↦ let z = sub a y in cc
  | inr n ↦ n
]

pub Apart-Within : (xs ys zs : Cells) → Within ys zs → Apart xs zs → Apart xs ys
Apart-Within [] ys zs sub h = tt
Apart-Within (x ∷ xs) ys zs sub h =
    (not-mem-Within (x.0) ys zs sub (h.0), Apart-Within xs ys zs sub (h.1))

pub Within-Apart : (xs ys zs : Cells) → Within ys zs → Apart zs xs → Apart ys xs
Within-Apart xs ys zs sub h = Apart-sym xs ys (Apart-Within xs ys zs sub (Apart-sym zs xs h))

-- A stock that is not empty, and its first shelf.
pub record Opened (hs : Hnodes) (m : Pnodes) (p : Ptr) (x : Shelf) (st : Stock) : Type 0 where
  pub next : Ptr
  pub first : p ≡ x.at
  pub at : At hs x.at (linked (holding (x.hnode) x.packets) next)
  pub unlinked : (x.hnode).prev_hnode ≡ null
  pub chain : Chain m x.at (head_of x.packets) x.packets
  pub fresh : x.at ∉ hnodes_of st
  pub apart : All (λ y. Apart y.packets x.packets) st
  pub rest : Stocked hs m next st

uncons :
    {hs : Hnodes} {p : Ptr} {x : Ptr × Hnode} {xs : Order.Cells}
    → Line hs p (x ∷ xs)
    → (q : Ptr) × (p ≡ x.0) × At hs (x.0) (linked (x.1) q) × ((x.0) ∉ xs) × Line hs q xs
uncons (Line.cons {q = q} at out c) = (q, refl, at, out, c)

Line-null : {hs : Hnodes} {p : Ptr} → Line hs p [] → p ≡ null
Line-null Line.nil = refl

module _ {hs : Hnodes} {m : Pnodes} {p : Ptr} where
  pub Stocked-null : Stocked hs m p [] → p ≡ null
  Stocked-null h = Line-null h.line

  pub Stocked-Opened : (x : Shelf) (st : Stock) → Stocked hs m p (x ∷ st) → Opened hs m p x st
  Stocked-Opened x st h =
      let (q, e, at, out, line) = uncons h.line in
      record {
        next = q;
        first = e;
        at = at;
        unlinked = h.filled.0.0;
        chain = h.filled.0.1;
        fresh = out;
        apart = h.apart.0;
        rest = record { line = line; filled = h.filled.1; apart = h.apart.1 };
      }

  pub Opened-Stocked : (x : Shelf) (st : Stock) → Opened hs m p x st → Stocked hs m p (x ∷ st)
  Opened-Stocked x st o = record {
    line =
        subst (λ a. Line hs a (hnodes_of (x ∷ st))) (sym o.first)
          (Line.cons {v = holding (x.hnode) x.packets} o.at o.fresh o.rest.line);
    filled = ((o.unlinked, o.chain), o.rest.filled);
    apart = (o.apart, o.rest.apart);
  }

pub Stocked-nil : (hs : Hnodes) (m : Pnodes) → Stocked hs m null []
Stocked-nil hs m = record { line = Line.nil; filled = tt; apart = tt }
