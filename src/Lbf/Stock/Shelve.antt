-- ===== src/Lbf/Stock/Shelve.antt =====
-- A new hnode in its place among those of lbf/src/linux/sch_lbf.c.
use new_ip_linux.Common.{
  ℕ, ◌≤◌, ◌≡◌, refl, sym, Bool-cases, inl, inr, true, some, [], ◌∷◌, arith, All, ◌==◌, ==_iff,
  if◌then◌else◌, ltb, if_cases,
}
use mathlib.Core.Path.{subst}
use new_ip_linux.Lbf.Store.{Ptr, At}
use new_ip_linux.Lbf.Queue.Chain.{Cells, Pnodes, Chain, nil}
use new_ip_linux.Lbf.Ranges.{new_hnode}
use new_ip_linux.Lbf.Ranges.Order.{insert, lookup, lookup-some}
use new_ip_linux.Lbf.Ranges.Line.{Hnodes, Line, linked}
use new_ip_linux.Lbf.Stock.{
  Shelf, Stock, head_of, holding, hnodes_of, Apart, AllApart, Apart-sym, IsFilled, Stocked,
  Stocked-Opened,
}
use new_ip_linux.Lbf.Stock.Change.{ApartFrom, ApartFrom-rest}
use new_ip_linux.Lbf.Stock.Heads.{OnShelf, All-OnShelf}

-- Before the first hnode whose range starts behind the budget.
abbrev pub shelve : ℕ → Shelf → Stock → Stock
shelve b x [] = x ∷ []
shelve b x (y ∷ st) = if ltb b (y.hnode).range_start then x ∷ y ∷ st else y ∷ shelve b x st

-- An empty hnode for a budget, the `n`-th.
abbrev pub empty_shelf : Ptr → (b n : ℕ) → Shelf
empty_shelf r b n = record { at = r; hnode = new_hnode b n; packets = [] }

pub hnodes_of-shelve :
    (b : ℕ) (x : Shelf) (st : Stock)
    → hnodes_of (shelve b x st) ≡ insert b (x.at, holding (x.hnode) x.packets) (hnodes_of st)
unfolding insert
hnodes_of-shelve b x [] = refl
hnodes_of-shelve b x (y ∷ st) = elim (Bool-cases (ltb b (y.hnode).range_start)) [
  | inl hit ↦ rw hit refl
  | inr miss ↦ rw (miss, hnodes_of-shelve b x st) refl
]

pub shelve-All :
    (P : Shelf → Type 0) (b : ℕ) (x : Shelf) (st : Stock) → P x → All P st → All P (shelve b x st)
shelve-All P b x [] p h = (p, tt)
shelve-All P b x (y ∷ st) p h =
    if_cases (λ (z : Stock). All P z) (ltb b (y.hnode).range_start) (x ∷ y ∷ st) (y ∷ shelve b x st)
      (λ e. (p, h)) (λ e. (h.0, shelve-All P b x st p (h.1)))

pub shelve-OnShelf : (b : ℕ) (x : Shelf) (st : Stock) → OnShelf x (shelve b x st)
shelve-OnShelf b x [] = inl refl
shelve-OnShelf b x (y ∷ st) =
    if_cases (λ (z : Stock). OnShelf x z) (ltb b (y.hnode).range_start) (x ∷ y ∷ st)
      (y ∷ shelve b x st) (λ e. inl refl) (λ e. inr (shelve-OnShelf b x st))

Apart-nil : (ys : Cells) → Apart ys []
Apart-nil [] = tt
Apart-nil (y ∷ ys) = (refl, Apart-nil ys)

All-Apart-nil : (st : Stock) → All (λ y. Apart y.packets []) st
All-Apart-nil [] = tt
All-Apart-nil (x ∷ st) = (Apart-nil x.packets, All-Apart-nil st)

module _ (b n : ℕ) (r : Ptr) where
  shelve-AllApart : (st : Stock) → AllApart st → AllApart (shelve b (empty_shelf r b n) st)
  shelve-AllApart [] h = (tt, tt)
  shelve-AllApart (y ∷ st) h =
      if_cases (λ (z : Stock). AllApart z) (ltb b (y.hnode).range_start)
        (empty_shelf r b n ∷ y ∷ st) (y ∷ shelve b (empty_shelf r b n) st)
        (λ e. (All-Apart-nil (y ∷ st), h))
        (λ e. (
          shelve-All (λ z. Apart z.packets y.packets) b (empty_shelf r b n) st tt (h.0),
          shelve-AllApart st (h.1),
        ))

  pub shelve-Stocked :
      (hs gs : Hnodes) (m : Pnodes) (p q : Ptr) (st : Stock)
      → Stocked hs m p st
      → Line gs q (insert b (r, new_hnode b n) (hnodes_of st))
      → Stocked gs m q (shelve b (empty_shelf r b n) st)
  shelve-Stocked hs gs m p q st s line = record {
    line = subst (λ z. Line gs q z) (sym (hnodes_of-shelve b (empty_shelf r b n) st)) line;
    filled = shelve-All (λ x. IsFilled m x) b (empty_shelf r b n) st (refl, nil) s.filled;
    apart = shelve-AllApart st s.apart;
  }

-- The hnode is one for the budget.
abbrev pub Hosts : ℕ → Shelf → Type 0
Hosts b x = ((x.hnode).range_start ≤ b) × (b ≤ (x.hnode).range_end)

pub lookup-OnShelf :
    (b : ℕ) (r : Ptr) (st : Stock)
    → lookup b (hnodes_of st) ≡ some r
    → (x : Shelf) × OnShelf x st × (x.at ≡ r) × Hosts b x
lookup-OnShelf b r [] e = unfold lookup in cc
lookup-OnShelf b r (x ∷ st) e =
    elim (lookup-some b x.at r (holding (x.hnode) x.packets) (hnodes_of st) e) [
      | inl (hit, is) ↦ (x, inl refl, is, (ground (arith, hit), ground (arith, hit)))
      | inr (past, next, rest) ↦
          let (y, on, is, h) = lookup-OnShelf b r st rest in (y, inr on, is, h)
    ]

-- A shelf of the stock.
pub record Standing (hs : Hnodes) (m : Pnodes) (x : Shelf) (st : Stock) : Type 0 where
  pub next : Ptr
  pub at : At hs x.at (linked (holding (x.hnode) x.packets) next)
  pub chain : Chain m x.at (head_of x.packets) x.packets
  pub clear : ApartFrom x.at x.packets st

pub OnShelf-Standing :
    (hs : Hnodes) (m : Pnodes) (p : Ptr) (x : Shelf) (st : Stock)
    → Stocked hs m p st
    → OnShelf x st
    → Standing hs m x st
OnShelf-Standing hs m p x [] s on = absurd on
OnShelf-Standing hs m p x (y ∷ st) s (inl e) =
    let o = Stocked-Opened y st s in
    let itself : (y.at == y.at) ≡ true = (==_iff y.at y.at).1 refl in
    let mine : Standing hs m y (y ∷ st) = record {
      next = o.next;
      at = o.at;
      chain = o.chain;
      clear = (inl itself, ApartFrom-rest y.at y.packets st o.apart);
    } in
    subst (λ z. Standing hs m z (y ∷ st)) e mine
OnShelf-Standing hs m p x (y ∷ st) s (inr on) =
    let o = Stocked-Opened y st s in
    let f = OnShelf-Standing hs m o.next x st o.rest on in
    let away : Apart x.packets y.packets =
      All-OnShelf (λ z. Apart z.packets y.packets) x st o.apart on in
    record {
      next = f.next;
      at = f.at;
      chain = f.chain;
      clear = (inr (Apart-sym x.packets y.packets away), f.clear);
    }
