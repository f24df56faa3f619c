-- ===== src/Lbf/Stock/Heads.antt =====
-- The first packets of the queues of lbf/src/linux/sch_lbf.c.
use new_ip_linux.Common.{
  ◌≡◌, refl, sym, ap, ◌∉◌, inl, inr, ◌⊎◌, true, false, [], ◌∷◌, arith, All, ◌==◌, ==_iff,
  if◌then◌else◌,
}
use mathlib.Core.Path.{subst}
use new_ip_linux.Lbf.Store.{Ptr, null, At}
use new_ip_linux.Lbf.Queue.Chain.{Packet, Cells, Pnodes, Points, Chain, cons}
use new_ip_linux.Lbf.Ranges.Line.{Hnodes, linked}
use new_ip_linux.Lbf.Stock.{
  Shelf, Stock, head_of, holding, hnodes_of, Apart, Apart-sym, Stocked, Stocked-Opened,
}
use new_ip_linux.Lbf.Stock.Change.{with_packets, ApartFrom, ApartFrom-rest, with_packets-none}

-- The packet `v` at `r` is the first of a queue.
abbrev pub Leads : Ptr → Packet → Stock → Type 0
Leads r v [] = ⊥
Leads r v (x ∷ st) = ((xs : Cells) × (x.packets ≡ (r, v) ∷ xs)) ⊎ Leads r v st

-- The queue without its first packet, if that is the one at `r`.
abbrev pub behind : Ptr → Cells → Cells
behind r [] = []
behind r (x ∷ xs) = if x.0 == r then xs else x ∷ xs

abbrev pub without : Ptr → Stock → Stock
without r [] = []
without r (x ∷ st) = record x { packets = behind r x.packets } ∷ without r st

abbrev pub OnShelf : Shelf → Stock → Type 0
OnShelf x [] = ⊥
OnShelf x (y ∷ st) = (y ≡ x) ⊎ OnShelf x st

pub All-OnShelf : (P : Shelf → Type 0) (x : Shelf) (st : Stock) → All P st → OnShelf x st → P x
All-OnShelf P x [] h o = absurd o
All-OnShelf P x (y ∷ st) h (inl e) = subst P e (h.0)
All-OnShelf P x (y ∷ st) h (inr o) = All-OnShelf P x st (h.1) o

-- Where the packet `v` at `r` is the first of a queue.
pub record Located (hs : Hnodes) (m : Pnodes) (r : Ptr) (v : Packet) (st : Stock) : Type 0 where
  pub x : Shelf
  pub next : Ptr
  pub xs : Cells
  pub on : OnShelf x st
  pub holds : x.packets ≡ (r, v) ∷ xs
  pub at : At hs x.at (linked (holding (x.hnode) ((r, v) ∷ xs)) next)
  pub unlinked : (x.hnode).prev_hnode ≡ null
  pub chain : Chain m x.at r ((r, v) ∷ xs)
  pub clear : ApartFrom x.at ((r, v) ∷ xs) st
  pub rest : with_packets x.at xs st ≡ without r st

behind-none : (r : Ptr) (xs : Cells) → r ∉ xs → behind r xs ≡ xs
behind-none r [] out = refl
behind-none r (y ∷ xs) out = ground arith

without-none : (r : Ptr) (st : Stock) → All (λ y. r ∉ y.packets) st → without r st ≡ st
without-none r [] out = refl
without-none r (y ∷ st) out = rw (behind-none r y.packets (out.0), without-none r st (out.1)) refl

first-Apart :
    (r : Ptr) (v : Packet) (xs : Cells) (st : Stock)
    → All (λ y. Apart y.packets ((r, v) ∷ xs)) st
    → All (λ y. r ∉ y.packets) st
first-Apart r v xs [] h = tt
first-Apart r v xs (y ∷ st) h =
    ((Apart-sym y.packets ((r, v) ∷ xs) (h.0)).0, first-Apart r v xs st (h.1))

pub other_at :
    (a : Ptr) (x : Shelf) (st : Stock) → a ∉ hnodes_of st → OnShelf x st → (a == x.at) ≡ false
other_at a x [] out o = absurd o
other_at a x (y ∷ st) out (inl e) =
    subst (λ (z : Shelf). (a == z.at) ≡ false) e (ground (arith, out))
other_at a x (y ∷ st) out (inr o) = other_at a x st (ground (arith, out)) o

pub Leads-Located :
    (hs : Hnodes) (m : Pnodes) (r : Ptr) (v : Packet) (p : Ptr) (st : Stock)
    → Stocked hs m p st
    → Leads r v st
    → Located hs m r v st
Leads-Located hs m r v p [] s l = absurd l
Leads-Located hs m r v p (x ∷ st) s (inl (xs, e)) =
    let o = Stocked-Opened x st s in
    let itself : (x.at == x.at) ≡ true = (==_iff x.at x.at).1 refl in
    let mine : (r == r) ≡ true = (==_iff r r).1 refl in
    let away : All (λ y. Apart y.packets ((r, v) ∷ xs)) st =
      subst (λ zs. All (λ y. Apart y.packets zs) st) e o.apart in
    record {
      x = x;
      next = o.next;
      xs = xs;
      on = inl refl;
      holds = e;
      at = subst (λ zs. At hs x.at (linked (holding (x.hnode) zs) o.next)) e o.at;
      unlinked = o.unlinked;
      chain = subst (λ zs. Chain m x.at (head_of zs) zs) e o.chain;
      clear = (inl itself, ApartFrom-rest x.at ((r, v) ∷ xs) st away);
      rest =
          rw
            (
              itself,
              with_packets-none x.at xs st o.fresh,
              without-none r st (first-Apart r v xs st away),
            )
            (ap (λ ys. record x { packets = ys } ∷ st)
              (let is : behind r x.packets ≡ xs = rw (e, mine) refl in sym is));
    }
Leads-Located hs m r v p (y ∷ st) s (inr l) =
    let o = Stocked-Opened y st s in
    let f = Leads-Located hs m r v o.next st o.rest l in
    let other : (y.at == f.x.at) ≡ false = other_at y.at (f.x) st o.fresh f.on in
    let away : Apart ((r, v) ∷ f.xs) y.packets =
      subst (λ zs. Apart zs y.packets) f.holds
        (All-OnShelf (λ z. Apart z.packets y.packets) (f.x) st o.apart f.on) in
    record {
      x = f.x;
      next = f.next;
      xs = f.xs;
      on = inr f.on;
      holds = f.holds;
      at = f.at;
      unlinked = f.unlinked;
      chain = f.chain;
      clear = (inr (Apart-sym ((r, v) ∷ f.xs) y.packets away), f.clear);
      rest = rw (other, behind-none r y.packets (away.0), f.rest) refl;
    }

pub Chain-cons :
    {m : Pnodes} {o p r : Ptr} {v : Packet} {xs : Cells}
    → Chain m o p ((r, v) ∷ xs)
    → (q : Ptr) × Points m r v q o × (r ∉ xs) × Chain m null q xs
Chain-cons (cons {q = q} e out c) = (q, e, out, c)

-- A first packet is a live pnode.
pub Leads-Points :
    (hs : Hnodes) (m : Pnodes) (r : Ptr) (v : Packet) (p : Ptr) (st : Stock)
    → Stocked hs m p st
    → Leads r v st
    → (q : Ptr) × (o : Ptr) × Points m r v q o
Leads-Points hs m r v p st s l =
    let f = Leads-Located hs m r v p st s l in
    let (q, e, out, c) = Chain-cons f.chain in (q, f.x.at, e)

pub Leads-unique :
    (hs : Hnodes) (m : Pnodes) (r : Ptr) (v w : Packet) (p : Ptr) (st : Stock)
    → Stocked hs m p st
    → Leads r v st
    → Leads r w st
    → v.tmin_nsec ≡ w.tmin_nsec
Leads-unique hs m r v w p st s l k =
    let (q, o, e) = Leads-Points hs m r v p st s l in
    let (q', o', e') = Leads-Points hs m r w p st s k in let a = e.holds in let b = e'.holds in cc

pub Leads-without :
    (a r : Ptr) (v : Packet) (st : Stock)
    → (a == r) ≡ false
    → Leads a v st
    → Leads a v (without r st)
Leads-without a r v [] n l = absurd l
Leads-without a r v (x ∷ st) n (inl (xs, e)) = inl (xs, rw (e, n) refl)
Leads-without a r v (x ∷ st) n (inr l) = inr (Leads-without a r v st n l)

pub Leads-All :
    (P : Ptr × Packet → Type 0) (r : Ptr) (v : Packet) (st : Stock)
    → All (λ x. All P x.packets) st
    → Leads r v st
    → P (r, v)
Leads-All P r v [] h l = absurd l
Leads-All P r v (x ∷ st) h (inl (xs, e)) =
    let k : All P ((r, v) ∷ xs) = subst (λ c. All P c) e (h.0) in k.0
Leads-All P r v (x ∷ st) h (inr l) = Leads-All P r v st (h.1) l
