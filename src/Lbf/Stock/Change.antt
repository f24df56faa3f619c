-- ===== src/Lbf/Stock/Change.antt =====
-- A change of the packets of one hnode of lbf/src/linux/sch_lbf.c.
use new_ip_linux.Common.{
  ◌≡◌, refl, ◌∙◌, sym, ◌∉◌, is_key, Bool-cases, inl, inr, ◌⊎◌, true, false, some, [], ◌∷◌, arith,
  All, ◌==◌, ==_iff, if◌then◌else◌,
}
use mathlib.Core.Path.{subst}
use new_ip_linux.Lbf.Store.{Ptr, Hnode, At}
use new_ip_linux.Lbf.Queue.Chain.{Cells, Pnodes, Chain, SameOutside, agree}
use new_ip_linux.Lbf.Queue.Insert.{WithQueue}
use new_ip_linux.Lbf.Ranges.Line.{Hnodes}
use new_ip_linux.Lbf.Stock.{
  Shelf, Stock, head_of, hnodes_of, Apart, Stocked, Within, Apart-mem, Apart-sym, Apart-Within,
  Within-Apart, Stocked-null, Stocked-Opened, Opened-Stocked, Stocked-nil,
}

-- The hnode at `a` holds the packets `ys`.
abbrev pub put_in : Ptr → Cells → Shelf → Shelf
put_in a ys x = record x { packets = if x.at == a then ys else x.packets }

abbrev pub with_packets : Ptr → Cells → Stock → Stock
with_packets a ys [] = []
with_packets a ys (x ∷ st) = put_in a ys x ∷ with_packets a ys st

-- No packet of `zs` is on a shelf other than that at `a`.
abbrev pub ApartFrom : Ptr → Cells → Stock → Type 0
ApartFrom a zs st = All (λ x. ((x.at == a) ≡ true) ⊎ Apart x.packets zs) st

pub is_key-with_packets :
    (b a : Ptr) (ys : Cells) (st : Stock)
    → is_key b (hnodes_of (with_packets a ys st)) ≡ is_key b (hnodes_of st)
is_key-with_packets b a ys [] = refl
is_key-with_packets b a ys (x ∷ st) = rw (is_key-with_packets b a ys st) refl

module _ (a : Ptr) (ys zs : Cells) (sub : Within ys zs) where
  -- The packets `ys`, and the shelves other than that at `a`.
  Apart-put_in :
      (st : Stock)
      → a ∉ hnodes_of st
      → ApartFrom a zs st
      → All (λ y. Apart y.packets ys) (with_packets a ys st)
  Apart-put_in [] out h = tt
  Apart-put_in (x ∷ st) out (inl e, h) =
      let f = (==_iff x.at a).0 e in absurd (ground (arith, out, f))
  Apart-put_in (x ∷ st) out (inr e, h) =
      let n : (x.at == a) ≡ false = ground (arith, out) in
      rw n (Apart-Within x.packets ys zs sub e, Apart-put_in st (ground (arith, out)) h)

  -- The packets of another shelf, and the shelves behind it.
  Apart-with_packets :
      (xs : Cells) (st : Stock)
      → Apart xs zs
      → All (λ y. Apart y.packets xs) st
      → All (λ y. Apart y.packets xs) (with_packets a ys st)
  Apart-with_packets xs [] e h = tt
  Apart-with_packets xs (x ∷ st) e h = elim (Bool-cases (x.at == a)) [
    | inl y ↦ rw y (Within-Apart xs ys zs sub (Apart-sym xs zs e), Apart-with_packets xs st e (h.1))
    | inr n ↦ rw n (h.0, Apart-with_packets xs st e (h.1))
  ]

  module _ {hs gs : Hnodes} {m g : Pnodes} {h : Hnode} (at : At hs a h)
      (queue : WithQueue hs gs a h (head_of ys)) (same : SameOutside zs m g)
      (chain : Chain g a (head_of ys) ys) where
    At-other : {b : Ptr} {v : Hnode} → (b == a) ≡ false → At hs b v → At gs b v
    At-other {b} n e = record { ne_null = e.ne_null; holds = queue b ∙ (rw n e.holds) }

    At-mine :
        (x : Shelf) (v : Hnode)
        → (x.at == a) ≡ true
        → At hs x.at v
        → At gs x.at (record v { queue = head_of ys })
    At-mine x v y e =
        let f : x.at ≡ a = (==_iff x.at a).0 y in
        let is : At hs a v = subst (λ b. At hs b v) f e in
        let eq : v ≡ h = let i = is.holds in let j = at.holds in cc in
        let w : gs x.at ≡ some (record v { queue = head_of ys }) =
          rw eq (queue x.at ∙ (rw y refl)) in
        record { ne_null = e.ne_null; holds = w }

    -- If the queue of the hnode at `a` is changed to one of the packets `ys`, and nothing else but
    -- the packets `zs`, which are on no other shelf, then the stock is the same but for that queue.
    pub Stocked-with_packets :
        (st : Stock) (p : Ptr)
        → ApartFrom a zs st
        → Stocked hs m p st
        → Stocked gs g p (with_packets a ys st)
    Stocked-with_packets [] p clear s =
        subst (λ b. Stocked gs g b []) (sym (Stocked-null s)) (Stocked-nil gs g)
    Stocked-with_packets (x ∷ st) p clear s =
        let o = Stocked-Opened x st s in
        let rest = Stocked-with_packets st o.next (clear.1) o.rest in
        Opened-Stocked (put_in a ys x) (with_packets a ys st) (elim (Bool-cases (x.at == a)) [
          | inl y ↦
              let f : x.at ≡ a = (==_iff x.at a).0 y in
              record {
                next = o.next;
                first = o.first;
                at = rw y (At-mine x _ y o.at);
                unlinked = o.unlinked;
                chain = rw y (subst (λ b. Chain g b (head_of ys) ys) (sym f) chain);
                fresh = is_key-with_packets x.at a ys st ∙ o.fresh;
                apart = rw y (Apart-put_in st (subst (λ b. b ∉ hnodes_of st) f o.fresh) (clear.1));
                rest = rest;
              }
          | inr n ↦
              let away : Apart x.packets zs = elim (clear.0) [ inl y ↦ cc | inr h ↦ h ] in
              record {
                next = o.next;
                first = o.first;
                at = rw n (At-other n o.at);
                unlinked = o.unlinked;
                chain = rw n (agree (λ b i. same b (Apart-mem b x.packets zs away i)) o.chain);
                fresh = is_key-with_packets x.at a ys st ∙ o.fresh;
                apart = rw n (Apart-with_packets x.packets st away o.apart);
                rest = rest;
              }
        ])

pub with_packets-none :
    (a : Ptr) (ys : Cells) (st : Stock) → a ∉ hnodes_of st → with_packets a ys st ≡ st
with_packets-none a ys [] out = refl
with_packets-none a ys (x ∷ st) out =
    let n : (x.at == a) ≡ false = ground (arith, out) in
    rw (n, with_packets-none a ys st (ground (arith, out))) refl

pub ApartFrom-rest :
    (a : Ptr) (zs : Cells) (st : Stock) → All (λ y. Apart y.packets zs) st → ApartFrom a zs st
ApartFrom-rest a zs [] h = tt
ApartFrom-rest a zs (x ∷ st) h = (inr (h.0), ApartFrom-rest a zs st (h.1))
