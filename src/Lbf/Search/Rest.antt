-- ===== src/Lbf/Search/Rest.antt =====
-- From one hnode to the next in the walks of lbf/src/linux/sch_lbf.c.
use new_ip_linux.Common.{
  ◌≡◌, refl, ◌∙◌, ◌∈◌, ◌∉◌, Bool, none, [], ◌∷◌, ◌++◌, arith, All, if_cases, ◌==◌, ==_iff, true,
  false,
}
use mathlib.Core.Path.{subst}
use new_ip_linux.Lbf.Store.{Ptr, State, At}
use new_ip_linux.Lbf.Queue.Chain.{Packet, Cells, Pnodes, Chain, SameOutside, agree}
use new_ip_linux.Lbf.Queue.Insert.{WithQueue}
use new_ip_linux.Lbf.Ranges.Line.{Hnodes, linked}
use new_ip_linux.Lbf.Stock.{
  Shelf, Stock, head_of, holding, hnodes_of, Apart, Stocked, Within, OutsideAll, Apart-mem,
  Apart-sym, Apart-Within, Opened, Opened-Stocked, Chain-head_of,
}
use new_ip_linux.Lbf.Stock.Change.{ApartFrom-rest, Stocked-with_packets, with_packets-none}
use new_ip_linux.Lbf.Search.Expired.{dropped, kept, kept-Within}
use new_ip_linux.Lbf.Search.Leaves.{left_of, Left}

All-append : (P : Ptr × Packet → Type 0) (xs ys : Cells) → All P xs → All P ys → All P (xs ++ ys)
All-append P [] ys h k = k
All-append P (x ∷ xs) ys h k = (h.0, All-append P xs ys (h.1) k)

All-dropped :
    (P : Ptr × Packet → Type 0) (gone : Packet → Bool) (ys : Cells)
    → All P ys
    → All P (dropped gone ys)
unfolding dropped
All-dropped P gone [] h = tt
All-dropped P gone (y ∷ ys) h =
    if_cases (λ (zs : Cells). All P zs) (gone (y.1)) (y ∷ dropped gone ys) []
      (λ e. (h.0, All-dropped P gone ys (h.1))) (λ e. tt)

-- What is freed and not touched any more stays freed.
stays_freed :
    (g g' : Pnodes) (st : Stock) (ys : Cells)
    → ((a : Ptr) → OutsideAll a st → g' a ≡ g a)
    → All (λ c. OutsideAll (c.0) st) ys
    → All (λ c. g (c.0) ≡ none) ys
    → All (λ c. g' (c.0) ≡ none) ys
stays_freed g g' st [] same out h = tt
stays_freed g g' st (y ∷ ys) same out h =
    (same (y.0) (out.0) ∙ h.0, stays_freed g g' st ys same (out.1) (h.1))

outside_one :
    (x : Shelf) (st : Stock) (ys : Cells)
    → Apart ys x.packets
    → All (λ c. OutsideAll (c.0) st) ys
    → All (λ c. OutsideAll (c.0) (x ∷ st)) ys
outside_one x st [] h k = tt
outside_one x st (y ∷ ys) h k = ((h.0, k.0), outside_one x st ys (h.1) (k.1))

outside_none : (ys : Cells) → All (λ c. OutsideAll (c.0) []) ys
outside_none [] = tt
outside_none (y ∷ ys) = (tt, outside_none ys)

-- The packets of a shelf are on no other.
packets_outside :
    (xs : Cells) (st : Stock) → All (λ y. Apart y.packets xs) st → All (λ c. OutsideAll (c.0) st) xs
packets_outside xs [] h = outside_none xs
packets_outside xs (y ∷ st) h =
    outside_one y st xs (Apart-sym y.packets xs (h.0)) (packets_outside xs st (h.1))

mem_outside :
    (a : Ptr) (xs : Cells) (st : Stock)
    → All (λ y. Apart y.packets xs) st
    → a ∈ xs
    → OutsideAll a st
mem_outside a xs [] h i = tt
mem_outside a xs (y ∷ st) h i =
    (Apart-mem a xs y.packets (Apart-sym y.packets xs (h.0)) i, mem_outside a xs st (h.1) i)

All-Apart-Within :
    (xs ys : Cells) (st : Stock)
    → Within xs ys
    → All (λ y. Apart y.packets ys) st
    → All (λ y. Apart y.packets xs) st
All-Apart-Within xs ys [] sub h = tt
All-Apart-Within xs ys (y ∷ st) sub h =
    (Apart-Within y.packets xs ys sub (h.0), All-Apart-Within xs ys st sub (h.1))

module _ (gone : Packet → Bool) (s : State) (p : Ptr) (x : Shelf) (st : Stock)
    (o : Opened s.hnodes s.pnodes p x st) (g : Pnodes) (hs : Hnodes) (q : Ptr)
    (chain : Chain g x.at q (kept gone x.packets))
    (freed : All (λ c. g (c.0) ≡ none) (dropped gone x.packets))
    (same : SameOutside x.packets s.pnodes g)
    (queue : WithQueue s.hnodes hs x.at (linked (holding (x.hnode) x.packets) o.next) q) where
  -- The shelves behind one whose queue has been walked over.
  pub rest-Stocked : Stocked hs g o.next st
  rest-Stocked =
      let ys : Cells = kept gone x.packets in
      let e : q ≡ head_of ys = Chain-head_of chain in
      let all =
        Stocked-with_packets x.at ys x.packets (kept-Within gone x.packets) o.at
          (subst (λ a. WithQueue s.hnodes hs x.at (linked (holding (x.hnode) x.packets) o.next) a) e
            queue)
          same (subst (λ a. Chain g x.at a ys) e chain) st o.next
          (ApartFrom-rest x.at x.packets st o.apart) o.rest in
      subst (λ z. Stocked hs g o.next z) (with_packets-none x.at ys st o.fresh) all

  pub rest-Apart : All (λ y. Apart y.packets (kept gone x.packets)) st
  rest-Apart =
      All-Apart-Within (kept gone x.packets) x.packets st (kept-Within gone x.packets) o.apart

  -- Its hnode.
  pub first-At : At hs x.at (linked (holding (x.hnode) (kept gone x.packets)) o.next)
  first-At =
      let eq : q ≡ head_of (kept gone x.packets) = Chain-head_of chain in
      let itself : (x.at == x.at) ≡ true = (==_iff x.at x.at).1 refl in
      record { ne_null = (o.at).ne_null; holds = queue x.at ∙ (rw (itself, eq) refl) }

  -- The walk over the shelves behind it.
  pub Left-cons :
      (st' : Stock) (lo : Cells) (s' : State)
      → All (λ y. Apart y.packets (kept gone x.packets)) st'
      → x.at ∉ hnodes_of st'
      → Left (record s { pnodes = g; hnodes = hs }) o.next st st' lo s'
      → Left s p (x ∷ st) (left_of gone x ∷ st') (dropped gone x.packets ++ lo) s'
  Left-cons st' lo s' apart fresh (g', hs', e, stocked, fr, so, sh) =
      let ys : Cells = kept gone x.packets in
      let eq : q ≡ head_of ys = Chain-head_of chain in
      (
        g',
        hs',
        e,
        Opened-Stocked (left_of gone x) st' (record {
          next = o.next;
          first = o.first;
          at = record { ne_null = (o.at).ne_null; holds = sh x.at o.fresh ∙ (first-At).holds };
          unlinked = o.unlinked;
          chain =
              agree (λ a i. so a (mem_outside a ys st rest-Apart i))
                (subst (λ a. Chain g x.at a ys) eq chain);
          fresh = fresh;
          apart = apart;
          rest = stocked;
        }),
        All-append (λ c. g' (c.0) ≡ none) (dropped gone x.packets) lo
            (stays_freed g g' st (dropped gone x.packets) so
              (All-dropped (λ c. OutsideAll (c.0) st) gone x.packets
                (packets_outside x.packets st o.apart))
              freed)
            fr,
        (λ a out. so a (out.1) ∙ same a (out.0)),
        (λ a out.
            let n : (a == x.at) ≡ false = ground (arith, out) in
            sh a (ground (arith, out)) ∙ (queue a ∙ (rw n refl))),
      )
