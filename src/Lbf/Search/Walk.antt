-- ===== src/Lbf/Search/Walk.antt =====
-- `search_now_pnode` of lbf/src/linux/sch_lbf.c over all hnodes, with expired packets in the queues.
use new_ip_linux.Common.{
  ℕ, zero, suc, ◌<◌, ◌≡◌, refl, sym, ◌∙◌, ap, Bool, Bool-cases, inl, inr, some, [], ◌∷◌, arith,
  length, All, leb, if◌then◌else◌, false,
}
use mathlib.Core.Path.{subst}
use new_ip_linux.Lbf.Store.{Ptr, null, HnodeHead, Kernel, Call, State, At, Cmd}
use new_ip_linux.Lbf.Store.Access.{not_null, load_hnode-At, get_sched, psched_get_time, time_ns}
use new_ip_linux.Lbf.Store.Returns.{Returns, returns, bind, mono}
use new_ip_linux.Lbf.Queue.Chain.{Cells, Pnodes}
use new_ip_linux.Lbf.Ranges.Line.{Hnodes, linked}
use new_ip_linux.Lbf.Stock.{
  Shelf, Stock, head_of, holding, Apart, Stocked, Opened, Stocked-null, Stocked-Opened,
}
use new_ip_linux.Lbf.Search.{Found, send, go_on, and_found, walk_now, search_now_pnode}
use new_ip_linux.Lbf.Search.Expired.{kept, drops, Scanned}
use new_ip_linux.Lbf.Search.Scan.{found_in, scan_now-Scanned}
use new_ip_linux.Lbf.Search.Leaves.{
  left, lost, is_key-left, Apart-left, Left, Left-refl, Left-stops, Left-goes_on,
}
use new_ip_linux.Lbf.Search.Rest.{rest-Apart, first-At, rest-Stocked, Left-cons}

-- Whether a queue has a first packet and that may leave.
abbrev pub starts_due : ℕ → Cells → Bool
starts_due now [] = false
starts_due now (x ∷ xs) = leb ((x.1).tmin_nsec) now

-- The packet to send: that of the first shelf where one may leave after the expired are dropped.
abbrev pub sent : (now hops : ℕ) → Stock → Ptr
sent now hops [] = null
sent now hops (x ∷ st) =
    let ys = kept (drops now hops) x.packets in
    if starts_due now ys then head_of ys else sent now hops st

-- What the walk leaves, from the hnode at `p` on: the packets that it drops are taken off and
-- freed, on each hnode up to the one of the packet to send.
abbrev pub Walked : (s : State) (now : ℕ) (p : Ptr) (st : Stock) → Ptr → State → Type 0
Walked s now p st r s' =
    (r ≡ sent now s.sched.hops_left st)
    × Left s p st (left (drops now s.sched.hops_left) (starts_due now) st)
        (lost (drops now s.sched.hops_left) (starts_due now) st) s'

found_in-starts_due :
    (now : ℕ) (at : Ptr) (ys : Cells)
    → found_in now at ys ≡ (if starts_due now ys then send (head_of ys) else go_on at)
found_in-starts_due now at [] = refl
found_in-starts_due now at (y ∷ ys) = refl

module _ (now : ℕ) where
  -- From one shelf to the next.
  and_found-Walked :
      (s s₁ : State) (p : Ptr) (x : Shelf) (st : Stock) (found : Found) (k : Ptr → Cmd Ptr)
      (o : Opened s.hnodes s.pnodes p x st)
      → Scanned
          (drops now s.sched.hops_left)
          (found_in now x.at)
          s
          x.at
          (linked (holding (x.hnode) x.packets) o.next)
          x.packets
          found
          s₁
      → ((g : Pnodes) (hs : Hnodes)
          → At hs x.at
              (linked (holding (x.hnode) (kept (drops now s.sched.hops_left) x.packets)) o.next)
          → Stocked hs g o.next st
          → Returns
              (Walked (record s { pnodes = g; hnodes = hs }) now o.next st)
              (k x.at (record s { pnodes = g; hnodes = hs })))
      → Returns (Walked s now p (x ∷ st)) (and_found found k s₁)
  and_found-Walked s s₁ p x st found k o (g, hs, q, e, f, c, fr, so, wq) ih =
      let gone = drops now s.sched.hops_left in
      let ys : Cells = kept gone x.packets in
      let rest = rest-Stocked gone s p x st o g hs q c fr so wq in
      let put = Left-cons gone s p x st o g hs q c fr so wq in
      let away : All (λ y. Apart y.packets ys) st = rest-Apart gone s p x st o g hs q c fr so wq in
      let stops = starts_due now in
      elim (Bool-cases (starts_due now ys)) [
        | inl y ↦
            rw (e, f, found_in-starts_due now x.at ys, y)
              (returns (
                ap (λ b. if b then head_of ys else sent now s.sched.hops_left st) (sym y),
                Left-stops gone stops s p x st _ y
                    (put st [] _ away o.fresh (Left-refl _ o.next st rest)),
              ))
        | inr n ↦
            rw (e, f, found_in-starts_due now x.at ys, n)
              (mono (ih g hs (first-At gone s p x st o g hs q c fr so wq) rest) (λ r s' w. (
                w.0 ∙ ap (λ b. if b then head_of ys else sent now s.sched.hops_left st) (sym n),
                Left-goes_on gone stops s p x st s' n (
                    put _ _ s' (Apart-left gone stops ys st away)
                      (is_key-left gone stops x.at st ∙ o.fresh) (w.1)),
              )))
      ]

  walk_now-Walked :
      (fuel k : ℕ) (s : State) (p : Ptr) (st : Stock)
      → Stocked s.hnodes s.pnodes p st
      → All (λ x. length x.packets < fuel) st
      → length st < k
      → Returns (Walked s now p st) (walk_now fuel k now p s)
  unfolding walk_now
  walk_now-Walked fuel zero s p st stocked small enough = absurd (omega arith)
  walk_now-Walked fuel (suc k) s p [] stocked small enough = rw (Stocked-null stocked) (
      returns (
        refl,
        Left-refl s null []
            (subst (λ a. Stocked s.hnodes s.pnodes a []) (Stocked-null stocked) stocked),
      ))
  walk_now-Walked fuel (suc k) s p (x ∷ st) stocked small enough =
      let o = Stocked-Opened x st stocked in
      let at = o.at in
      subst (λ a. Returns (Walked s now p (x ∷ st)) (walk_now fuel (suc k) now a s)) (sym o.first)
        (rw (not_null at, load_hnode-At s at)
          (bind
            (scan_now-Scanned now fuel s x.at (linked (holding (x.hnode) x.packets) o.next) o.chain
              at o.unlinked refl (small.0))
            (λ found s₁ scanned.
              and_found-Walked s s₁ p x st found _ o scanned (λ g hs at' stocked'.
                rw (load_hnode-At (record s { pnodes = g; hnodes = hs }) at') (
                  walk_now-Walked fuel k (record s { pnodes = g; hnodes = hs }) o.next st stocked'
                    (small.1) (omega arith))))))

-- Let no hnode have a link back, and no two queues share a packet. With more fuel than there are
-- hnodes, and than packets in each queue, `search_now_pnode` faults nowhere and returns the packet
-- of the first hnode, in the order of their list, whose first packet that is left may leave, or NULL
-- if there is none. Left are those that remain when, from the head of the queue on, the packets that
-- may leave and have expired on the last hop are taken off. On each hnode up to the one of the
-- result these are freed, and the queues then hold what is left and the others what they held, in
-- lists that are linked as before. Nothing else is changed but the record of calls.
pub search_now_pnode-Walked :
    (kernel : Kernel) (s : State) (l : HnodeHead) (st : Stock) (fuel : ℕ)
    → s.sched.hnode_list ≡ some l
    → Stocked s.hnodes s.pnodes l.head st
    → All (λ x. length x.packets < fuel) st
    → length st < fuel
    → Returns
        (Walked
          (record s { calls = Call.psched_get_time ∷ s.calls })
          (kernel.ticks2ns (kernel.get_time s.calls))
          l.head
          st)
        (search_now_pnode kernel fuel s)
unfolding search_now_pnode get_sched time_ns psched_get_time
search_now_pnode-Walked kernel s l st fuel has stocked small enough =
    let s1 : State = record s { calls = Call.psched_get_time ∷ s.calls } in
    simp has (
      walk_now-Walked (kernel.ticks2ns (kernel.get_time s.calls)) fuel fuel s1 l.head st stocked
        small enough)
