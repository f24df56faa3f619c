-- ===== src/Lbf/Dequeue/Next.antt =====
-- The first block of `lbf_dequeue` of lbf/src/linux/sch_lbf.c: the packet of the watchdog.
use new_ip_linux.Common.{
  ◌==◌, false, ℕ, ◌<◌, ◌≤◌, ◌≡◌, refl, Bool-cases, inl, inr, ◌⊎◌, some, [], ◌∷◌, arith, ltb,
}
use new_ip_linux.Lbf.Store.{Ptr, null, HnodeHead, Call, State, ok}
use new_ip_linux.Lbf.Store.Access.{not_null, load_pnode-At, get_sched, update_sched, call}
use new_ip_linux.Lbf.Store.Returns.{Returns, returns, bind}
use new_ip_linux.Lbf.Queue.Chain.{Packet, node}
use new_ip_linux.Lbf.Stock.{Stock, Stocked}
use new_ip_linux.Lbf.Stock.Heads.{Leads, without, Leads-Points, Leads-without}
use new_ip_linux.Lbf.Stock.Shrunk.{without-Shrunk}
use new_ip_linux.Lbf.Search.{is_expired}
use new_ip_linux.Lbf.Dequeue.{take_next}
use new_ip_linux.Lbf.Dequeue.Kept.{Kept}
use new_ip_linux.Lbf.Dequeue.Take.{take_pnode-Taken}

pub take_next-null : (now : ℕ) (s : State) → s.sched.next_pnode ≡ null → take_next now s ≡ ok null s
unfolding take_next get_sched
take_next-null now s e = simp e refl

-- The packet of the watchdog may not leave yet and nothing is changed; or it is taken off its queue,
-- and sent or dropped.
abbrev pub TookNext :
    (s : State) (now : ℕ) (l : HnodeHead) (st : Stock) (v : Packet) → Ptr → State → Type 0
TookNext s now l st v r s' =
    (r ≡ null) × (s' ≡ s) × (now < v.tmin_nsec)
    ⊎ ((st' : Stock) × Kept s l st s' st'
        × ((r ≡ null) ⊎ (r ≡ v.realpkt) × (v.tmin_nsec ≤ now))
        × (s'.sched.next_pnode ≡ null)
        × ((a : Ptr) (w : Packet)
            → Leads a w st
            → (a == s.sched.next_pnode) ≡ false
            → Leads a w st'))

module _ (now : ℕ) (s : State) (l : HnodeHead) (st : Stock) (v : Packet)
    (here : s.sched.hnode_list ≡ some l) (stocked : Stocked s.hnodes s.pnodes l.head st)
    (leads : Leads s.sched.next_pnode v st) where
  pub take_next-TookNext : Returns (TookNext s now l st v) (take_next now s)
  unfolding take_next get_sched call update_sched
  take_next-TookNext =
      let r : Ptr = s.sched.next_pnode in
      let (q, o, at) = Leads-Points s.hnodes s.pnodes r v l.head st stocked leads in
      let s1 : State = record s { calls = Call.qstats_drop ∷ s.calls } in
      rw (not_null at, load_pnode-At s at)
        (elim (Bool-cases (is_expired now s.sched.hops_left (node v q o))) [
          | inl late ↦ rw late (
              bind (take_pnode-Taken s1 l.head st r v stocked leads)
                (λ _ s₂ (g, hs, e, after, gone). rw e (
                  returns (
                    inr (
                      without r st,
                      record {
                        here = here;
                        stocked = after;
                        shrunk = without-Shrunk r st;
                        skbs = refl;
                        limit = refl;
                        hops = refl;
                        later = (Call.qstats_drop ∷ [], refl);
                      },
                      inl refl,
                      refl,
                      (λ a w k n. Leads-without a r w st n k),
                    )))))
          | inr fresh ↦ elim (Bool-cases (ltb now v.tmin_nsec)) [
            | inl early ↦ rw (fresh, early) (returns (inl (refl, refl, ground (arith, early))))
            | inr due ↦
                rw (fresh, due)
                  (bind (take_pnode-Taken s l.head st r v stocked leads)
                    (λ _ s₂ (g, hs, e, after, gone). rw e (
                      returns (
                        inr (
                          without r st,
                          record {
                            here = here;
                            stocked = after;
                            shrunk = without-Shrunk r st;
                            skbs = refl;
                            limit = refl;
                            hops = refl;
                            later = ([], refl);
                          },
                          inr (refl, ground (arith, due)),
                          refl,
                          (λ a w k n. Leads-without a r w st n k),
                        )))))
          ]
        ])
