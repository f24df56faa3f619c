-- ===== src/Lbf/Dequeue/Watch.antt =====
-- The third block of `lbf_dequeue` of lbf/src/linux/sch_lbf.c: the next packet of the watchdog.
use new_ip_linux.Common.{
  ℕ, ◌≡◌, refl, Bool-cases, inl, inr, ◌⊎◌, false, some, [], ◌∷◌, arith, ◌==◌, not, ◌&&◌,
}
use new_ip_linux.Lbf.Store.{null, HnodeHead, Call, Kernel, State}
use new_ip_linux.Lbf.Store.Access.{load_pnode-At, get_sched, update_sched, call}
use new_ip_linux.Lbf.Store.Returns.{Returns, returns, bind}
use new_ip_linux.Lbf.Queue.Chain.{Packet}
use new_ip_linux.Lbf.Stock.{Stock, Stocked}
use new_ip_linux.Lbf.Stock.Heads.{Leads, Leads-Points}
use new_ip_linux.Lbf.Stock.Valid.{Fits, IsWatched}
use new_ip_linux.Lbf.Search.Expired.{expires}
use new_ip_linux.Lbf.Search.Leaves.{left}
use new_ip_linux.Lbf.Search.Soonest.{never, search_next_pnode-WalkedOn}
use new_ip_linux.Lbf.Search.Keeps.{left-Shrunk, Leads-left}
use new_ip_linux.Lbf.Dequeue.{watch_next}
use new_ip_linux.Lbf.Dequeue.Kept.{Kept}

-- The watchdog's packet, if there is one, is the first of a queue and has not expired.
abbrev pub StaysWatched : State → ℕ → Stock → Type 0
StaysWatched s now st =
    (s.sched.next_pnode ≡ null)
    ⊎ ((v : Packet) × Leads s.sched.next_pnode v st × (expires now s.sched.hops_left v ≡ false))

abbrev pub Watches : (s : State) (l : HnodeHead) (st : Stock) → Unit {0} → State → Type 0
Watches s l st _ s' = (st' : Stock) × Kept s l st s' st' × IsWatched s' st'

module _ (kernel : Kernel) (fuel : ℕ) (s : State) (l : HnodeHead) (st : Stock)
    (here : s.sched.hnode_list ≡ some l) (stocked : Stocked s.hnodes s.pnodes l.head st)
    (fits : Fits fuel st) where
  pub watch_next-Watches :
      StaysWatched s (kernel.ticks2ns (kernel.get_time s.calls)) st
      → Returns (Watches s l st) (watch_next kernel fuel s)
  unfolding watch_next get_sched update_sched call
  watch_next-Watches watched =
      let now : ℕ = kernel.ticks2ns (kernel.get_time s.calls) in
      let gone = expires now s.sched.hops_left in
      let found : Stock = left gone never st in
      let calls = Call.psched_get_time ∷ s.calls in
      bind (search_next_pnode-WalkedOn kernel s l st fuel here stocked fits.queues fits.hnodes)
        (λ r s₁ (best, (m, ms, e, after, freed, outside, same)).
          let s1 : State = record s { pnodes = m; hnodes = ms; calls = calls } in
          rw e (elim (Bool-cases (not (r == null) && not (r == s.sched.next_pnode))) [
            | inr old ↦ rw old (
                returns (
                  found,
                  record {
                    here = here;
                    stocked = after;
                    shrunk = left-Shrunk gone never st;
                    skbs = refl;
                    limit = refl;
                    hops = refl;
                    later = (Call.psched_get_time ∷ [], refl);
                  },
                  elim watched [
                    | inl z ↦ inl z
                    | inr (v, leads, stays) ↦
                        inr (v, Leads-left gone never s.sched.next_pnode v st stays leads)
                  ],
                ))
            | inl new ↦ elim best [
              | inl (z, far) ↦ absurd (ground (arith, z, new))
              | inr (v, leads, less, far) ↦
                  let s2 : State = record s1 { sched = record (s.sched) { next_pnode = r } } in
                  let (q, o, at) = Leads-Points ms m r v l.head found after leads in
                  rw (new, load_pnode-At s2 at)
                    (returns (
                      found,
                      record {
                        here = here;
                        stocked = after;
                        shrunk = left-Shrunk gone never st;
                        skbs = refl;
                        limit = refl;
                        hops = refl;
                        later = (
                          Call.watchdog_schedule_ns v.tmin_nsec ∷ Call.psched_get_time ∷ [],
                          refl,
                        );
                      },
                      inr (v, leads),
                    ))
            ]
          ]))
