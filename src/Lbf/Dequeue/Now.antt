-- ===== src/Lbf/Dequeue/Now.antt =====
-- The second block of `lbf_dequeue` of lbf/src/linux/sch_lbf.c: a packet that may leave now.
use new_ip_linux.Common.{
  ℕ, ◌≤◌, ◌≡◌, refl, ◌∙◌, sym, Bool-cases, inl, inr, ◌⊎◌, true, false, some, [], ◌∷◌, arith, ◌==◌,
  ==_iff, leb,
}
use mathlib.Core.Path.{subst}
use new_ip_linux.Lbf.Store.{Ptr, null, HnodeHead, Call, Kernel, State}
use new_ip_linux.Lbf.Store.Access.{load_pnode-At}
use new_ip_linux.Lbf.Store.Returns.{Returns, returns, bind}
use new_ip_linux.Lbf.Queue.Chain.{Packet, Pnodes}
use new_ip_linux.Lbf.Ranges.Line.{Hnodes}
use new_ip_linux.Lbf.Stock.{Stock, Stocked}
use new_ip_linux.Lbf.Stock.Heads.{Leads, without, Leads-Points, Leads-unique, Leads-without}
use new_ip_linux.Lbf.Stock.Shrunk.{Shrunk, Shrunk-trans, without-Shrunk}
use new_ip_linux.Lbf.Stock.Queued.{IsQueued, Leads-IsQueued, Shrunk-IsQueued}
use new_ip_linux.Lbf.Search.Expired.{drops}
use new_ip_linux.Lbf.Search.Leaves.{left}
use new_ip_linux.Lbf.Search.Walk.{starts_due, search_now_pnode-Walked}
use new_ip_linux.Lbf.Search.Missed.{AllGone, sent-AllGone}
use new_ip_linux.Lbf.Search.Keeps.{left-Shrunk, Leads-left, Due, sent-Due}
use new_ip_linux.Lbf.Dequeue.{take_now}
use new_ip_linux.Lbf.Dequeue.Kept.{Kept}
use new_ip_linux.Lbf.Stock.Valid.{Fits}
use new_ip_linux.Lbf.Dequeue.Take.{take_pnode-Taken}

-- `r` is the buffer of a packet that is queued and may leave.
abbrev pub Sends : (now : ℕ) → Stock → Ptr → Type 0
Sends now st r = (c : Ptr × Packet) × IsQueued c st × (r ≡ (c.1).realpkt) × ((c.1).tmin_nsec ≤ now)

-- The block returns the buffer of a packet that may leave, or `skb` where all first packets that may
-- have expired. The queues have lost packets at most at their heads, and those first packets that may
-- not leave yet are still there.
abbrev pub TookNow :
    (s : State) (now : ℕ) (l : HnodeHead) (st : Stock) (skb : Ptr) → Ptr → State → Type 0
TookNow s now l st skb r s' =
    (st' : Stock) × Kept s l st s' st'
    × ((r ≡ skb) × AllGone now s.sched.hops_left st ⊎ Sends now st r)
    × (s'.sched ≡ s.sched)
    × (s'.calls ≡ Call.psched_get_time ∷ s.calls)
    × ((a : Ptr) (v : Packet) → Leads a v st → leb v.tmin_nsec now ≡ false → Leads a v st')

not_dropped : (now hops : ℕ) (v : Packet) → leb v.tmin_nsec now ≡ false → drops now hops v ≡ false
not_dropped now hops v e = rw e refl

module _ (kernel : Kernel) (fuel : ℕ) (s : State) (l : HnodeHead) (st : Stock)
    (here : s.sched.hnode_list ≡ some l) (stocked : Stocked s.hnodes s.pnodes l.head st)
    (fits : Fits fuel st) where
  abbrev now : ℕ
  now = kernel.ticks2ns (kernel.get_time s.calls)

  -- The hnodes when the search has ended.
  abbrev found : Stock
  found = left (drops now s.sched.hops_left) (starts_due now) st

  taken-TookNow :
      (skb r : Ptr) (v : Packet) (s' : State) (g : Pnodes) (hs : Hnodes) (m : Pnodes) (ms : Hnodes)
      → s' ≡ record s { pnodes = g; hnodes = hs; calls = Call.psched_get_time ∷ s.calls }
      → Stocked ms m l.head found
      → Leads r v found
      → leb v.tmin_nsec now ≡ true
      → Stocked hs g l.head (without r found)
      → TookNow s now l st skb v.realpkt s'
  taken-TookNow skb r v s' g hs m ms e before leads due after =
      let shrunk : Shrunk st found =
        left-Shrunk (drops now s.sched.hops_left) (starts_due now) st in
      rw e (
        without r found,
        record {
          here = here;
          stocked = after;
          shrunk = Shrunk-trans st found (without r found) shrunk (without-Shrunk r found);
          skbs = refl;
          limit = refl;
          hops = refl;
          later = (Call.psched_get_time ∷ [], refl);
        },
        inr (
          (r, v),
          Shrunk-IsQueued (r, v) st found shrunk (Leads-IsQueued r v found leads),
          refl,
          ground (arith, due),
        ),
        refl,
        refl,
        (λ a w k early.
            let k' : Leads a w found =
              Leads-left (drops now s.sched.hops_left) (starts_due now) a w st
                (not_dropped now s.sched.hops_left w early) k in
            Leads-without a r w found
              (elim (Bool-cases (a == r)) [
                | inr n ↦ n
                | inl y ↦
                    let is : a ≡ r = (==_iff a r).0 y in
                    let k'' : Leads r w found = subst (λ b. Leads b w found) is k' in
                    let same = Leads-unique ms m r v w l.head found before leads k'' in
                    ground (arith, same, due, early)
              ])
              k'),
      )

  pub take_now-TookNow : (skb : Ptr) → Returns (TookNow s now l st skb) (take_now kernel fuel skb s)
  unfolding take_now
  take_now-TookNow skb =
      bind (search_now_pnode-Walked kernel s l st fuel here stocked fits.queues fits.hnodes)
        (λ r s₁ (is, (m, ms, e, before, freed, outside, same)). elim (Bool-cases (r == null)) [
          | inl y ↦
              rw (y, e)
                (returns (
                  found,
                  record {
                    here = here;
                    stocked = before;
                    shrunk = left-Shrunk (drops now s.sched.hops_left) (starts_due now) st;
                    skbs = refl;
                    limit = refl;
                    hops = refl;
                    later = (Call.psched_get_time ∷ [], refl);
                  },
                  inl (
                    refl,
                    sent-AllGone s.hnodes s.pnodes now s.sched.hops_left l.head st stocked
                        (sym is ∙ (let z : r ≡ null = (==_iff r null).0 y in z)),
                  ),
                  refl,
                  refl,
                  (λ a w k early.
                      Leads-left (drops now s.sched.hops_left) (starts_due now) a w st
                        (not_dropped now s.sched.hops_left w early) k),
                ))
          | inr n ↦
              let due : Due now r found =
                subst (λ b. Due now b found) (sym is) (sent-Due now s.sched.hops_left st) in
              elim due [
                | inl z ↦ absurd (ground (arith, z, n))
                | inr (v, leads, ready) ↦
                    let s1 : State = record s {
                      pnodes = m;
                      hnodes = ms;
                      calls = Call.psched_get_time ∷ s.calls;
                    } in
                    let (q, o, at) = Leads-Points ms m r v l.head found before leads in
                    rw (n, e, load_pnode-At s1 at)
                      (bind (take_pnode-Taken s1 l.head found r v before leads)
                        (λ _ s₂ (g, hs, e', after, gone).
                          returns (taken-TookNow skb r v s₂ g hs m ms e' before leads ready after)))
              ]
        ])
