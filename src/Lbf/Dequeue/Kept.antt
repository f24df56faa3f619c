-- ===== src/Lbf/Dequeue/Kept.antt =====
-- What every step of `lbf_dequeue` of lbf/src/linux/sch_lbf.c keeps of the queues.
use new_ip_linux.Common.{◌≡◌, sym, some, ◌++◌, All}
use mathlib.Core.Path.{subst}
use new_ip_linux.Lbf.Store.{HnodeHead, Calls, State}
use new_ip_linux.Lbf.Stock.{Stock, Stocked}
use new_ip_linux.Lbf.Stock.Shrunk.{Shrunk, Shrunk-All, Shrunk-IsSorted, Shrunk-ranges}
use new_ip_linux.Lbf.Stock.Valid.{Live, IsLive, IsValid}

-- From `s` to `s'` the queues have lost packets at their heads at most, and are linked as before;
-- the buffers and the settings are untouched, and calls are only added to the record.
pub record Kept (s : State) (l : HnodeHead) (st : Stock) (s' : State) (st' : Stock) : Type 0 where
  pub here : s'.sched.hnode_list ≡ some l
  pub stocked : Stocked s'.hnodes s'.pnodes l.head st'
  pub shrunk : Shrunk st st'
  pub skbs : s'.skbs ≡ s.skbs
  pub limit : s'.limit ≡ s.limit
  pub hops : s'.sched.hops_left ≡ s.sched.hops_left
  pub later : (cs : Calls) × (s'.calls ≡ cs ++ s.calls)

pub Kept-IsValid :
    (s : State) (l : HnodeHead) (st : Stock) (s' : State) (st' : Stock)
    → IsValid s l st
    → Kept s l st s' st'
    → IsValid s' l st'
Kept-IsValid s l st s' st' v k = record {
  here = k.here;
  stocked = k.stocked;
  ranges = Shrunk-ranges st st' k.shrunk v.ranges;
  queues = Shrunk-IsSorted st st' k.shrunk v.queues;
  live =
      subst (λ m. All (λ x. All (λ c. Live m (c.1).realpkt) x.packets) st') (sym k.skbs)
        (Shrunk-All (λ c. IsLive s (c.1).realpkt) st st' k.shrunk v.live);
}
