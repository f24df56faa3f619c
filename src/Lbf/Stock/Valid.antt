-- ===== src/Lbf/Stock/Valid.antt =====
-- The invariant of the queue discipline of lbf/src/linux/sch_lbf.c.
use new_ip_linux.Common.{
  ℕ, ◌<◌, ◌≡◌, refl, ◌∙◌, ◌⊎◌, inl, inr, Bool-cases, ◌==◌, Option, none, some, [], ◌∷◌, All, length,
  arith,
}
use new_ip_linux.Lbf.Store.{Ptr, null, HnodeHead, Skb, Sched, Calls, State, At, write}
use new_ip_linux.Lbf.Queue.Chain.{Packet, Cells}
use new_ip_linux.Lbf.Queue.Order.{IsSorted}
use new_ip_linux.Lbf.Ranges.Order.{IsSorted as InOrder}
use new_ip_linux.Lbf.Enqueue.Room.{IsWhole}
use new_ip_linux.Lbf.Stock.{Stock, Stocked, hnodes_of}
use new_ip_linux.Lbf.Stock.Heads.{Leads}
use new_ip_linux.Lbf.Stock.Shrunk.{Shrunk, Shrunk-small, length-Shrunk}

-- `p` is a live buffer, with a whole packet.
abbrev pub Live : (Ptr → Option Skb) → Ptr → Type 0
Live m p = (b : Skb) × At m p b × IsWhole b

abbrev pub IsLive : State → Ptr → Type 0
IsLive s p = Live s.skbs p

-- The buffers of all packets in the queues are live.
abbrev pub AllLive : State → Stock → Type 0
AllLive s st = All (λ x. All (λ c. IsLive s (c.1).realpkt) x.packets) st

-- The fuel is more than there are hnodes, and than packets in each queue.
pub record Fits (fuel : ℕ) (st : Stock) : Type 0 where
  pub queues : All (λ x. length x.packets < fuel) st
  pub hnodes : length st < fuel

pub Shrunk-Fits : (fuel : ℕ) (st st' : Stock) → Shrunk st st' → Fits fuel st → Fits fuel st'
Shrunk-Fits fuel st st' h f = record {
  queues = Shrunk-small fuel st st' h f.queues;
  hnodes = omega (arith, length-Shrunk st st' h, f.hnodes);
}

-- The list of hnodes is there, linked and in the order of the ranges; each hnode has a range of its
-- width and no link back; the queues are linked, apart and sorted, and their buffers live.
pub record IsValid (s : State) (l : HnodeHead) (st : Stock) : Type 0 where
  pub here : s.sched.hnode_list ≡ some l
  pub stocked : Stocked s.hnodes s.pnodes l.head st
  pub ranges : InOrder (hnodes_of st)
  pub queues : All (λ x. IsSorted x.packets) st
  pub live : AllLive s st

-- The watchdog is set to no packet, or to the first one of a queue.
abbrev pub IsWatched : State → Stock → Type 0
IsWatched s st = (s.sched.next_pnode ≡ null) ⊎ ((v : Packet) × Leads s.sched.next_pnode v st)

-- The invariant does not depend on the record of calls.
pub IsValid-calls :
    (s : State) (cs : Calls) (l : HnodeHead) (st : Stock)
    → IsValid s l st
    → IsValid (record s { calls = cs }) l st
IsValid-calls s cs l st v = record {
  here = v.here;
  stocked = v.stocked;
  ranges = v.ranges;
  queues = v.queues;
  live = v.live;
}

-- Nor does it depend on what is in a live buffer, or on the rest of the private data.
pub IsLive-write :
    {m : Ptr → Option Skb} (p : Ptr) (c : Skb) (a : Ptr)
    → IsWhole c
    → Live m a
    → Live (write m p (some c)) a
unfolding write
IsLive-write p c a whole (b, e, w) = elim (Bool-cases (a == p)) [
  | inl y ↦ (c, record { ne_null = e.ne_null; holds = rw y refl }, whole)
  | inr n ↦ (b, record { ne_null = e.ne_null; holds = rw n e.holds }, w)
]

IsLive-packets :
    (s : State) (p : Ptr) (c : Skb) (xs : Cells)
    → IsWhole c
    → All (λ x. IsLive s (x.1).realpkt) xs
    → All (λ x. IsLive (record s { skbs = write s.skbs p (some c) }) (x.1).realpkt) xs
IsLive-packets s p c [] whole h = tt
IsLive-packets s p c (x ∷ xs) whole h =
    (IsLive-write p c (x.1).realpkt whole (h.0), IsLive-packets s p c xs whole (h.1))

AllLive-write :
    (s : State) (p : Ptr) (c : Skb) (st : Stock)
    → IsWhole c
    → AllLive s st
    → AllLive (record s { skbs = write s.skbs p (some c) }) st
AllLive-write s p c [] whole h = tt
AllLive-write s p c (x ∷ st) whole h =
    (IsLive-packets s p c x.packets whole (h.0), AllLive-write s p c st whole (h.1))

pub IsValid-write :
    (s : State) (p : Ptr) (c : Skb) (q : Sched) (cs : Calls) (l : HnodeHead) (st : Stock)
    → q.hnode_list ≡ s.sched.hnode_list
    → IsWhole c
    → IsValid s l st
    → IsValid (record s { sched = q; skbs = write s.skbs p (some c); calls = cs }) l st
IsValid-write s p c q cs l st same whole v = record {
  here = same ∙ v.here;
  stocked = v.stocked;
  ranges = v.ranges;
  queues = v.queues;
  live = AllLive-write s p c st whole v.live;
}

pub IsValid-sched :
    (s : State) (q : Sched) (cs : Calls) (l : HnodeHead) (st : Stock)
    → q.hnode_list ≡ s.sched.hnode_list
    → IsValid s l st
    → IsValid (record s { sched = q; calls = cs }) l st
IsValid-sched s q cs l st same v = record {
  here = same ∙ v.here;
  stocked = v.stocked;
  ranges = v.ranges;
  queues = v.queues;
  live = v.live;
}

-- The invariant holds, or there is no list of hnodes yet.
abbrev pub IsReady : State → Stock → Type 0
IsReady s st = (s.sched.hnode_list ≡ none) × (st ≡ []) ⊎ ((l : HnodeHead) × IsValid s l st)

pub IsReady-write :
    (s : State) (p : Ptr) (c : Skb) (q : Sched) (cs : Calls) (st : Stock)
    → q.hnode_list ≡ s.sched.hnode_list
    → IsWhole c
    → IsReady s st
    → IsReady (record s { sched = q; skbs = write s.skbs p (some c); calls = cs }) st
IsReady-write s p c q cs st same whole (inl (e, f)) = inl (same ∙ e, f)
IsReady-write s p c q cs st same whole (inr (l, v)) =
    inr (l, IsValid-write s p c q cs l st same whole v)

pub IsReady-sched :
    (s : State) (q : Sched) (cs : Calls) (st : Stock)
    → q.hnode_list ≡ s.sched.hnode_list
    → IsReady s st
    → IsReady (record s { sched = q; calls = cs }) st
IsReady-sched s q cs st same (inl (e, f)) = inl (same ∙ e, f)
IsReady-sched s q cs st same (inr (l, v)) = inr (l, IsValid-sched s q cs l st same v)
