-- ===== src/Lbf/Enqueue/Join.antt =====
-- `pnode_queue_add` of lbf/src/linux/sch_lbf.c keeps the invariant of the discipline.
use new_ip_linux.Common.{
  ℕ, ◌<◌, ◌≡◌, ◌≢◌, refl, inl, inr, ◌⊎◌, none, ◌∷◌, arith, ◌==◌, length, All, true,
}
use mathlib.Core.Path.{subst}
use new_ip_linux.Lbf.Store.{Ptr, null, Hnode, HnodeHead, Call, Calls, Kernel, State, ok}
use new_ip_linux.Lbf.Store.Returns.{Returns, returns, mono}
use new_ip_linux.Lbf.Queue.{pnode_queue_add}
use new_ip_linux.Lbf.Queue.Chain.{Packet, Cells, Chain}
use new_ip_linux.Lbf.Queue.Order.{insert, IsSorted, insert-IsSorted}
use new_ip_linux.Lbf.Queue.Insert.{WithQueue}
use new_ip_linux.Lbf.Queue.Add.{pnode_queue_add-insert}
use new_ip_linux.Lbf.Ranges.Line.{linked}
use new_ip_linux.Lbf.Ranges.Full.{asked}
use new_ip_linux.Lbf.Stock.{Shelf, Stock, head_of, holding, Chain-head_of}
use new_ip_linux.Lbf.Stock.Change.{with_packets, Stocked-with_packets}
use new_ip_linux.Lbf.Stock.Heads.{OnShelf, All-OnShelf}
use new_ip_linux.Lbf.Stock.Grown.{
  with_packets-All, with_packets-InOrder, ApartFrom-fresh, insert-Within, insert-All,
}
use new_ip_linux.Lbf.Stock.Shelve.{OnShelf-Standing}
use new_ip_linux.Lbf.Stock.Valid.{IsLive, IsValid, IsValid-calls}

-- The packet is in its place in the queue of `x`, or is lost where no memory is left.
abbrev pub Joined :
    (kernel : Kernel) (cs : Calls) (x : Shelf) (v : Packet) (st st' : Stock) → Type 0
Joined kernel cs x v st st' =
    (kernel.alloc cs ≡ null) × (st' ≡ st)
    ⊎ (st' ≡ with_packets x.at (insert (kernel.alloc cs, v) x.packets) st)

abbrev pub Added :
    (kernel : Kernel) (s : State) (l : HnodeHead) (x : Shelf) (v : Packet) (st : Stock)
    → Unit {0}
    → State
    → Type 0
Added kernel s l x v st _ s' =
    (st' : Stock) × Joined kernel s.calls x v st st'
    × IsValid s' l st'
    × (s'.sched ≡ s.sched)
    × (s'.calls ≡ Call.kcalloc ∷ s.calls)
    × (s'.skbs ≡ s.skbs)

pub pnode_queue_add-null :
    (kernel : Kernel) (k : ℕ) (s : State) (hnode realpkt : Ptr) (t u r : ℕ)
    → kernel.alloc s.calls ≡ null
    → pnode_queue_add kernel k hnode realpkt t u r s ≡ ok tt (asked s)
unfolding pnode_queue_add
pnode_queue_add-null kernel k s hnode realpkt t u r full =
    let z : (kernel.alloc s.calls == null) ≡ true = ground (arith, full) in rw z refl

pub small_on :
    (k : ℕ) (x : Shelf) (st : Stock)
    → All (λ y. length y.packets < k) st
    → OnShelf x st
    → length x.packets < k
small_on k x st h on = All-OnShelf (λ y. length y.packets < k) x st h on

module _ (kernel : Kernel) (k : ℕ) (s : State) (l : HnodeHead) (st : Stock) (x : Shelf) (skb : Ptr)
    (t u r : ℕ) (v : IsValid s l st) (on : OnShelf x st) (small : length x.packets < k)
    (live : IsLive s skb) where
  abbrev packet : Packet
  packet = record { tmin_nsec = t; tmax_nsec = u; trcv = r; realpkt = skb }

  pub pnode_queue_add-Added :
      (kernel.alloc s.calls ≡ null)
        ⊎ (kernel.alloc s.calls ≢ null) × (s.pnodes (kernel.alloc s.calls) ≡ none)
      → Returns (Added kernel s l x packet st) (pnode_queue_add kernel k x.at skb t u r s)
  pnode_queue_add-Added (inl full) = rw (pnode_queue_add-null kernel k s x.at skb t u r full) (
      returns
        (st, inl (full, refl), IsValid-calls s (Call.kcalloc ∷ s.calls) l st v, refl, refl, refl))
  pnode_queue_add-Added (inr (got, unused)) =
      let f = OnShelf-Standing s.hnodes s.pnodes l.head x st v.stocked on in
      let h : Hnode = linked (holding (x.hnode) x.packets) f.next in
      let c : Ptr × Packet = (kernel.alloc s.calls, packet) in
      let ys : Cells = insert c x.packets in
      let sorted : IsSorted x.packets = All-OnShelf (λ y. IsSorted y.packets) x st v.queues on in
      let lives = All-OnShelf (λ y. All (λ c. IsLive s (c.1).realpkt) y.packets) x st v.live on in
      mono (pnode_queue_add-insert kernel s skb t u r k f.at f.chain sorted got unused small)
        (λ _ s' (g, hs, q, zs, e, chain, is_sorted, perm, is, wq, same).
          let chain' : Chain g x.at q ys = subst (λ z. Chain g x.at q z) is chain in
          let eq : q ≡ head_of ys = Chain-head_of chain' in
          rw e (
            with_packets x.at ys st,
            inr refl,
            record {
              here = v.here;
              stocked =
                  Stocked-with_packets x.at ys (c ∷ x.packets) (insert-Within c x.packets) f.at
                    (subst (λ a. WithQueue s.hnodes hs x.at h a) eq wq) same
                    (subst (λ a. Chain g x.at a ys) eq chain') st l.head
                    (ApartFrom-fresh s.pnodes x.at c x.packets st unused (v.stocked).filled f.clear)
                    v.stocked;
              ranges = with_packets-InOrder x.at ys st v.ranges;
              queues =
                  with_packets-All x.at ys (λ z. IsSorted z) st (insert-IsSorted c x.packets sorted)
                    v.queues;
              live =
                  with_packets-All x.at ys (λ z. All (λ c. IsLive s (c.1).realpkt) z) st
                    (insert-All (λ c. IsLive s (c.1).realpkt) c x.packets live lives) v.live;
            },
            refl,
            refl,
            refl,
          ))
