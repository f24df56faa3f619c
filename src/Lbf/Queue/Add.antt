-- ===== src/Lbf/Queue/Add.antt =====
-- `pnode_queue_add` of lbf/src/linux/sch_lbf.c.
use mathlib.Core.List.{Perm}
use new_ip_linux.Common.{
  ◌∉◌, ℕ, ◌<◌, ◌≡◌, ◌≢◌, refl, false, Option, none, some, ◌∷◌, arith, ◌==◌, length,
}
use new_ip_linux.Lbf.Store.{Ptr, null, Hnode, At, State, Kernel, Call, write}
use new_ip_linux.Lbf.Store.Access.{At-write}
use new_ip_linux.Lbf.Store.Returns
use new_ip_linux.Lbf.Store.Returns.{Returns}
use new_ip_linux.Lbf.Queue.{pnode_queue_add}
use new_ip_linux.Lbf.Queue.Chain.{
  Packet, node, Pnodes, Cells, SameOutside, Points, Chain, agree, not-mem_of_none,
}
use new_ip_linux.Lbf.Queue.Order.{insert, IsSorted, insert-IsSorted, insert-perm}
use new_ip_linux.Lbf.Queue.Insert.{WithQueue, enqueue_pnode-Chain}

-- What `pnode_queue_add` leaves of a state in which the queue of `hnode` holds `xs`: the packet `v`
-- is in its place in the queue, and no other object is changed.
abbrev pub Enqueued :
    (kernel : Kernel) (s : State) (hnode : Ptr) (h : Hnode) (v : Packet) (xs : Cells)
    → Unit {0}
    → State
    → Type 0
Enqueued kernel s hnode h v xs _ s' =
    (g : Pnodes) × (hs : Ptr → Option Hnode) × (q : Ptr) × (ys : Cells) × (s'
      ≡ record s { pnodes = g; hnodes = hs; calls = Call.kcalloc ∷ s.calls })
    × Chain g hnode q ys
    × IsSorted ys
    × Perm ys ((kernel.alloc s.calls, v) ∷ xs)
    × (ys ≡ insert (kernel.alloc s.calls, v) xs)
    × WithQueue s.hnodes hs hnode h q
    × SameOutside ((kernel.alloc s.calls, v) ∷ xs) s.pnodes g

module _ (kernel : Kernel) (s : State) {hnode : Ptr} {h : Hnode} (realpkt : Ptr)
    (tmin_nsec tmax_nsec trcv_nsec : ℕ) (k : ℕ) {xs : Cells} (at : At s.hnodes hnode h)
    (c : Chain s.pnodes hnode h.queue xs) where
  abbrev packet : Packet
  packet = record {
    tmin_nsec = tmin_nsec;
    tmax_nsec = tmax_nsec;
    trcv = trcv_nsec;
    realpkt = realpkt;
  }

  -- `pnode_queue_add`, given the memory for a pnode that is not in use, and more fuel than packets
  -- in the queue, faults nowhere and leaves the packet in its place in the linked list of the hnode:
  -- behind every packet that may leave no later than it, before the others, in a queue that is
  -- sorted again and holds the same packets and the new one. The first pnode of the queue points
  -- back to the hnode, no other does, and no other object is changed.
  pub pnode_queue_add-insert :
      IsSorted xs
      → kernel.alloc s.calls ≢ null
      → s.pnodes (kernel.alloc s.calls) ≡ none
      → length xs < k
      → Returns
          (Enqueued kernel s hnode h packet xs)
          (pnode_queue_add kernel k hnode realpkt tmin_nsec tmax_nsec trcv_nsec s)
  unfolding pnode_queue_add write
  pnode_queue_add-insert sorted got unused fuel =
      let my : Ptr = kernel.alloc s.calls in
      let here : (my == null) ≡ false = ground arith in
      let fresh : my ∉ xs = not-mem_of_none my c unused in
      let g0 : Pnodes = write s.pnodes my (some (node packet null null)) in
      let s0 : State = record s { pnodes = g0; calls = Call.kcalloc ∷ s.calls } in
      let mine : Points g0 my packet null null = At-write s.pnodes my _ got in
      rw here (
        Returns.mono
          (enqueue_pnode-Chain s0 packet at mine k refl (agree (ground arith) c) fresh fuel)
          λ _ s' (g, hs, q, same_rest, chain, same, hnodes). (
            g,
            hs,
            q,
            _,
            same_rest,
            chain,
            insert-IsSorted _ xs sorted,
            insert-perm _ xs,
            refl,
            hnodes,
            λ a out. ground (arith, same a),
          ))
