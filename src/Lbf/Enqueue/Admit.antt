-- ===== src/Lbf/Enqueue/Admit.antt =====
-- A packet in time joins a queue in `lbf_enqueue` of lbf/src/linux/sch_lbf.c.
use new_ip_linux.Common.{
  ℕ, suc, ◌<◌, ◌≡◌, ◌≢◌, refl, ◌∙◌, sym, ap, inl, inr, ◌⊎◌, none, [], ◌∷◌, ◌++◌, arith, length,
}
use new_ip_linux.Common.Int.{ℤ, pos}
use mathlib.Core.List.{append_assoc}
use mathlib.Core.Path.{subst}
use new_ip_linux.Lbf.Store.{Ptr, null, HnodeHead, Sched, Call, Calls, Kernel, State}
use new_ip_linux.Lbf.Store.Access.{not_null, time_ns, psched_get_time, call}
use new_ip_linux.Lbf.Store.Returns.{Returns, returns, bind}
use new_ip_linux.Lbf.Queue.Chain.{Packet}
use new_ip_linux.Lbf.Stock.{Shelf, Stock, hnodes_of}
use new_ip_linux.Lbf.Stock.Heads.{OnShelf}
use new_ip_linux.Lbf.Stock.Shelve.{OnShelf-Standing}
use new_ip_linux.Lbf.Stock.Valid.{
  Live, IsLive, Fits, IsValid, IsValid-calls, IsReady, IsReady-sched,
}
use new_ip_linux.Lbf.Enqueue.{Window, budget, at_delay, admit}
use new_ip_linux.Lbf.Enqueue.Serve.{
  IsFresh, later-IsFresh, Beside, Shelved, get_hnode-Served_ready, HasList,
}
use new_ip_linux.Lbf.Enqueue.Join.{Joined, small_on, pnode_queue_add-Added}

-- The hnodes with the packet: in the queue of an hnode for its budget that was there, or of one that
-- is new, in its place among those that leave no earlier.
abbrev pub Placed : (kernel : Kernel) (s : State) (b : ℕ) (v : Packet) (st st' : Stock) → Type 0
Placed kernel s b v st st' =
    (x : Shelf) × (st₁ : Stock) × (cs : Calls) × Shelved b st x st₁
    × Joined kernel (cs ++ s.calls) x v st₁ st'

-- The packet has joined a queue, and 0 is returned; or no memory is left for an hnode, the queues
-- are as before and 1 is returned. The invariant holds again.
abbrev pub Admitted :
    (kernel : Kernel) (s : State) (st : Stock) (b : ℕ) (v : Packet) → ℤ → State → Type 0
Admitted kernel s st b v r s' =
    (l' : HnodeHead) × (st' : Stock) × IsValid s' l' st'
    × (s'.sched.next_pnode ≡ s.sched.next_pnode)
    × (s'.skbs ≡ s.skbs)
    × ((ds : Calls) × (s'.calls ≡ ds ++ s.calls))
    × ((r ≡ pos 1) × (st' ≡ st) × ((cs : Calls) × (kernel.alloc (cs ++ s.calls) ≡ null))
        ⊎ (r ≡ pos 0) × Placed kernel s b v st st')

-- The memory for a pnode, when an hnode has been found.
later_fresh :
    (kernel : Kernel) (s s' : State)
    → IsFresh kernel s
    → Beside s s'
    → (kernel.alloc s'.calls ≡ null)
      ⊎ (kernel.alloc s'.calls ≢ null) × (s'.pnodes (kernel.alloc s'.calls) ≡ none)
later_fresh kernel s s' fresh beside =
    let (cs, later) = beside.later in
    rw (later, beside.pnodes)
      (elim (fresh cs) [ inl full ↦ inl full | inr (got, unused, other) ↦ inr (got, other) ])

Shelved-small :
    (k b : ℕ) (st : Stock) (x : Shelf) (st' : Stock)
    → Fits k st
    → Shelved b st x st'
    → length x.packets < k
Shelved-small k b st x st' fits (on, hosts, inl e) =
    small_on k x st fits.queues (subst (λ z. OnShelf x z) e on)
Shelved-small k b st x st' fits (on, hosts, inr (n, e, f)) =
    subst (λ (z : Shelf). length z.packets < k) (sym e) (let h = fits.hnodes in omega arith)

length-hnodes_of : (st : Stock) → length (hnodes_of st) ≡ length st
length-hnodes_of [] = refl
length-hnodes_of (x ∷ st) = ap suc (length-hnodes_of st)

-- What is stored of a packet that arrives at the time `now`.
abbrev pub packet_of : (now trcv : ℕ) (skb : Ptr) → Window → Packet
packet_of now trcv skb w = record {
  tmin_nsec = at_delay now w.lqmin;
  tmax_nsec = at_delay now w.lqmax;
  trcv = trcv;
  realpkt = skb;
}

-- What is called after the clock has been read is called later.
since :
    (s s' : State)
    → (cs : Calls) × (s'.calls ≡ cs ++ Call.psched_get_time ∷ s.calls)
    → (ds : Calls) × (s'.calls ≡ ds ++ s.calls)
since s s' (cs, e) =
    (cs ++ Call.psched_get_time ∷ [], e ∙ sym (append_assoc cs (Call.psched_get_time ∷ []) s.calls))

module _ (kernel : Kernel) (k : ℕ) where
  pub admit-Admitted :
      (s : State) (st : Stock) (skb : Ptr) (trcv : ℕ) (w : Window)
      → IsReady s st
      → Fits k st
      → IsFresh kernel s
      → HasList kernel (Call.psched_get_time ∷ []) s
      → IsLive s skb
      → let now = kernel.ticks2ns (kernel.get_time s.calls) in
        Returns
          (Admitted kernel s st (budget w) (packet_of now trcv skb w))
          (admit kernel k skb trcv w s)
  unfolding admit time_ns psched_get_time call
  admit-Admitted s st skb trcv w v fits fresh has live =
      let now : ℕ = kernel.ticks2ns (kernel.get_time s.calls) in
      let s₁ : State = record s { calls = Call.psched_get_time ∷ s.calls } in
      let v₁ : IsReady s₁ st = IsReady-sched s s.sched s₁.calls st refl v in
      let fresh₁ : IsFresh kernel s₁ =
        later-IsFresh kernel s s₁ (Call.psched_get_time ∷ []) refl refl refl fresh in
      bind
        (get_hnode-Served_ready kernel (budget w) s₁ st k v₁ fresh₁ has
          (rw (length-hnodes_of st) fits.hnodes))
        (λ r s₂ served. elim served [
          | inl (z, (l₂, v₂, beside, (cs, full))) ↦ rw z (
              returns (
                l₂,
                st,
                v₂,
                beside.next,
                beside.skbs,
                since s s₂ beside.later,
                inl (
                  refl,
                  refl,
                  (
                    cs ++ Call.psched_get_time ∷ [],
                    subst (λ c. kernel.alloc c ≡ null)
                        (sym (append_assoc cs (Call.psched_get_time ∷ []) s.calls)) full,
                  ),
                ),
              ))
          | inr (x, l₂, st₂, is, shelved, v₂, beside) ↦
              let f = OnShelf-Standing s₂.hnodes s₂.pnodes l₂.head x st₂ (v₂.stocked) (shelved.0) in
              let live₂ : IsLive s₂ skb = subst (λ m. Live m skb) (sym beside.skbs) live in
              rw (is, not_null f.at)
                (bind
                  (pnode_queue_add-Added kernel k s₂ l₂ st₂ x skb (at_delay now w.lqmin)
                    (at_delay now w.lqmax) trcv v₂ (shelved.0)
                    (Shelved-small k (budget w) st x st₂ fits shelved) live₂
                    (later_fresh kernel s₁ s₂ fresh₁ beside))
                  (λ _ s₃ (st₃, joined, v₃, sched, calls, skbs). returns (
                    l₂,
                    st₃,
                    IsValid-calls s₃ _ l₂ st₃ v₃,
                    ap (λ (q : Sched). q.next_pnode) sched ∙ beside.next,
                    skbs ∙ beside.skbs,
                    (
                      Call.qlen_inc
                          ∷ Call.backlog_inc skb
                          ∷ Call.kcalloc
                          ∷ (since s s₂ beside.later).0,
                      ap (λ c. Call.qlen_inc ∷ Call.backlog_inc skb ∷ c)
                          (calls ∙ ap (λ c. Call.kcalloc ∷ c) ((since s s₂ beside.later).1)),
                    ),
                    inr (
                      refl,
                      (
                        x,
                        st₂,
                        (since s s₂ beside.later).0,
                        shelved,
                        subst (λ c. Joined kernel c x (packet_of now trcv skb w) st₂ st₃)
                            ((since s s₂ beside.later).1) joined,
                      ),
                    ),
                  )))
        ])
