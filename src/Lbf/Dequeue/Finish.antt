-- ===== src/Lbf/Dequeue/Finish.antt =====
-- The end of `lbf_dequeue` of lbf/src/linux/sch_lbf.c keeps the invariant of the discipline.
use new_ip_linux.Common.{
  ◌≤◌, ◌≡◌, ◌∙◌, sym, ap, inl, inr, ◌⊎◌, true, false, [], ◌∷◌, ◌++◌, arith, ◌==◌, All,
  if◌then◌else◌,
}
use mathlib.Core.List.{append_assoc}
use mathlib.Core.Path.{subst}
use new_ip_linux.Lbf.Store.{Ptr, null, HnodeHead, Call, Calls, Kernel, State, ◌>>◌, pure, Cmd}
use new_ip_linux.Lbf.Store.Access.{not_null, call}
use new_ip_linux.Lbf.Store.Returns.{Returns, returns, bind, mono}
use new_ip_linux.Lbf.Queue.Chain.{Packet, Cells}
use new_ip_linux.Lbf.Stock.{Stock}
use new_ip_linux.Lbf.Stock.Shrunk.{Shrunk, Shrunk-All}
use new_ip_linux.Lbf.Stock.Valid.{Live, IsLive, AllLive, IsValid, IsValid-calls, IsWatched}
use new_ip_linux.Lbf.Stock.Heads.{Leads}
use new_ip_linux.Lbf.Search.Expired.{expires}
use new_ip_linux.Lbf.Stock.Queued.{IsQueued, Shrunk-IsQueued}
use new_ip_linux.Lbf.Dequeue.{dequeue_plain, stamp}
use new_ip_linux.Lbf.Dequeue.Ends.{Settled, OtherThan, stamp-Settled, dequeue_plain-FromPlain}

-- From now on the plain queue is empty or its first buffer is live, and is that of no packet in the
-- other queues.
pub record HasPlain (kernel : Kernel) (s : State) (st : Stock) : Type 0 where
  pub head :
      (cs : Calls)
      → (kernel.head_skb (cs ++ s.calls) ≡ null) ⊎ IsLive s (kernel.head_skb (cs ++ s.calls))
  pub apart :
      (cs : Calls)
      → All (λ x. All (λ c. OtherThan (kernel.head_skb (cs ++ s.calls)) (c.1).realpkt) x.packets) st

-- The buffer of a packet that was queued and may leave by a reading of the clock from now on.
abbrev pub IsSent : Kernel → State → Stock → Ptr → Type 0
IsSent kernel s st r =
    (c : Ptr × Packet) × (cs : Calls) × IsQueued c st
    × (r ≡ (c.1).realpkt)
    × ((c.1).tmin_nsec ≤ kernel.ticks2ns (kernel.get_time (cs ++ s.calls)))

-- NULL, or the live buffer that is from now on at the head of the plain queue.
abbrev pub IsPlain : Kernel → State → Ptr → State → Type 0
IsPlain kernel s r s' =
    (r ≡ null) ⊎ IsLive s' r × ((cs : Calls) × (r ≡ kernel.head_skb (cs ++ s.calls)))

-- By a reading of the clock from now on, every packet that is the first of a queue, other than that
-- of the watchdog, and that may leave, has expired on the last hop.
abbrev pub NoneDue : Kernel → State → Stock → Type 0
NoneDue kernel s st =
    (cs : Calls) × ((a : Ptr) (v : Packet)
      → Leads a v st
      → (a == s.sched.next_pnode) ≡ false
      → v.tmin_nsec ≤ kernel.ticks2ns (kernel.get_time (cs ++ s.calls))
      → expires (kernel.ticks2ns (kernel.get_time (cs ++ s.calls))) s.sched.hops_left v ≡ true)

-- The invariant holds again, of the same hnodes, whose queues have lost packets at their heads at
-- most; the watchdog is set to no packet or to the first one of a queue. Returned is the live buffer
-- of a queued packet that may leave; or, where none is due, what the plain queue has.
abbrev pub Dequeued :
    (kernel : Kernel) (s : State) (l : HnodeHead) (st : Stock) → Ptr → State → Type 0
Dequeued kernel s l st r s' =
    (st' : Stock) × IsValid s' l st'
    × Shrunk st st'
    × IsWatched s' st'
    × (IsPlain kernel s r s' × NoneDue kernel s st ⊎ IsLive s' r × IsSent kernel s st r)

pub later-IsSent :
    (kernel : Kernel) (s s₁ : State) (st st₁ : Stock) (r : Ptr)
    → (ds : Calls) × (s₁.calls ≡ ds ++ s.calls)
    → Shrunk st st₁
    → IsSent kernel s₁ st₁ r
    → IsSent kernel s st r
later-IsSent kernel s s₁ st st₁ r (ds, later) h (c, cs, q, is, due) =
    let same : cs ++ s₁.calls ≡ (cs ++ ds) ++ s.calls =
      ap (λ c. cs ++ c) later ∙ sym (append_assoc cs ds s.calls) in
    (c, cs ++ ds, Shrunk-IsQueued c st st₁ h q, is, rw same at due)

All-zip :
    (P Q R : Ptr × Packet → Type 0) (xs : Cells)
    → ((c : Ptr × Packet) → P c → Q c → R c)
    → All P xs
    → All Q xs
    → All R xs
All-zip P Q R [] f h k = tt
All-zip P Q R (x ∷ xs) f h k = (f x (h.0) (k.0), All-zip P Q R xs f (h.1) (k.1))

All-zip_stock :
    (P Q R : Ptr × Packet → Type 0) (st : Stock)
    → ((c : Ptr × Packet) → P c → Q c → R c)
    → All (λ x. All P x.packets) st
    → All (λ x. All Q x.packets) st
    → All (λ x. All R x.packets) st
All-zip_stock P Q R [] f h k = tt
All-zip_stock P Q R (x ∷ st) f h k =
    (All-zip P Q R x.packets f (h.0) (k.0), All-zip_stock P Q R st f (h.1) (k.1))

Settled-IsValid :
    (s s' : State) (l : HnodeHead) (st : Stock) (Q : Ptr → Type 0)
    → IsValid s l st
    → IsWatched s st
    → All (λ x. All (λ c. Q (c.1).realpkt) x.packets) st
    → Settled s Q s'
    → IsValid s' l st × IsWatched s' st
Settled-IsValid s s' l st Q v w all (d, sk, cs, e, keep) =
    let live : AllLive s' st =
      All-zip_stock (λ c. IsLive s (c.1).realpkt) (λ c. Q (c.1).realpkt)
        (λ c. IsLive s' (c.1).realpkt) st (λ c p q. keep (c.1).realpkt q p) v.live all in
    (
      record {
        here = rw e v.here;
        stocked = rw e v.stocked;
        ranges = v.ranges;
        queues = v.queues;
        live = live;
      },
      rw e w,
    )

-- `lbf_dequeue` behind its three blocks.
abbrev pub finish : Kernel → (skb : Ptr) → Cmd Ptr
finish kernel skb = if skb == null then dequeue_plain kernel else do
  stamp kernel skb
  call (Call.backlog_dec skb)
  call (Call.bstats_update skb)
  call Call.qlen_dec
  pure skb

All-Unit : (xs : Cells) → All (λ c. Unit {0}) xs
All-Unit [] = tt
All-Unit (x ∷ xs) = (tt, All-Unit xs)

All-Unit_stock : (st : Stock) → All (λ x. All (λ c. Unit {0}) x.packets) st
All-Unit_stock [] = tt
All-Unit_stock (x ∷ st) = (All-Unit x.packets, All-Unit_stock st)

pub finish-Dequeued :
    (kernel : Kernel) (s : State) (l : HnodeHead) (st : Stock) (s₀ : State) (st₀ : Stock)
    (skb : Ptr)
    → (ds : Calls) × (s.calls ≡ ds ++ s₀.calls)
    → Shrunk st₀ st
    → IsValid s l st
    → IsWatched s st
    → HasPlain kernel s st
    → (skb ≡ null) × NoneDue kernel s₀ st₀ ⊎ IsLive s skb × IsSent kernel s₀ st₀ skb
    → Returns (Dequeued kernel s₀ l st₀) (finish kernel skb s)
unfolding call
finish-Dequeued kernel s l st s₀ st₀ skb later h v w plain (inl (z, idle)) =
    let y : (skb == null) ≡ true = ground (arith, z) in
    rw y (
      mono (dequeue_plain-FromPlain kernel s (plain.head [])) (λ r s' (from, settled).
        let kept =
          Settled-IsValid s s' l st (OtherThan (kernel.head_skb s.calls)) v w (plain.apart [])
            settled in
        let (ds, e) = later in
        (
          st,
          kept.0,
          h,
          kept.1,
          elim from [
            | inl e ↦ inl (inl e, idle)
            | inr (is, b) ↦ inl (inr (b, (ds, rw e at is)), idle)
          ],
        )))
finish-Dequeued kernel s l st s₀ st₀ skb later h v w plain (inr ((b, at, whole), sent)) =
    let n : (skb == null) ≡ false = not_null at in
    rw n (
      bind (stamp-Settled kernel s skb (b, at, whole)) (λ _ s₁ settled.
        let kept = Settled-IsValid s s₁ l st (λ a. Unit {0}) v w (All-Unit_stock st) settled in
        returns (
          st,
          IsValid-calls s₁ _ l st (kept.0),
          h,
          kept.1,
          inr (settled.4 skb tt (b, at, whole), sent),
        )))

IsLive-same :
    (s s' : State) (p : Ptr) → s'.skbs ≡ s.skbs → (p ≡ null) ⊎ IsLive s p → (p ≡ null) ⊎ IsLive s' p
IsLive-same s s' p e (inl z) = inl z
IsLive-same s s' p e (inr b) = inr (subst (λ m. Live m p) (sym e) b)

pub Shrunk-HasPlain :
    (kernel : Kernel) (s s' : State) (st st' : Stock)
    → s'.skbs ≡ s.skbs
    → (ds : Calls) × (s'.calls ≡ ds ++ s.calls)
    → Shrunk st st'
    → HasPlain kernel s st
    → HasPlain kernel s' st'
Shrunk-HasPlain kernel s s' st st' e (ds, later) h plain = record {
  head = λ cs.
      let same : cs ++ s'.calls ≡ (cs ++ ds) ++ s.calls =
        ap (λ c. cs ++ c) later ∙ sym (append_assoc cs ds s.calls) in
      rw same
        (IsLive-same s s' (kernel.head_skb ((cs ++ ds) ++ s.calls)) e (plain.head (cs ++ ds)));
  apart = λ cs.
      let same : cs ++ s'.calls ≡ (cs ++ ds) ++ s.calls =
        ap (λ c. cs ++ c) later ∙ sym (append_assoc cs ds s.calls) in
      Shrunk-All (λ c. OtherThan (kernel.head_skb (cs ++ s'.calls)) (c.1).realpkt) st st' h
        (subst (λ z. All (λ x. All (λ c. OtherThan (kernel.head_skb z) (c.1).realpkt) x.packets) st)
          (sym same) (plain.apart (cs ++ ds)));
}
