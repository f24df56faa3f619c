-- ===== src/Lbf/Dequeue/Whole.antt =====
-- `lbf_dequeue` of lbf/src/linux/sch_lbf.c keeps the invariant of the discipline.
use new_ip_linux.Common.{
  ℕ, ◌<◌, ◌≤◌, ◌≡◌, refl, ◌∙◌, sym, ap, inl, inr, ◌⊎◌, false, [], ◌∷◌, ◌++◌, arith, ◌==◌, leb,
}
use mathlib.Core.List.{append_assoc}
use mathlib.Core.Path.{subst}
use new_ip_linux.Lbf.Store.{Ptr, null, HnodeHead, Sched, Call, Calls, Kernel, State, ◌>>=◌, ◌>>◌}
use new_ip_linux.Lbf.Store.Access.{time_ns, psched_get_time}
use new_ip_linux.Lbf.Store.Returns.{Returns, bind}
use new_ip_linux.Lbf.Queue.Chain.{Packet}
use new_ip_linux.Lbf.Stock.{Stock}
use new_ip_linux.Lbf.Stock.Heads.{Leads, Leads-All}
use new_ip_linux.Lbf.Stock.Queued.{IsQueued-All, Leads-IsQueued}
use new_ip_linux.Lbf.Stock.Shrunk.{Shrunk, Shrunk-refl, Shrunk-trans}
use new_ip_linux.Lbf.Stock.Valid.{Live, IsLive, AllLive, Fits, Shrunk-Fits, IsValid, IsValid-calls}
use new_ip_linux.Lbf.Search.Expired.{expires}
use new_ip_linux.Lbf.Search.Missed.{AllGone}
use new_ip_linux.Lbf.Dequeue.{dequeue, take_now, watch_next}
use new_ip_linux.Lbf.Dequeue.Kept.{Kept-IsValid}
use new_ip_linux.Lbf.Dequeue.Next.{take_next-null, take_next-TookNext}
use new_ip_linux.Lbf.Dequeue.Now.{Sends, take_now-TookNow}
use new_ip_linux.Lbf.Dequeue.Watch.{watch_next-Watches, StaysWatched}
use new_ip_linux.Lbf.Dequeue.Finish.{
  IsSent, later-IsSent, NoneDue, HasPlain, Dequeued, finish, finish-Dequeued, Shrunk-HasPlain,
}

-- The watchdog is set to no packet; or to the first one of a queue, which may leave by the first
-- reading of the clock, or may not by the second and has not expired by the third.
abbrev pub IsSteady : Kernel → State → Stock → Type 0
IsSteady kernel s st =
    (s.sched.next_pnode ≡ null)
    ⊎ ((v : Packet) × Leads s.sched.next_pnode v st
        × ((v.tmin_nsec ≤ kernel.ticks2ns (kernel.get_time s.calls))
            ⊎ (kernel.ticks2ns (kernel.get_time (Call.psched_get_time ∷ s.calls)) < v.tmin_nsec)
              × (kernel.ticks2ns
                    (kernel.get_time (Call.psched_get_time ∷ Call.psched_get_time ∷ s.calls))
                  ≤ v.tmax_nsec)))

-- The same between the first block and the second.
abbrev Waits : Kernel → State → Stock → Type 0
Waits kernel s st =
    (s.sched.next_pnode ≡ null)
    ⊎ ((v : Packet) × Leads s.sched.next_pnode v st
        × (leb v.tmin_nsec (kernel.ticks2ns (kernel.get_time s.calls)) ≡ false)
        × (kernel.ticks2ns (kernel.get_time (Call.psched_get_time ∷ s.calls)) ≤ v.tmax_nsec))

later_trans :
    (s s₁ s₂ : State)
    → (cs : Calls) × (s₁.calls ≡ cs ++ s.calls)
    → (cs : Calls) × (s₂.calls ≡ cs ++ s₁.calls)
    → (cs : Calls) × (s₂.calls ≡ cs ++ s.calls)
later_trans s s₁ s₂ (cs, e) (ds, f) =
    (ds ++ cs, f ∙ ap (λ c. ds ++ c) e ∙ sym (append_assoc ds cs s.calls))

not_expired : (now hops : ℕ) (v : Packet) → now ≤ v.tmax_nsec → expires now hops v ≡ false
not_expired now hops v h = ground arith

module _ (kernel : Kernel) (fuel : ℕ) where
  -- What the first block has left of the queues: all first packets but that of the watchdog.
  abbrev Leaves : (s₀ : State) (st₀ st : Stock) → Type 0
  Leaves s₀ st₀ st =
      (a : Ptr) (v : Packet) → Leads a v st₀ → (a == s₀.sched.next_pnode) ≡ false → Leads a v st

  later-NoneDue :
      (s₀ s : State) (st₀ st : Stock)
      → (ds : Calls) × (s.calls ≡ ds ++ s₀.calls)
      → s.sched.hops_left ≡ s₀.sched.hops_left
      → Leaves s₀ st₀ st
      → AllGone (kernel.ticks2ns (kernel.get_time s.calls)) s.sched.hops_left st
      → NoneDue kernel s₀ st₀
  later-NoneDue s₀ s st₀ st (ds, later) hops leaves gone = (
    ds,
    λ a v l n due.
        let all : AllGone (kernel.ticks2ns (kernel.get_time (ds ++ s₀.calls))) s₀.sched.hops_left
            st =
          subst (λ c. AllGone (kernel.ticks2ns (kernel.get_time c)) s₀.sched.hops_left st) later
            (subst (λ h. AllGone (kernel.ticks2ns (kernel.get_time s.calls)) h st) hops gone) in
        all a v (leaves a v l n) due,
  )

  -- What is known of the buffer to send behind the second block.
  after_now :
      (s s₂ : State) (st : Stock) (s₀ : State) (st₀ : Stock) (skb early : Ptr)
      → s₂.skbs ≡ s.skbs
      → (ds : Calls) × (s.calls ≡ ds ++ s₀.calls)
      → s.sched.hops_left ≡ s₀.sched.hops_left
      → Shrunk st₀ st
      → Leaves s₀ st₀ st
      → AllLive s st
      → (early ≡ null) ⊎ IsLive s early × IsSent kernel s₀ st₀ early
      → (skb ≡ early) × AllGone (kernel.ticks2ns (kernel.get_time s.calls)) s.sched.hops_left st
        ⊎ Sends (kernel.ticks2ns (kernel.get_time s.calls)) st skb
      → (skb ≡ null) × NoneDue kernel s₀ st₀ ⊎ IsLive s₂ skb × IsSent kernel s₀ st₀ skb
  after_now s s₂ st s₀ st₀ skb early same later hops h leaves live (inl z) (inl (e, gone)) =
      inl (e ∙ z, later-NoneDue s₀ s st₀ st later hops leaves gone)
  after_now s s₂ st s₀ st₀ skb early same later hops h leaves live (inr (alive, sent))
        (inl (e, gone)) =
      inr (
        subst (λ a. IsLive s₂ a × IsSent kernel s₀ st₀ a) (sym e)
          (subst (λ m. Live m early) (sym same) alive, sent))
  after_now s s₂ st s₀ st₀ skb early same later hops h leaves live got (inr (c, q, is, due)) = inr (
    subst (λ m. Live m skb) (sym same)
        (subst (λ a. IsLive s a) (sym is) (IsQueued-All (λ c. IsLive s (c.1).realpkt) c st live q)),
    later-IsSent kernel s₀ s st₀ st skb later h (c, [], q, is, due),
  )

  -- From the second block on.
  late-Dequeued :
      (s : State) (l : HnodeHead) (st : Stock) (early : Ptr)
      → IsValid s l st
      → Fits fuel st
      → HasPlain kernel s st
      → Waits kernel s st
      → (s₀ : State) (st₀ : Stock) → (ds : Calls) × (s.calls ≡ ds ++ s₀.calls)
      → s.sched.hops_left ≡ s₀.sched.hops_left
      → Shrunk st₀ st
      → Leaves s₀ st₀ st
      → (early ≡ null) ⊎ IsLive s early × IsSent kernel s₀ st₀ early
      → Returns
          (Dequeued kernel s₀ l st₀)
          ((take_now kernel fuel early >>= λ skb. watch_next kernel fuel >> finish kernel skb) s)
  late-Dequeued s l st early v fits plain waits s₀ st₀ later₀ hops₀ shrunk₀ leaves got =
      bind (take_now-TookNow kernel fuel s l st v.here v.stocked fits early)
        (λ skb s₁ (st₁, k, from, sched, calls, stays).
          let v₁ : IsValid s₁ l st₁ = Kept-IsValid s l st s₁ st₁ v k in
          let fits₁ : Fits fuel st₁ = Shrunk-Fits fuel st st₁ k.shrunk fits in
          let watched : StaysWatched s₁ (kernel.ticks2ns (kernel.get_time s₁.calls)) st₁ =
            let same : s₁.sched.next_pnode ≡ s.sched.next_pnode =
              ap (λ (q : Sched). q.next_pnode) sched in
            elim waits [
              | inl z ↦ inl (same ∙ z)
              | inr (p, leads, waiting, fresh) ↦ inr (
                p,
                subst (λ a. Leads a p st₁) (sym same) (stays s.sched.next_pnode p leads waiting),
                not_expired (kernel.ticks2ns (kernel.get_time s₁.calls)) s₁.sched.hops_left p
                    (rw calls fresh),
              )
            ] in
          bind (watch_next-Watches kernel fuel s₁ l st₁ k.here k.stocked fits₁ watched)
            (λ _ s₂ (st₂, k₂, w).
              let v₂ : IsValid s₂ l st₂ = Kept-IsValid s₁ l st₁ s₂ st₂ v₁ k₂ in
              let shrunk : Shrunk st st₂ = Shrunk-trans st st₁ st₂ k.shrunk k₂.shrunk in
              let plain₂ : HasPlain kernel s₂ st₂ =
                Shrunk-HasPlain kernel s s₂ st st₂ (k₂.skbs ∙ k.skbs)
                  (later_trans s s₁ s₂ k.later k₂.later) shrunk plain in
              let got₂ : (skb ≡ null) × NoneDue kernel s₀ st₀
                  ⊎ IsLive s₂ skb × IsSent kernel s₀ st₀ skb =
                after_now s s₂ st s₀ st₀ skb early (k₂.skbs ∙ k.skbs) later₀ hops₀ shrunk₀ leaves
                  v.live got from in
              finish-Dequeued kernel s₂ l st₂ s₀ st₀ skb
                (later_trans s₀ s s₂ later₀ (later_trans s s₁ s₂ k.later k₂.later))
                (Shrunk-trans st₀ st st₂ shrunk₀ shrunk) v₂ w plain₂ got₂))

  -- The whole function, from a state with a list of hnodes.
  pub dequeue-IsValid :
      (s : State) (l : HnodeHead) (st : Stock)
      → IsValid s l st
      → Fits fuel st
      → HasPlain kernel s st
      → IsSteady kernel s st
      → Returns (Dequeued kernel s l st) (dequeue kernel fuel s)
  unfolding dequeue time_ns psched_get_time
  dequeue-IsValid s l st v fits plain (inl z) =
      let s₁ : State = record s { calls = Call.psched_get_time ∷ s.calls } in
      rw (take_next-null (kernel.ticks2ns (kernel.get_time s.calls)) s₁ z) (
        late-Dequeued s₁ l st null (IsValid-calls s _ l st v) fits
          (Shrunk-HasPlain kernel s s₁ st st refl (Call.psched_get_time ∷ [], refl) (Shrunk-refl st)
            plain)
          (inl z) s st (Call.psched_get_time ∷ [], refl) refl (Shrunk-refl st) (λ a w k n. k)
          (inl refl))
  dequeue-IsValid s l st v fits plain (inr (p, leads, steady)) =
      let s₁ : State = record s { calls = Call.psched_get_time ∷ s.calls } in
      let now : ℕ = kernel.ticks2ns (kernel.get_time s.calls) in
      let v₁ = IsValid-calls s s₁.calls l st v in
      bind (take_next-TookNext now s₁ l st p v.here v.stocked leads) (λ early s₂ took. elim took [
        | inl (none_yet, is, waiting) ↦ elim steady [
          | inl due ↦ absurd (omega arith)
          | inr (later, fresh) ↦ rw is (
              late-Dequeued s₁ l st early v₁ fits
                (Shrunk-HasPlain kernel s s₁ st st refl (Call.psched_get_time ∷ [], refl)
                  (Shrunk-refl st) plain)
                (inr (p, leads, ground (arith, later), fresh)) s st
                (Call.psched_get_time ∷ [], refl) refl (Shrunk-refl st) (λ a w k n. k)
                (inl none_yet))
        ]
        | inr (st₂, k, from, unset, leaves) ↦
            late-Dequeued s₂ l st₂ early (Kept-IsValid s₁ l st s₂ st₂ v₁ k)
              (Shrunk-Fits fuel st st₂ k.shrunk fits)
              (Shrunk-HasPlain kernel s s₂ st st₂ k.skbs
                (later_trans s s₁ s₂ (Call.psched_get_time ∷ [], refl) k.later) k.shrunk plain)
              (inl unset) s st (later_trans s s₁ s₂ (Call.psched_get_time ∷ [], refl) k.later)
              k.hops k.shrunk leaves
              (elim from [
                | inl z ↦ inl z
                | inr (is, due) ↦ inr (
                  subst (λ m. Live m early) (sym k.skbs)
                      (subst (λ a. IsLive s a) (sym is)
                        (Leads-All (λ c. IsLive s (c.1).realpkt) s.sched.next_pnode p st v.live
                          leads)),
                  (
                    (s.sched.next_pnode, p),
                    [],
                    Leads-IsQueued s.sched.next_pnode p st leads,
                    is,
                    due,
                  ),
                )
              ])
      ])
