-- ===== src/Lbf/Dequeue/Plain.antt =====
-- Max-delay contracts in `lbf_dequeue` of lbf/src/linux/sch_lbf.c.
use new_ip_linux.Common.{
  ℕ, ◌+◌, ◌-◌, ◌^◌, ◌<◌, ◌≤◌, ◌≡◌, ◌≢◌, refl, inl, inr, ◌⊎◌, Bool-cases, Option, none, true, ◌∷◌,
  arith, ltb, ◌==◌,
}
use new_ip_linux.Wire.{Mem, eth_p_newip, u16, u64, load16, store16, htons, ntohs}
use new_ip_linux.Wire.Order.{swap16-lt, swap16-swap16, load16-store16, store16_ne}
use new_ip_linux.Wire.MaxDelay
use new_ip_linux.Lbf.Store.{Ptr, null, Skb, Call, Kernel, State, ok, At, write}
use new_ip_linux.Lbf.Store.Access.{
  not_null, At-write, load_skb-At, in_packet-ok, put_skb, update_sched, psched_get_time, call,
}
use new_ip_linux.Lbf.Enqueue.{has_contract, contract_at}
use new_ip_linux.Lbf.Dequeue.{ticks_since, forward_max_delay, dequeue_head, dequeue_plain}

-- The two delays of the contract at `c`, as numbers.
abbrev pub max_allowed : Mem → ℕ → ℕ
max_allowed m c = ntohs (load16 m (c + MaxDelay.max_allowed_delay))

abbrev pub delay_so_far : Mem → ℕ → ℕ
delay_so_far m c = ntohs (load16 m (c + MaxDelay.delay_exp))

-- What becomes of a packet that has waited for `delay`: it is over its maximum, and freed and
-- counted as dropped, or it is sent, its delay is larger by `delay`, and its other bytes are as
-- they were.
abbrev pub Forwarded : (s : State) (skb : Ptr) (c delay : ℕ) (b : Skb) → Ptr → State → Type 0
Forwarded s skb c delay b r s' =
    (max_allowed b.network c < delay_so_far b.network c + delay)
      × (r ≡ null)
      × (s'.skbs skb ≡ none)
      × (s'.calls ≡ Call.qstats_drop ∷ Call.kfree_skb skb ∷ s.calls)
    ⊎ (delay_so_far b.network c + delay ≤ max_allowed b.network c)
      × (r ≡ skb)
      × (s'.calls ≡ s.calls)
      × ((m : Mem) × At s'.skbs skb (record b { network = m })
          × (delay_so_far m c ≡ delay_so_far b.network c + delay)
          × ((i : ℕ) → i ≢ c + 4 → i ≢ c + 5 → m i ≡ b.network i))

write-same : {A : Type 0} (m : Ptr → Option A) (p : Ptr) (a : Option A) → write m p a p ≡ a
unfolding write
write-same m p a = ground arith

swap-field : (m : Mem) (o v : ℕ) → v < 2 ^ 16 → ntohs (load16 (store16 m o (htons (u16 v))) o) ≡ v
swap-field m o v small =
    let raw : ℕ = htons (u16 v) in
    let whole : u16 raw ≡ raw = omega (arith, swap16-lt (u16 v)) in
    rw (load16-store16 m o raw, whole) (omega (arith, swap16-swap16 (u16 v)))

module _ (s : State) {skb : Ptr} (c delay : ℕ) (b : Skb) (at : At s.skbs skb b) where
  forward_max_delay-Forwarded :
      delay + 2 ^ 16 ≤ 2 ^ 64
      → (r : Ptr) × (s' : State) × (forward_max_delay skb c delay b s ≡ ok r s')
        × Forwarded s skb c delay b r s'
  unfolding forward_max_delay put_skb call
  forward_max_delay-Forwarded small =
      let most = max_allowed b.network c in
      let so_far = delay_so_far b.network c in
      let small16 : so_far < 2 ^ 16 = swap16-lt _ in
      let max16 : most < 2 ^ 16 = swap16-lt _ in
      elim (Bool-cases (ltb most (u64 (so_far + delay)))) [
        | inl over ↦
            rw over (null, _, refl, inl (ground arith, refl, write-same s.skbs skb none, refl))
        | inr within ↦
            let fits : so_far + delay ≤ most = ground arith in
            let m : Mem = store16 (b.network) (c + 4) (htons (u16 (so_far + delay))) in
            rw within (
              skb,
              _,
              refl,
              inr (
                fits,
                refl,
                refl,
                (
                  m,
                  At-write s.skbs skb _ at.ne_null,
                  swap-field b.network (c + 4) (so_far + delay) (omega arith),
                  λ i p q.
                      store16_ne (b.network) (c + 4) (htons (u16 (so_far + delay))) i p
                        (omega arith),
                ),
              ),
            )
      ]

-- A packet of the plain queue with a max-delay contract that lies inside it.
pub record HasMaxDelay (b : Skb) : Type 0 where
  pub proto : b.h_proto ≡ htons eth_p_newip
  pub contract : has_contract b.network ≡ true
  pub inside : contract_at b.network + MaxDelay.size ≤ b.len
  pub header : 3 ≤ b.len
  pub type : load16 b.network (contract_at b.network + MaxDelay.contract_type) ≡ htons 1

module _ (kernel : Kernel) (s : State) (b : Skb) where
  -- The time that the packet has waited, in ticks.
  abbrev pub waited : ℕ
  waited = kernel.get_time (Call.dequeue_head ∷ s.calls) - b.enqueue_time

  -- The state when the packet has been taken off the plain queue and the time is known.
  abbrev pub taken : State
  taken = record s {
    sched = record (s.sched) { delay = waited };
    calls = Call.psched_get_time ∷ Call.dequeue_head ∷ s.calls;
  }

module _ (kernel : Kernel) (s : State) {skb : Ptr} (b : Skb) (at : At s.skbs skb b)
    (head : kernel.head_skb s.calls ≡ skb) (e : HasMaxDelay b) where
  -- A packet with a max-delay contract inside it at the head of the plain queue, on a clock that has not gone
  -- back and is not within 2^16 of its end: if its delay so far and the ticks that it has waited are
  -- together over the maximum, it is freed and counted as dropped and NULL is returned, and else it
  -- is returned with exactly that sum as its delay and its other bytes unchanged.
  pub dequeue_plain-Forwarded :
      b.enqueue_time ≤ kernel.get_time (Call.dequeue_head ∷ s.calls)
      → kernel.get_time (Call.dequeue_head ∷ s.calls) + 2 ^ 16 ≤ 2 ^ 64
      → (r : Ptr) × (s' : State) × (dequeue_plain kernel s ≡ ok r s')
        × Forwarded (taken kernel s b) skb (contract_at b.network) (waited kernel s b) b r s'
  unfolding dequeue_plain dequeue_head psched_get_time update_sched
  dequeue_plain-Forwarded before small =
      let s1 : State = record s { calls = Call.psched_get_time ∷ Call.dequeue_head ∷ s.calls } in
      let exact : ticks_since (kernel.get_time (Call.dequeue_head ∷ s.calls)) b.enqueue_time
          ≡ waited kernel s b =
        omega arith in
      let newip : (b.h_proto == htons eth_p_newip) ≡ true = ground (arith, e.proto) in
      let max_delay : (load16 b.network (contract_at b.network + 0) == htons 1) ≡ true =
        ground (arith, e.type) in
      let contract = e.contract in
      let inside = e.inside in
      let s2 : State = taken kernel s b in
      simp head (
        rw
          (
            not_null at,
            load_skb-At s1 at,
            exact,
            newip,
            in_packet-ok b 3 s2 e.header,
            contract,
            in_packet-ok b (contract_at b.network + 2) s2 (omega arith),
            max_delay,
            in_packet-ok b (contract_at b.network + 6) s2 inside,
          )
          (forward_max_delay-Forwarded (taken kernel s b) (contract_at b.network)
            (waited kernel s b) b at (omega arith)))
