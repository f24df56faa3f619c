-- ===== src/Lbf/Dequeue/Ends.antt =====
-- The end of `lbf_dequeue` of lbf/src/linux/sch_lbf.c: the delay of the packet, or the plain queue.
use new_ip_linux.Common.{
  ℕ, ◌≡◌, refl, Bool-cases, inl, inr, ◌⊎◌, true, false, Option, none, some, ◌∷◌, arith, ◌==◌,
  ==_iff, ltb, ◌/◌, ◌+◌,
}
use new_ip_linux.Wire.{eth_p_newip, load16, store16, htons, ntohs, u16, u64}
use new_ip_linux.Wire.MaxDelay
use new_ip_linux.Lbf.Store.{Ptr, null, Skb, Call, Calls, Kernel, State, At, write}
use new_ip_linux.Lbf.Store.Access.{
  not_null, load_skb-At, in_packet-ok, update_skb-At, put_skb, update_sched, psched_get_time, call,
}
use new_ip_linux.Lbf.Store.Returns.{Returns, returns, mono}
use new_ip_linux.Lbf.Stock.Valid.{Live, IsLive, IsLive-write}
use new_ip_linux.Lbf.Enqueue.Room.{IsWhole, contract_room, store16-IsWhole}
use new_ip_linux.Lbf.Enqueue.{has_contract, contract_at}
use new_ip_linux.Lbf.Dequeue.{
  add_delay, ticks_since, stamp, forward_max_delay, dequeue_head, dequeue_plain,
}

-- Nothing is changed but the statistics, the calls and buffers; those of `Q` stay live.
abbrev pub Settled : (s : State) (Q : Ptr → Type 0) → State → Type 0
Settled s Q s' =
    (d : ℕ) × (sk : Ptr → Option Skb) × (cs : Calls) × (s'
      ≡ record s { sched = record (s.sched) { delay = d }; skbs = sk; calls = cs })
    × ((a : Ptr) → Q a → IsLive s a → IsLive s' a)

abbrev AllPtr : Ptr → Type 0
AllPtr a = Unit {0}

abbrev pub OtherThan : Ptr → Ptr → Type 0
OtherThan p a = (a == p) ≡ false

other-At :
    {m : Ptr → Option Skb} (p : Ptr) (c : Option Skb) (a : Ptr)
    → OtherThan p a
    → Live m a
    → Live (write m p c) a
unfolding write
other-At p c a n (b, e, w) = (b, record { ne_null = e.ne_null; holds = rw n e.holds }, w)

-- The delay of a live buffer is noted in the statistics and in its contract.
pub stamp-Settled :
    (kernel : Kernel) (s : State) (skb : Ptr)
    → IsLive s skb
    → Returns (λ _ s'. Settled s AllPtr s') (stamp kernel skb s)
unfolding stamp psched_get_time update_sched add_delay
stamp-Settled kernel s skb (b, at, whole) =
    let delay : ℕ = kernel.ticks2ns (ticks_since (kernel.get_time s.calls) b.enqueue_time) / 1000 in
    let s1 : State = record s { calls = Call.psched_get_time ∷ s.calls } in
    let s2 : State = record s1 { sched = record (s.sched) { delay = delay } } in
    rw (load_skb-At s1 at, in_packet-ok b 3 s2 whole.header)
      (elim (Bool-cases (has_contract b.network)) [
        | inl y ↦
            rw
              (
                y,
                in_packet-ok b (contract_at b.network + 6 + 2) s2
                    (let r = contract_room b whole y in omega arith),
                update_skb-At s2 at (λ b. record b {
                  network = add_delay (b.network) (contract_at (b.network)) delay;
                }),
              )
              (returns (
                delay,
                _,
                _,
                refl,
                (λ a q e. IsLive-write skb _ a (store16-IsWhole b _ _ (omega arith) whole) e),
              ))
        | inr n ↦ rw n (returns (delay, _, _, refl, (λ a q e. e)))
      ])

-- A packet of the plain queue: it is freed and NULL is returned, or it is live and returned.
abbrev pub FromPlain : (s : State) (head : Ptr) → Ptr → State → Type 0
FromPlain s head r s' = ((r ≡ null) ⊎ (r ≡ head) × IsLive s' r) × Settled s (OtherThan head) s'

module _ (s : State) {skb : Ptr} (c delay : ℕ) (b : Skb) (at : At s.skbs skb b)
    (whole : IsWhole b) where
  forward_max_delay-FromPlain : Returns (FromPlain s skb) (forward_max_delay skb c delay b s)
  unfolding forward_max_delay put_skb call write
  forward_max_delay-FromPlain =
      let over =
        ltb (ntohs (load16 (b.network) (c + MaxDelay.max_allowed_delay)))
          (u64 (ntohs (load16 (b.network) (c + MaxDelay.delay_exp)) + delay)) in
      let sent : Skb = record b {
        network =
            store16 (b.network) (c + MaxDelay.delay_exp)
              (htons (u16 (ntohs (load16 (b.network) (c + MaxDelay.delay_exp)) + delay)));
      } in
      let itself : (skb == skb) ≡ true = (==_iff skb skb).1 refl in
      elim (Bool-cases over) [
        | inl y ↦
            rw y
              (returns (inl refl, (s.sched.delay, _, _, refl, (λ a n e. other-At skb none a n e))))
        | inr n ↦ rw n (
            returns (
              inr (
                refl,
                (
                  sent,
                  record { ne_null = at.ne_null; holds = rw itself refl },
                  store16-IsWhole b _ _ (omega arith) whole,
                ),
              ),
              (s.sched.delay, _, _, refl, (λ a n e. other-At skb (some sent) a n e)),
            ))
      ]

-- The plain queue, whose first buffer is live if there is one.
pub dequeue_plain-FromPlain :
    (kernel : Kernel) (s : State)
    → (kernel.head_skb s.calls ≡ null) ⊎ IsLive s (kernel.head_skb s.calls)
    → Returns (FromPlain s (kernel.head_skb s.calls)) (dequeue_plain kernel s)
unfolding dequeue_plain dequeue_head psched_get_time update_sched
dequeue_plain-FromPlain kernel s (inl none_left) =
    let z : (kernel.head_skb s.calls == null) ≡ true = ground (arith, none_left) in
    rw z (returns (inl refl, (s.sched.delay, s.skbs, _, refl, (λ a n e. e))))
dequeue_plain-FromPlain kernel s (inr (b, at, whole)) =
    let skb : Ptr = kernel.head_skb s.calls in
    let now : ℕ = kernel.get_time (Call.dequeue_head ∷ s.calls) in
    let s1 : State = record s { calls = Call.psched_get_time ∷ Call.dequeue_head ∷ s.calls } in
    let delay : ℕ = ticks_since now b.enqueue_time in
    let s2 : State = record s1 { sched = record (s.sched) { delay = delay } } in
    let at2 : At s2.skbs skb b = at in
    let header = in_packet-ok b 3 s2 whole.header in
    let plain : FromPlain s skb skb s2 =
      (inr (refl, (b, at, whole)), (delay, s.skbs, _, refl, (λ a n e. e))) in
    rw (not_null at, load_skb-At s1 at)
      (elim (Bool-cases (b.h_proto == htons eth_p_newip)) [
        | inr n ↦ rw n (returns plain)
        | inl y ↦ elim (Bool-cases (has_contract b.network)) [
          | inr n ↦ rw (y, header, n) (returns plain)
          | inl c ↦
              let room = contract_room b whole c in
              let type = in_packet-ok b (contract_at b.network + 2) s2 (omega arith) in
              let delays = in_packet-ok b (contract_at b.network + 6) s2 (omega arith) in
              elim (Bool-cases
                (load16 (b.network) (contract_at b.network + MaxDelay.contract_type) == htons 1)) [
                  | inr n ↦ rw (y, header, c, type, n) (returns plain)
                  | inl m ↦
                      rw (y, header, c, type, m, delays)
                        (mono
                          (forward_max_delay-FromPlain s2 (contract_at b.network) delay b at2 whole)
                          (λ r s' h. h))
                ]
        ]
      ])
