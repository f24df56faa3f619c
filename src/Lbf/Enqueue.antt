-- ===== src/Lbf/Enqueue.antt =====
-- `lbf_enqueue` of lbf/src/linux/sch_lbf.c. A packet with a latency contract gets its window on this
-- hop and joins the queue of its budget; any other goes to the discipline's plain queue.
pub mod Hops
pub mod Windows
pub mod Room
pub mod Serve
pub mod Join
pub mod Admit
pub mod Contracted
pub mod Arrive
use new_ip_linux.Common.{
  ℕ, ◌+◌, ◌-◌, ◌*◌, ◌^◌, Bool, not, ◌∷◌, false, ◌||◌, ◌==◌, if◌then◌else◌, ltb, leb,
}
use new_ip_linux.Common.Int.{ℤ, pos, minus_one}
use new_ip_linux.Wire.{
  Mem, eth_p_newip, load8, u16, u32, u64, load16, store16, swap16, htons, ntohs,
}
use new_ip_linux.Wire.NewipOffset
use new_ip_linux.Wire.Latency
use new_ip_linux.Lbf.Delay.{lqb_besteffort, get_min_delay, get_max_delay}
use new_ip_linux.Lbf.Store.{Ptr, null, Call, Kernel, ok, Cmd, pure, ◌>>=◌, ◌>>◌}
use new_ip_linux.Lbf.Store.Access.{
  load_skb, in_packet, update_skb, update_sched, call, psched_get_time, time_ns,
}
use new_ip_linux.Lbf.Queue.{pnode_queue_add}
use new_ip_linux.Lbf.Ranges.{get_hnode}

-- The test for a contract in a packet's header, with the operands of the source.
unfoldable pub has_contract : Mem → Bool
has_contract m =
    not (load8 m NewipOffset.contract_offset == load8 m NewipOffset.payload_offset)
    || not (load8 m NewipOffset.contract_offset == 0)

-- `skb_network_header(skb) + newipoff->contract_offset`, from the network header.
abbrev pub contract_at : Mem → ℕ
contract_at m = load8 m NewipOffset.contract_offset

-- An `int` as a `__u64`: its sign is extended.
abbrev pub int_to_u64 : ℕ → ℕ
int_to_u64 v = if ltb v (2 ^ 31) then v else v + (2 ^ 64 - 2 ^ 32)

-- `NSEC_PER_USEC * 100`: nanoseconds in the unit of the contract's delays, 10^-4 s.
abbrev pub nsec_per_unit : ℕ
nsec_per_unit = 1000 * 100

-- The local variables of the latency branch.
pub record Window : Type 0 where
  pub e_delay_new : ℕ
  pub max_delay : ℕ
  pub fib_todelay : ℕ
  pub lqmin : ℕ
  pub lqmax : ℕ

-- The delays of the contract at offset `c`, written back with a delay of 0 on this hop.
unfoldable pub update_delays : Mem → (c : ℕ) → Mem
update_delays m c =
    let h_delay : ℕ = 0 in
    let m' : Mem =
      store16 m (c + Latency.experienced_delay)
        (htons (u16 (ntohs (load16 m (c + Latency.experienced_delay)) + h_delay * 10))) in
    store16 m' (c + Latency.fib_todelay)
      (htons (u16 (ntohs (load16 m' (c + Latency.fib_todelay)) + 2 ^ 16 - h_delay)))

-- `lbf->fib_tohops - htons(1)`, in the order of the network on both sides.
unfoldable pub less_hop : ℕ → ℕ
less_hop raw = u16 (raw + 2 ^ 16 - htons 1)

-- What it reads from the contract. The products are cut to 16 bits.
unfoldable pub window : Mem → (c : ℕ) → Window
window m c =
    let e_delay_new : ℕ = ntohs (load16 m (c + Latency.experienced_delay)) in
    let min_delay : ℕ = u16 (ntohs (load16 m (c + Latency.min_delay)) * 10) in
    let max_delay : ℕ = u16 (ntohs (load16 m (c + Latency.max_delay)) * 10) in
    let fib_todelay : ℕ = u16 (ntohs (load16 m (c + Latency.fib_todelay)) * 10) in
    let fib_tohops : ℕ = ntohs (load16 m (c + Latency.fib_tohops)) in
    record {
      e_delay_new = e_delay_new;
      max_delay = max_delay;
      fib_todelay = fib_todelay;
      lqmin = get_min_delay e_delay_new min_delay fib_todelay fib_tohops;
      lqmax = get_max_delay e_delay_new max_delay fib_todelay fib_tohops;
    }

-- The test of the early discard.
abbrev pub is_late : Window → Bool
is_late w = if ltb 0 w.max_delay then ltb w.max_delay (w.e_delay_new + w.fib_todelay) else false

-- The key of the packet's queue.
abbrev pub budget : Window → ℕ
budget w = if ltb 0 w.max_delay then u16 (w.lqmax + 2 ^ 16 - w.lqmin) else lqb_besteffort

-- An absolute time `delay` units from `now`.
abbrev pub at_delay : (now delay : ℕ) → ℕ
at_delay now delay = u64 (now + delay * nsec_per_unit)

module _ (kernel : Kernel) (fuel : ℕ) where
  -- The packet is in time: its window starts now, and it joins the queue of its budget.
  unfoldable pub admit : (skb : Ptr) → (trcv : ℕ) → Window → Cmd ℤ
  unfolding time_ns call
  admit skb trcv w = do
    curr_time ← time_ns kernel
    hnode ← get_hnode kernel fuel (budget w)
    if hnode == null then pure (pos 1) else do
      pnode_queue_add kernel fuel hnode skb (at_delay curr_time w.lqmin)
          (at_delay curr_time w.lqmax) trcv
      call (Call.backlog_inc skb)
      call Call.qlen_inc
      pure (pos 0)

  -- The branch of a latency contract. The hops are tested as they are stored: 0 in either order.
  -- A late packet is counted as dropped, and is neither freed nor put on `to_free`.
  unfoldable pub enqueue_latency : (skb : Ptr) → Cmd ℤ
  unfolding load_skb call update_skb update_sched
  enqueue_latency skb = do
    b ← load_skb skb
    let c = contract_at b.network
    in_packet b (c + Latency.size)
    if load16 b.network (c + Latency.fib_tohops) == 0
        then (do call Call.qstats_drop; call (Call.drop_to_free skb); pure (pos 1))
        else (do
          let delays = update_delays b.network c
          let w = window delays c
          let hops = less_hop (load16 delays (c + Latency.fib_tohops))
          update_skb skb (λ b. record b { network = store16 delays (c + Latency.fib_tohops) hops })
          update_sched (λ q. record q { hops_left = hops })
          if is_late w
              then (do call Call.qstats_drop; pure minus_one)
              else admit skb (int_to_u64 b.val) w)

  -- `qdisc_enqueue_tail(skb, sch)`
  unfoldable pub enqueue_tail : (skb : Ptr) → Cmd ℤ
  enqueue_tail skb s =
      ok (kernel.tail_status s.calls) (record s { calls = Call.enqueue_tail skb ∷ s.calls })

  -- `return qdisc_drop(skb, sch, to_free)`
  unfoldable pub drop : (skb : Ptr) → Cmd ℤ
  drop skb s = ok (kernel.drop_status s.calls) (record s { calls = Call.qdisc_drop skb ∷ s.calls })

  unfoldable pub enqueue : (skb : Ptr) → Cmd ℤ
  unfolding update_sched drop psched_get_time update_skb load_skb enqueue_tail
  enqueue skb s =
      if leb s.limit (kernel.qdisc_qlen s.calls)
      then (do update_sched (λ q. record q { overlimit = u32 (q.overlimit + 1) }); drop skb) s
      else (do
        now ← psched_get_time kernel
        update_skb skb (λ b. record b { enqueue_time = now })
        b ← load_skb skb
        if b.h_proto == htons eth_p_newip
            then (do
              in_packet b NewipOffset.size
              if has_contract b.network
                  then (do
                    in_packet b (contract_at b.network + 2)
                    if load16 b.network (contract_at b.network) == htons 1
                        then enqueue_tail skb
                        else (if load16 b.network (contract_at b.network) == htons 2
                            then enqueue_latency skb
                            else enqueue_tail skb))
                  else enqueue_tail skb)
            else enqueue_tail skb)
          s
