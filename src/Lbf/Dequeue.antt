-- ===== src/Lbf/Dequeue.antt =====
-- `lbf_dequeue` of lbf/src/linux/sch_lbf.c: the packet whose time the watchdog was set to, then a
-- search over all queues, then the watchdog's next time, then the plain queue.
pub mod Orphan
pub mod Plain
pub mod Take
pub mod Kept
pub mod Now
pub mod Next
pub mod Watch
pub mod Ends
pub mod Finish
pub mod Whole
pub mod Ready
use new_ip_linux.Common.{
  ℕ, ◌+◌, ◌-◌, ◌/◌, ◌^◌, not, none, some, ◌∷◌, ◌&&◌, ◌==◌, if◌then◌else◌, ltb,
}
use new_ip_linux.Wire.{Mem, eth_p_newip, u16, u64, load16, store16, swap16, htons, ntohs}
use new_ip_linux.Wire.NewipOffset
use new_ip_linux.Wire.Latency
use new_ip_linux.Wire.MaxDelay
use new_ip_linux.Lbf.Store.{Ptr, null, Skb, Call, Kernel, ok, Cmd, pure, ◌>>=◌, ◌>>◌}
use new_ip_linux.Lbf.Store.Access.{
  load_pnode, update_pnode, load_skb, in_packet, put_skb, update_skb, get_sched, update_sched, call,
  psched_get_time, time_ns,
}
use new_ip_linux.Lbf.Queue.{remove_pnode}
use new_ip_linux.Lbf.Search.{is_expired, search_next_pnode, search_now_pnode}
use new_ip_linux.Lbf.Enqueue.{has_contract, contract_at}

-- `p->realpkt = NULL; remove_pnode(p);`
unfoldable pub take_pnode : Ptr → Cmd (Unit {0})
unfolding update_pnode
take_pnode p = do update_pnode p (λ n. record n { realpkt = null }); remove_pnode p

-- `q->next_pnode = p`
abbrev pub set_next_pnode : Ptr → Cmd (Unit {0})
set_next_pnode p = update_sched (λ q. record q { next_pnode = p })

-- The first block: the pnode of the watchdog, if any, is sent, dropped or left.
unfoldable pub take_next : (curr_time : ℕ) → Cmd Ptr
unfolding load_pnode get_sched update_sched call
take_next curr_time = do
  q ← get_sched
  if q.next_pnode == null then pure null else do
    n ← load_pnode q.next_pnode
    if is_expired curr_time q.hops_left n
        then (do call Call.qstats_drop; take_pnode q.next_pnode; set_next_pnode null; pure null)
        else (if ltb curr_time n.tmin_nsec
            then pure null
            else do take_pnode q.next_pnode; set_next_pnode null; pure n.realpkt)

-- `qdisc_dequeue_head(sch)`
unfoldable pub dequeue_head : Kernel → Cmd Ptr
dequeue_head kernel s =
    ok (kernel.head_skb s.calls) (record s { calls = Call.dequeue_head ∷ s.calls })

-- The second block: a packet that the search finds takes the place of `skb`.
unfoldable pub take_now : Kernel → ℕ → (skb : Ptr) → Cmd Ptr
unfolding load_pnode
take_now kernel fuel skb = do
  pnode_now ← search_now_pnode kernel fuel
  if pnode_now == null
      then pure skb
      else do n ← load_pnode pnode_now; take_pnode pnode_now; pure n.realpkt

-- The third block: the watchdog is set to the packet that may leave first.
unfoldable pub watch_next : Kernel → ℕ → Cmd (Unit {0})
unfolding get_sched update_sched load_pnode call
watch_next kernel fuel = do
  next_pnode ← search_next_pnode kernel fuel
  q ← get_sched
  if not (next_pnode == null) && not (next_pnode == q.next_pnode)
      then (do
        set_next_pnode next_pnode
        n ← load_pnode next_pnode
        call (Call.watchdog_schedule_ns n.tmin_nsec))
      else pure tt

-- `lbf->experienced_delay` of the contract at offset `c`, larger by `delay / 100`.
unfoldable pub add_delay : Mem → (c delay : ℕ) → Mem
unfolding load16 store16 swap16
add_delay m c delay =
    store16 m (c + Latency.experienced_delay)
      (htons (u16 (ntohs (load16 m (c + Latency.experienced_delay)) + delay / 100)))

-- `psched_get_time() - lbf_get_enqueue_time(skb)` on unsigned 64-bit numbers.
abbrev pub ticks_since : (now enqueue_time : ℕ) → ℕ
ticks_since now enqueue_time = u64 (now + 2 ^ 64 - enqueue_time)

-- The time that a packet of the LBF queues has waited, in its statistics and in its contract.
unfoldable pub stamp : Kernel → (skb : Ptr) → Cmd (Unit {0})
unfolding psched_get_time load_skb update_sched update_skb
stamp kernel skb = do
  now ← psched_get_time kernel
  b ← load_skb skb
  let delay = kernel.ticks2ns (ticks_since now b.enqueue_time) / 1000
  update_sched (λ q. record q { delay = delay })
  in_packet b NewipOffset.size
  if has_contract b.network
      then (do
        in_packet b (contract_at b.network + Latency.experienced_delay + 2)
        update_skb skb
            (λ b. record b { network = add_delay (b.network) (contract_at (b.network)) delay }))
      else pure tt

-- A packet of the plain queue with a max-delay contract, at offset `c`.
unfoldable pub forward_max_delay : (skb : Ptr) → (c delay : ℕ) → Skb → Cmd Ptr
unfolding put_skb call
forward_max_delay skb c delay b =
    let max_allowed_delay = ntohs (load16 b.network (c + MaxDelay.max_allowed_delay)) in
    let delay_exp = ntohs (load16 b.network (c + MaxDelay.delay_exp)) in
    if ltb max_allowed_delay (u64 (delay_exp + delay))
    then (do put_skb skb none; call (Call.kfree_skb skb); call Call.qstats_drop; pure null)
    else (do
      put_skb skb (
          some (record b {
            network =
                store16 (b.network) (c + MaxDelay.delay_exp) (htons (u16 (delay_exp + delay)));
          }))
      pure skb)

-- The plain queue, behind `skb = qdisc_dequeue_head(sch)`.
unfoldable pub dequeue_plain : Kernel → Cmd Ptr
unfolding dequeue_head psched_get_time load_skb update_sched
dequeue_plain kernel = do
  skb ← dequeue_head kernel
  if skb == null then pure null else do
    now ← psched_get_time kernel
    b ← load_skb skb
    let delay = ticks_since now b.enqueue_time
    update_sched (λ q. record q { delay = delay })
    if b.h_proto == htons eth_p_newip
        then (do
          in_packet b NewipOffset.size
          if has_contract b.network
              then (do
                in_packet b (contract_at b.network + 2)
                if load16 b.network (contract_at b.network + MaxDelay.contract_type) == htons 1
                    then (do
                      in_packet b (contract_at b.network + MaxDelay.size)
                      forward_max_delay skb (contract_at b.network) delay b)
                    else pure skb)
              else pure skb)
        else pure skb

unfoldable pub dequeue : Kernel → ℕ → Cmd Ptr
unfolding time_ns call
dequeue kernel fuel = do
  curr_time ← time_ns kernel
  early ← take_next curr_time
  skb ← take_now kernel fuel early
  watch_next kernel fuel
  if skb == null then dequeue_plain kernel else do
    stamp kernel skb
    call (Call.backlog_dec skb)
    call (Call.bstats_update skb)
    call Call.qlen_dec
    pure skb
