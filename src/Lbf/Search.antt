-- ===== src/Lbf/Search.antt =====
-- `search_next_pnode` and `search_now_pnode` of lbf/src/linux/sch_lbf.c: walks over all hnodes that
-- drop the expired packets at the heads of the queues. Each loop takes fuel, one unit a round.
pub mod Now
pub mod Next
pub mod Expired
pub mod Scan
pub mod Leaves
pub mod Rest
pub mod Keeps
pub mod Walk
pub mod Soonest
pub mod Missed
use new_ip_linux.Common.{
  ℕ, zero, suc, ◌-◌, ◌^◌, Bool, none, some, ◌&&◌, ◌==◌, if◌then◌else◌, ltb, leb,
}
use new_ip_linux.Lbf.Store.{Ptr, null, Pnode, Kernel, out_of_fuel, Cmd, pure, ◌>>=◌, ◌>>◌}
use new_ip_linux.Lbf.Store.Access.{load_hnode, load_pnode, get_sched, time_ns}
use new_ip_linux.Lbf.Queue.{remove_pnode}

-- `ULLONG_MAX`
abbrev pub ullong_max : ℕ
ullong_max = 2 ^ 64 - 1

-- A packet is dropped only on the last hop; `hops_left` is as it is stored, in network order.
abbrev pub is_expired : (curr_time hops_left : ℕ) → Pnode → Bool
is_expired curr_time hops_left n = ltb n.tmax_nsec curr_time && hops_left == 0

-- Back to the previous hnode where the last packet of this one is dropped and there is one.
unfoldable pub step_back : (curr_hnode next : Ptr) → Cmd Ptr
unfolding load_hnode
step_back curr_hnode next =
    if next == null
    then (do
      h ← load_hnode curr_hnode
      pure (if h.prev_hnode == null then curr_hnode else h.prev_hnode))
    else pure curr_hnode

-- What the walk of `search_next_pnode` carries: its hnode, `tmin` and `ret`.
pub record Best : Type 0 where
  pub at : Ptr
  pub tmin : ℕ
  pub ret : Ptr

-- The inner loop of `search_next_pnode`.
unfoldable pub scan_next : ℕ → (curr_time : ℕ) → Best → (curr_pnode : Ptr) → Cmd Best
unfolding load_pnode get_sched
scan_next zero curr_time b curr_pnode = λ _. out_of_fuel
scan_next (suc k) curr_time b curr_pnode = if curr_pnode == null then pure b else do
  n ← load_pnode curr_pnode
  q ← get_sched
  if is_expired curr_time q.hops_left n
      then (do
        at ← step_back b.at n.next
        remove_pnode curr_pnode
        scan_next k curr_time (record b { at = at }) n.next)
      else pure
          (if ltb n.tmin_nsec b.tmin then record b { tmin = n.tmin_nsec; ret = curr_pnode } else b)

-- Its outer loop.
unfoldable pub walk_next : (fuel : ℕ) → ℕ → (curr_time : ℕ) → Best → Cmd Ptr
unfolding load_hnode
walk_next fuel zero curr_time b = λ _. out_of_fuel
walk_next fuel (suc k) curr_time b = if b.at == null then pure b.ret else do
  h ← load_hnode b.at
  b' ← scan_next fuel curr_time b h.queue
  h' ← load_hnode b'.at
  walk_next fuel k curr_time (record b' { at = h'.next_hnode })

unfoldable pub search_next_pnode : Kernel → ℕ → Cmd Ptr
unfolding time_ns get_sched
search_next_pnode kernel fuel = do
  curr_time ← time_ns kernel
  q ← get_sched
  elim q.hnode_list [
    | none ↦ pure null
    | some list ↦
        walk_next fuel fuel curr_time (record { at = list.head; tmin = ullong_max; ret = null })
  ]

-- What the inner loop of `search_now_pnode` ends with: a packet to send, or the hnode it is at.
pub data Found : Type 0 where
  send : Ptr → Found
  go_on : Ptr → Found

abbrev pub and_found : Found → (Ptr → Cmd Ptr) → Cmd Ptr
and_found (send p) k = pure p
and_found (go_on at) k = k at

-- The inner loop of `search_now_pnode`.
unfoldable pub scan_now : ℕ → (curr_time : ℕ) (curr_hnode curr_pnode : Ptr) → Cmd Found
unfolding load_pnode get_sched
scan_now zero curr_time curr_hnode curr_pnode = λ _. out_of_fuel
scan_now (suc k) curr_time curr_hnode curr_pnode =
    if curr_pnode == null then pure (go_on curr_hnode) else do
      n ← load_pnode curr_pnode
      q ← get_sched
      if leb n.tmin_nsec curr_time
          then (if is_expired curr_time q.hops_left n
              then (do
                at ← step_back curr_hnode n.next
                remove_pnode curr_pnode
                scan_now k curr_time at n.next)
              else pure (send curr_pnode))
          else pure (go_on curr_hnode)

-- Its outer loop.
unfoldable pub walk_now : (fuel : ℕ) → ℕ → (curr_time : ℕ) (curr_hnode : Ptr) → Cmd Ptr
unfolding load_hnode
walk_now fuel zero curr_time curr_hnode = λ _. out_of_fuel
walk_now fuel (suc k) curr_time curr_hnode = if curr_hnode == null then pure null else do
  h ← load_hnode curr_hnode
  found ← scan_now fuel curr_time curr_hnode h.queue
  and_found found λ at. (do h' ← load_hnode at; walk_now fuel k curr_time h'.next_hnode)

unfoldable pub search_now_pnode : Kernel → ℕ → Cmd Ptr
unfolding time_ns get_sched
search_now_pnode kernel fuel = do
  curr_time ← time_ns kernel
  q ← get_sched
  elim q.hnode_list [ none ↦ pure null | some list ↦ walk_now fuel fuel curr_time list.head ]
