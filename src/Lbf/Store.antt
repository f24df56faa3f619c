-- ===== src/Lbf/Store.antt =====
-- The store of the queue discipline of lbf/src/linux/sch_lbf.c and the commands over it. Each
-- structure of the C file has a map from addresses to its live objects, so a read or write through
-- NULL, or of an object that has been freed, is a fault. What the kernel answers is a function of
-- the calls made so far, `Kernel`, and every call that the C file makes for its effect is recorded.
pub mod Access
pub mod Returns
use new_ip_linux.Common.{ℕ, ◌≡◌, ◌≢◌, Bool, Option, none, some, List, ◌∷◌, ◌==◌, if◌then◌else◌}
use new_ip_linux.Common.Int.{ℤ}
use new_ip_linux.Wire.{Mem}

abbrev pub Ptr : Type 0
Ptr = ℕ

abbrev pub null : Ptr
null = 0

-- `struct lbf_hnode`: packets of one range of budgets, in a list by `next_hnode`.
pub record Hnode : Type 0 where
  pub next_hnode : Ptr
  pub queue : Ptr
  pub prev_hnode : Ptr
  pub hnode_num : ℕ
  pub range_start : ℕ
  pub range_end : ℕ

-- `struct lbf_pnode`: a packet and the times between which it may leave.
pub record Pnode : Type 0 where
  pub next : Ptr
  pub hnode : Ptr
  pub tmin_nsec : ℕ
  pub tmax_nsec : ℕ
  pub trcv : ℕ
  pub realpkt : Ptr

-- `struct lbf_hnode_head`
pub record HnodeHead : Type 0 where
  pub head : Ptr
  pub tail : Ptr
  pub len : ℕ

-- The parts of an `sk_buff` that the C file uses: the protocol of its Ethernet header as it is
-- loaded, the bytes from the network header on, of which `len` are in the packet, and its control
-- block.
pub record Skb : Type 0 where
  pub h_proto : ℕ
  pub len : ℕ
  pub network : Mem
  pub val : ℕ
  pub enqueue_time : ℕ

-- `struct lbf_sched_data` with its `lbf_vars` and `lbf_stats`. `none` is the NULL `hnode_list`.
pub record Sched : Type 0 where
  pub hnode_list : Option HnodeHead
  pub next_pnode : Ptr
  pub hops_left : ℕ
  pub delay : ℕ
  pub overlimit : ℕ

-- The calls into the kernel that have an effect there.
pub data Call : Type 0 where
  psched_get_time kcalloc qstats_drop qlen_inc qlen_dec dequeue_head : Call
  reset_queue watchdog_init watchdog_cancel : Call
  watchdog_schedule_ns : ℕ → Call
  qdisc_drop drop_to_free kfree_skb enqueue_tail : Ptr → Call
  backlog_inc backlog_dec bstats_update : Ptr → Call

abbrev pub Calls : Type 0
Calls = List Call

-- What the kernel answers, by the calls made so far, the newest first. The answer of a call in
-- `Calls` is asked before the call is recorded.
pub record Kernel : Type 0 where
  pub get_time : Calls → ℕ
  pub ticks2ns : ℕ → ℕ
  pub alloc : Calls → Ptr
  pub qdisc_qlen : Calls → ℕ
  pub drop_status : Calls → ℤ
  pub tail_status : Calls → ℤ
  pub head_skb : Calls → Ptr
  pub watchdog_of_sch : Calls → Bool

-- The discipline's private data, `sch->limit`, the live objects and the calls made.
pub record State : Type 0 where
  pub sched : Sched
  pub limit : ℕ
  pub hnodes : Ptr → Option Hnode
  pub pnodes : Ptr → Option Pnode
  pub skbs : Ptr → Option Skb
  pub calls : Calls

pub data Run (A : Type 0) : Type 0 where
  ok : A → State → Run A
  fault : Run A
  out_of_fuel : Run A

abbrev pub Cmd : Type 0 → Type 0
Cmd A = State → Run A

abbrev pub pure : {A : Type 0} → A → Cmd A
pure a s = ok a s

abbrev pub and_then : {A B : Type 0} → Run A → (A → Cmd B) → Run B
and_then (ok a s) k = k a s
and_then fault k = fault
and_then out_of_fuel k = out_of_fuel

infixl 5 ◌>>=◌ ◌>>◌
abbrev pub ◌>>=◌ : {A B : Type 0} → Cmd A → (A → Cmd B) → Cmd B
◌>>=◌ m k s = and_then (m s) k

abbrev pub ◌>>◌ : {B : Type 0} → Cmd (Unit {0}) → Cmd B → Cmd B
m >> k = m >>= λ _. k

-- One address of a map gets a new content.
unfoldable pub write : {A : Type 0} → (Ptr → Option A) → Ptr → Option A → Ptr → Option A
write m p c q = if q == p then c else m q

-- The object at an address; NULL has none.
unfoldable pub read : {A : Type 0} → (Ptr → Option A) → Ptr → Option A
read m p = if p == null then none else m p

-- A live object.
pub record At {A : Type 0} (m : Ptr → Option A) (p : Ptr) (a : A) : Type 0 where
  pub ne_null : p ≢ null
  pub holds : m p ≡ some a
