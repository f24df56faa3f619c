-- ===== src/Lbf/Queue.antt =====
-- `pnode_queue_add` and `remove_pnode` of lbf/src/linux/sch_lbf.c: one hnode's packets, in a linked
-- list ordered by the time from which they may leave. The loop takes fuel, one unit for each node
-- that it looks at and one for the end of the list.
pub mod Chain
pub mod Order
pub mod Insert
pub mod Add
pub mod Remove
use new_ip_linux.Common.{ℕ, zero, suc, none, some, ◌==◌, if◌then◌else◌, ltb}
use new_ip_linux.Lbf.Store.{
  Ptr, null, Hnode, Pnode, Kernel, Run, out_of_fuel, Cmd, pure, ◌>>=◌, ◌>>◌,
}
use new_ip_linux.Lbf.Store.Access.{
  load_hnode, update_hnode, free_hnode, load_pnode, put_pnode, update_pnode, free_pnode, kcalloc,
}

abbrev pub set_queue : Ptr → Ptr → Cmd (Unit {0})
set_queue p q = update_hnode p (λ h. record h { queue = q })

abbrev pub set_next_hnode : Ptr → Ptr → Cmd (Unit {0})
set_next_hnode p q = update_hnode p (λ h. record h { next_hnode = q })

abbrev pub set_prev_hnode : Ptr → Ptr → Cmd (Unit {0})
set_prev_hnode p q = update_hnode p (λ h. record h { prev_hnode = q })

abbrev pub set_next : Ptr → Ptr → Cmd (Unit {0})
set_next p q = update_pnode p (λ n. record n { next = q })

abbrev pub set_hnode : Ptr → Ptr → Cmd (Unit {0})
set_hnode p q = update_pnode p (λ n. record n { hnode = q })

-- What `pnode_queue_add` stores in a new pnode.
abbrev pub new_pnode : (realpkt : Ptr) (tmin_nsec tmax_nsec trcv : ℕ) → Pnode
new_pnode realpkt tmin_nsec tmax_nsec trcv = record {
  next = null;
  hnode = null;
  tmin_nsec = tmin_nsec;
  tmax_nsec = tmax_nsec;
  trcv = trcv;
  realpkt = realpkt;
}

-- The loop of `pnode_queue_add` with its `prev_pnode` and `curr_pnode`.
unfoldable pub insert_pnode :
    ℕ → (hnode my_pnode : Ptr) (tmin_nsec : ℕ) (prev curr : Ptr) → Cmd (Unit {0})
unfolding update_hnode update_pnode load_pnode
insert_pnode zero hnode my_pnode tmin_nsec prev curr = λ _. out_of_fuel
insert_pnode (suc k) hnode my_pnode tmin_nsec prev curr =
    if curr == null then set_next prev my_pnode else do
      c ← load_pnode curr
      if ltb tmin_nsec c.tmin_nsec
          then (do
            if prev == curr
                then (do set_queue hnode my_pnode; set_hnode curr null; set_hnode my_pnode hnode)
                else set_next prev my_pnode
            set_next my_pnode curr)
          else insert_pnode k hnode my_pnode tmin_nsec curr c.next

-- The part of `pnode_queue_add` behind the allocation.
unfoldable pub enqueue_pnode : ℕ → (hnode my_pnode : Ptr) (tmin_nsec : ℕ) → Cmd (Unit {0})
unfolding load_hnode
enqueue_pnode fuel hnode my_pnode tmin_nsec = do
  h ← load_hnode hnode
  if h.queue == null
      then (do set_hnode my_pnode hnode; set_queue hnode my_pnode)
      else insert_pnode fuel hnode my_pnode tmin_nsec h.queue h.queue

-- If no memory is left, the packet is in no queue and nobody is told.
unfoldable pub pnode_queue_add :
    (kernel : Kernel)
    → ℕ
    → (hnode realpkt : Ptr) (tmin_nsec tmax_nsec trcv_nsec : ℕ) → Cmd (Unit {0})
unfolding kcalloc put_pnode
pnode_queue_add kernel fuel hnode realpkt tmin_nsec tmax_nsec trcv_nsec = do
  my_pnode ← kcalloc kernel
  if my_pnode == null then pure tt else do
    put_pnode my_pnode (some (new_pnode realpkt tmin_nsec tmax_nsec trcv_nsec))
    enqueue_pnode fuel hnode my_pnode tmin_nsec

-- `pnode->hnode` is followed in every case, so a pnode that is not at the head of its queue faults.
unfoldable pub remove_pnode : Ptr → Cmd (Unit {0})
unfolding load_pnode load_hnode update_hnode update_pnode free_hnode free_pnode
remove_pnode pnode = do
  n ← load_pnode pnode
  h ← load_hnode n.hnode
  if n.next == null
      then (if h.prev_hnode == null then set_queue n.hnode null else do
        set_next_hnode h.prev_hnode h.next_hnode
        if h.next_hnode == null then pure tt else set_prev_hnode h.next_hnode h.prev_hnode
        free_hnode n.hnode)
      else (do set_queue n.hnode n.next; set_hnode n.next n.hnode)
  free_pnode pnode
