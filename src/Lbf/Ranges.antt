-- ===== src/Lbf/Ranges.antt =====
-- `create_hnode` and `lbf_get_hnode` of lbf/src/linux/sch_lbf.c: the list of hnodes, ordered by the
-- start of their ranges, and the search for the hnode of a budget. The loop takes fuel as that of
-- `pnode_queue_add` does.
pub mod Order
pub mod Line
pub mod Find
pub mod Get
pub mod Full
use new_ip_linux.Common.{
  ℕ, zero, suc, ◌+◌, ◌-◌, ◌%◌, none, some, ◌&&◌, ◌==◌, if◌then◌else◌, ltb, leb,
}
use new_ip_linux.Lbf.Store.{Ptr, null, Hnode, Kernel, Run, out_of_fuel, Cmd, pure, ◌>>=◌, ◌>>◌}
use new_ip_linux.Lbf.Store.Access.{
  load_hnode, put_hnode, update_hnode, get_sched, load_list, store_list, kcalloc,
}
use new_ip_linux.Lbf.Queue.{set_next_hnode}

-- `LQB_RANGE`
abbrev pub lqb_range : ℕ
lqb_range = 10

-- What `create_hnode` stores in a new hnode.
abbrev pub new_hnode : (lqbudget hnode_num : ℕ) → Hnode
new_hnode lqbudget hnode_num = record {
  next_hnode = null;
  queue = null;
  prev_hnode = null;
  hnode_num = hnode_num;
  range_start = lqbudget - lqbudget % lqb_range;
  range_end = lqbudget - lqbudget % lqb_range + lqb_range - 1;
}

unfoldable pub create_hnode : Kernel → (lqbudget hnode_num : ℕ) → Cmd Ptr
unfolding kcalloc put_hnode
create_hnode kernel lqbudget hnode_num = do
  p ← kcalloc kernel
  if p == null then pure null else do put_hnode p (some (new_hnode lqbudget hnode_num)); pure p

-- The first statement of `lbf_get_hnode`: an absent list is allocated and written without a test.
unfoldable pub ensure_list : Kernel → Cmd (Unit {0})
unfolding kcalloc get_sched store_list
ensure_list kernel = do
  q ← get_sched
  elim q.hnode_list [
    | some _ ↦ pure tt
    | none ↦ (do
      temp ← kcalloc kernel
      if temp == null
          then (λ _. Run.fault)
          else store_list (record { head = null; tail = null; len = 0 }))
  ]

-- `list->len++`
unfoldable pub count_hnode : Cmd (Unit {0})
unfolding load_list store_list
count_hnode = do list ← load_list; store_list (record list { len = list.len + 1 })

-- `list->head = p`
unfoldable pub set_head : Ptr → Cmd (Unit {0})
unfolding load_list store_list
set_head p = do list ← load_list; store_list (record list { head = p })

-- The loop of `lbf_get_hnode` with its `prev_hnode` and `curr_hnode`. The end of a range is its last
-- budget, and the test leaves it out.
unfoldable pub find_hnode : Kernel → ℕ → (lqbudget : ℕ) (prev curr : Ptr) → Cmd Ptr
unfolding load_hnode update_hnode load_list count_hnode set_head
find_hnode kernel zero lqbudget prev curr = λ _. out_of_fuel
find_hnode kernel (suc k) lqbudget prev curr =
    if curr == null
    then (do
      list ← load_list
      p ← create_hnode kernel lqbudget list.len
      if p == null then pure null else do set_next_hnode prev p; count_hnode; pure p)
    else do
      c ← load_hnode curr
      if leb c.range_start lqbudget && ltb lqbudget c.range_end
          then pure curr
          else (if ltb lqbudget c.range_start
              then (do
                list ← load_list
                p ← create_hnode kernel lqbudget list.len
                if p == null then pure null else do
                  set_next_hnode p curr
                  if curr == prev then set_head p else set_next_hnode prev p
                  count_hnode
                  pure p)
              else find_hnode kernel k lqbudget curr c.next_hnode)

unfoldable pub get_hnode : Kernel → ℕ → (lqbudget : ℕ) → Cmd Ptr
unfolding load_list count_hnode set_head
get_hnode kernel fuel lqbudget = do
  ensure_list kernel
  list ← load_list
  if list.head == null
      then (do
        p ← create_hnode kernel lqbudget list.len
        if p == null then pure null else do count_hnode; set_head p; pure p)
      else find_hnode kernel fuel lqbudget list.head list.head
