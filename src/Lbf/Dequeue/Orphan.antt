-- ===== src/Lbf/Dequeue/Orphan.antt =====
-- `lbf_dequeue` of lbf/src/linux/sch_lbf.c where the watchdog's packet is no head of a queue.
use new_ip_linux.Common.{ℕ, ◌≤◌, ◌≡◌, refl, inl, inr, Bool-cases, false, some, ◌∷◌, arith, ltb}
use new_ip_linux.Lbf.Store.{Ptr, null, Pnode, Call, Kernel, State, fault, At, write}
use new_ip_linux.Lbf.Store.Access.{
  not_null, At-write, load_pnode-At, update_pnode-At, get_sched, call, psched_get_time, time_ns,
}
use new_ip_linux.Lbf.Queue.Remove.{remove_pnode-orphan}
use new_ip_linux.Lbf.Search.{is_expired}
use new_ip_linux.Lbf.Dequeue.{take_pnode, take_next, dequeue}

take_pnode-orphan :
    (s : State) {p : Ptr} {n : Pnode} → At s.pnodes p n → n.hnode ≡ null → take_pnode p s ≡ fault
unfolding take_pnode
take_pnode-orphan s {p} {n} e orphan =
    let taken : Pnode = record n { realpkt = null } in
    let s1 : State = record s { pnodes = write s.pnodes p (some taken) } in
    rw (update_pnode-At s e (λ n. record n { realpkt = null }))
      (remove_pnode-orphan s1 (At-write s.pnodes p taken e.ne_null) orphan)

take_next-orphan :
    (now : ℕ) (s : State) {p : Ptr} {n : Pnode}
    → s.sched.next_pnode ≡ p
    → At s.pnodes p n
    → n.hnode ≡ null
    → n.tmin_nsec ≤ now
    → take_next now s ≡ fault
unfolding take_next get_sched call
take_next-orphan now s {p} {n} here e orphan due =
    let s1 : State = record s { calls = Call.qstats_drop ∷ s.calls } in
    let ready : ltb now n.tmin_nsec ≡ false = ground arith in
    simp here (
      rw (not_null e, load_pnode-At s e)
        (elim (Bool-cases (is_expired now s.sched.hops_left n)) [
          | inl late ↦ simp late (rw (take_pnode-orphan s1 e orphan) refl)
          | inr live ↦ simp live (rw (ready, take_pnode-orphan s e orphan) refl)
        ]))

-- If the watchdog was set to a packet that has since lost its place at the head of its queue to an
-- earlier one, so that it points back to no hnode, then `lbf_dequeue` follows a NULL pointer as soon
-- as that packet is due.
pub dequeue-orphan :
    (kernel : Kernel) (fuel : ℕ) (s : State) {p : Ptr} {n : Pnode}
    → s.sched.next_pnode ≡ p
    → At s.pnodes p n
    → n.hnode ≡ null
    → n.tmin_nsec ≤ kernel.ticks2ns (kernel.get_time s.calls)
    → dequeue kernel fuel s ≡ fault
unfolding dequeue time_ns psched_get_time
dequeue-orphan kernel fuel s here e orphan due =
    let s1 : State = record s { calls = Call.psched_get_time ∷ s.calls } in
    rw (take_next-orphan (kernel.ticks2ns (kernel.get_time s.calls)) s1 here e orphan due) refl
