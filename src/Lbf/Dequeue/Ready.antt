-- ===== src/Lbf/Dequeue/Ready.antt =====
-- `lbf_dequeue` of lbf/src/linux/sch_lbf.c keeps the invariant of the discipline, whether or not there
-- is a list of hnodes yet.
use new_ip_linux.Common.{ℕ, ◌≡◌, refl, inl, inr, ◌⊎◌, none, [], ◌∷◌}
use mathlib.Core.Path.{subst}
use new_ip_linux.Lbf.Store.{Ptr, null, ok, Call, Kernel, State}
use new_ip_linux.Lbf.Store.Access.{time_ns, psched_get_time, get_sched}
use new_ip_linux.Lbf.Store.Returns.{Returns, mono}
use new_ip_linux.Lbf.Stock.{Stock}
use new_ip_linux.Lbf.Stock.Shrunk.{Shrunk}
use new_ip_linux.Lbf.Stock.Valid.{IsLive, Fits, IsReady, IsWatched}
use new_ip_linux.Lbf.Search.{search_now_pnode, search_next_pnode}
use new_ip_linux.Lbf.Dequeue.{dequeue, take_now, watch_next}
use new_ip_linux.Lbf.Dequeue.Next.{take_next-null}
use new_ip_linux.Lbf.Dequeue.Ends.{dequeue_plain-FromPlain}
use new_ip_linux.Lbf.Dequeue.Finish.{IsSent, IsPlain, NoneDue, HasPlain}
use new_ip_linux.Lbf.Dequeue.Whole.{IsSteady, dequeue-IsValid}

-- There is a list of hnodes and the invariant holds, or there is none as before; the queues have
-- lost packets at their heads at most, and the watchdog is set to no packet or to the first one of a
-- queue. Returned is the live buffer of a queued packet that may leave; or, where none is due, what
-- the plain queue has.
abbrev pub Departed : (kernel : Kernel) (s : State) (st : Stock) → Ptr → State → Type 0
Departed kernel s st r s' =
    (st' : Stock) × IsReady s' st'
    × Shrunk st st'
    × IsWatched s' st'
    × (IsPlain kernel s r s' × NoneDue kernel s st ⊎ IsLive s' r × IsSent kernel s st r)

-- Without a list of hnodes, the searches only read the clock.
with_clock : State → State
with_clock s = record s { calls = Call.psched_get_time ∷ s.calls }

take_now-no_list :
    (kernel : Kernel) (fuel : ℕ) (s : State)
    → s.sched.hnode_list ≡ none
    → take_now kernel fuel null s ≡ ok null (with_clock s)
unfolding take_now search_now_pnode time_ns psched_get_time get_sched with_clock
take_now-no_list kernel fuel s e = simp e refl

watch_next-no_list :
    (kernel : Kernel) (fuel : ℕ) (s : State)
    → s.sched.hnode_list ≡ none
    → watch_next kernel fuel s ≡ ok tt (with_clock s)
unfolding watch_next search_next_pnode time_ns psched_get_time get_sched with_clock
watch_next-no_list kernel fuel s e = simp e refl

-- Without a packet of the watchdog either, only the plain queue is left.
dequeue-no_list :
    (kernel : Kernel) (fuel : ℕ) (s : State)
    → s.sched.next_pnode ≡ null
    → s.sched.hnode_list ≡ none
    → HasPlain kernel s []
    → Returns (Departed kernel s []) (dequeue kernel fuel s)
unfolding dequeue time_ns psched_get_time with_clock
dequeue-no_list kernel fuel s unset none_yet plain =
    let t : Call = Call.psched_get_time in
    let s₁ : State = record s { calls = t ∷ s.calls } in
    let s₂ : State = with_clock s₁ in
    let s₃ : State = record s { calls = t ∷ t ∷ t ∷ s.calls } in
    rw
      (
        take_next-null (kernel.ticks2ns (kernel.get_time s.calls)) s₁ unset,
        take_now-no_list kernel fuel s₁ none_yet,
        watch_next-no_list kernel fuel s₂ none_yet,
      )
      (mono (dequeue_plain-FromPlain kernel s₃ (plain.head (t ∷ t ∷ t ∷ [])))
        (λ r s' (from, (d, sk, cs, e, keep)). (
          [],
          inl (rw e none_yet, refl),
          tt,
          inl (rw e unset),
          inl (
            elim from [ inl z ↦ inl z | inr (is, b) ↦ inr (b, (t ∷ t ∷ t ∷ [], is)) ],
            ([], λ a v l. absurd l),
          ),
        )))

IsSteady-null : (kernel : Kernel) (s : State) → IsSteady kernel s [] → s.sched.next_pnode ≡ null
IsSteady-null kernel s (inl z) = z
IsSteady-null kernel s (inr (v, leads, w)) = absurd leads

-- Let the discipline be valid or have no list of hnodes yet, with fuel for its hnodes and queues, and
-- a plain queue whose first buffer is live and not one of the queued packets; a live buffer here holds
-- the header of offsets and, where the packet has a contract, all bytes of a latency contract. Let the watchdog be set
-- to no packet, or to the first one of a queue, that may leave by the first reading of the clock, or
-- may not by the second and has not expired by the third. Then `lbf_dequeue` faults nowhere,
-- neither at a pointer nor behind the end of a packet. It
-- returns the live buffer of a packet that was queued and may leave by a reading of the clock; or
-- NULL or the live head of the plain queue, but only where, by a reading of the clock, every packet
-- that is the first of a queue, other than that of the watchdog, and that may leave, has expired on
-- the last hop. The discipline is valid again or has no list still, with the same hnodes; their queues
-- have lost packets at their heads at most. The watchdog is again set to no packet or to the first
-- one of a queue.
pub dequeue-IsReady :
    (kernel : Kernel) (fuel : ℕ) (s : State) (st : Stock)
    → IsReady s st
    → Fits fuel st
    → HasPlain kernel s st
    → IsSteady kernel s st
    → Returns (Departed kernel s st) (dequeue kernel fuel s)
dequeue-IsReady kernel fuel s st (inr (l, v)) fits plain steady =
    mono (dequeue-IsValid kernel fuel s l st v fits plain steady)
      (λ r s' (st', v', shrunk, watched, out). (st', inr (l, v'), shrunk, watched, out))
dequeue-IsReady kernel fuel s st (inl (none_yet, e)) fits plain steady = rw e (
    dequeue-no_list kernel fuel s
      (IsSteady-null kernel s (subst (λ z. IsSteady kernel s z) e steady)) none_yet
      (subst (λ z. HasPlain kernel s z) e plain))
