-- ===== src/Lbf/First.antt =====
-- `lbf_enqueue` and `lbf_dequeue` of lbf/src/linux/sch_lbf.c on a discipline that `lbf_init` has just
-- set up: the first packet.
use new_ip_linux.Common.{
  ℕ, ◌<◌, ◌≤◌, ◌≡◌, ◌≢◌, refl, ◌∙◌, sym, ap, inl, inr, ◌⊎◌, true, false, none, [], ◌∷◌, ◌++◌, ◌==◌,
  arith,
}
use mathlib.Core.List.{append_assoc}
use mathlib.Core.Path.{subst}
use new_ip_linux.Lbf.Store.{Ptr, null, Skb, Call, Calls, Kernel, State, At, ◌>>=◌}
use new_ip_linux.Lbf.Store.Returns.{Returns, bind, mono}
use new_ip_linux.Lbf.Queue.Chain.{Packet}
use new_ip_linux.Lbf.Queue.Order.{insert}
use new_ip_linux.Lbf.Stock.{Shelf, Stock}
use new_ip_linux.Lbf.Stock.Heads.{OnShelf}
use new_ip_linux.Lbf.Stock.Change.{with_packets}
use new_ip_linux.Lbf.Stock.Valid.{IsLive, IsReady}
use new_ip_linux.Lbf.Enqueue.{enqueue, budget}
use new_ip_linux.Lbf.Enqueue.Serve.{IsFresh}
use new_ip_linux.Lbf.Enqueue.Room.{IsWhole}
use new_ip_linux.Lbf.Enqueue.Admit.{Placed}
use new_ip_linux.Lbf.Enqueue.Contracted.{window_of, arriving, joins}
use new_ip_linux.Lbf.Enqueue.Arrive.{enqueue-Arrived}
use new_ip_linux.Lbf.Dequeue.{dequeue}
use new_ip_linux.Lbf.Dequeue.Finish.{HasPlain}
use new_ip_linux.Lbf.Dequeue.Ready.{Departed, dequeue-IsReady}

-- One hnode, with one packet.
abbrev single : Shelf → Ptr → Packet → Stock
single x p v = record x { packets = (p, v) ∷ [] } ∷ []

abbrev Alone : Packet → Stock → Type 0
Alone v st = (x : Shelf) × (p : Ptr) × (p ≢ null) × (st ≡ single x p v)

-- Where kcalloc does not fail, a packet in an empty discipline has an hnode of its own.
Placed-Alone :
    (kernel : Kernel) (s : State) (b : ℕ) (v : Packet) (st : Stock)
    → ((cs : Calls) → kernel.alloc (cs ++ s.calls) ≢ null)
    → Placed kernel s b v [] st
    → Alone v st
unfolding insert
Placed-Alone kernel s b v st got (x, st₁, cs, (on, hosts, where_from), inl (full, same)) =
    absurd (got cs full)
Placed-Alone kernel s b v st got (x, st₁, cs, (on, hosts, inl same), inr is) =
    absurd (subst (λ (z : Stock). OnShelf x z) same on)
Placed-Alone kernel s b v st got (x, st₁, cs, (on, hosts, inr (n, empty, same)), inr is) =
    let c : Ptr × Packet = (kernel.alloc (cs ++ s.calls), v) in
    let no_packets : x.packets ≡ [] = ap (λ (z : Shelf). z.packets) empty in
    let itself : (x.at == x.at) ≡ true = ground arith in
    let placed : st ≡ with_packets x.at (insert c x.packets) (x ∷ []) =
      subst (λ z. st ≡ with_packets x.at (insert c x.packets) z) same is in
    (x, kernel.alloc (cs ++ s.calls), got cs, placed ∙ rw (no_packets, itself) refl)

-- The time that the clock shows when the calls `cs` have been made.
abbrev clock : Kernel → Calls → ℕ
clock kernel cs = kernel.ticks2ns (kernel.get_time cs)

-- The packet is sent and may leave; or what the plain queue has is, and the packet may not leave yet
-- or is too late.
abbrev pub Outcome : (kernel : Kernel) (calls now : Calls) → Packet → Ptr → Type 0
Outcome kernel calls now v r =
    (r ≡ v.realpkt) × (v.tmin_nsec ≤ clock kernel (now ++ calls))
    ⊎ ((r ≡ null) ⊎ ((cs : Calls) × (r ≡ kernel.head_skb (cs ++ calls))))
      × ((clock kernel (now ++ calls) < v.tmin_nsec) ⊎ (v.tmax_nsec < clock kernel (now ++ calls)))

early_or_due : (m n : ℕ) → (m < n) ⊎ (n ≤ m)
early_or_due m n = ground arith

Departed-Outcome :
    (kernel : Kernel) (s s' : State) (x : Shelf) (p : Ptr) (v : Packet) (r : Ptr)
    → p ≢ null
    → s.sched.next_pnode ≡ null
    → Departed kernel s (single x p v) r s'
    → (now : Calls) × Outcome kernel s.calls now v r
Departed-Outcome kernel s s' x p v r used unset
      (st', ready, shrunk, watched, inl (plain, (cs, idle))) =
    let other : (p == s.sched.next_pnode) ≡ false = rw unset (ground (arith, used)) in
    (
      cs,
      inr (
        elim plain [ inl z ↦ inl z | inr (live, (ds, is)) ↦ inr (ds, is) ],
        elim (early_or_due (clock kernel (cs ++ s.calls)) v.tmin_nsec) [
          | inl early ↦ inl early
          | inr due ↦ let late = idle p v (inl ([], refl)) other due in inr (ground (arith, late))
        ],
      ),
    )
Departed-Outcome kernel s s' x p v r used unset
      (st', ready, shrunk, watched, inr (live, (c, cs, inl (inl same), is, due))) =
    (
      cs,
      inl (
        is ∙ ap (λ (c : Ptr × Packet). (c.1).realpkt) (sym same),
        subst (λ (c : Ptr × Packet). (c.1).tmin_nsec ≤ clock kernel (cs ++ s.calls)) (sym same) due,
      ),
    )
Departed-Outcome kernel s s' x p v r used unset
      (st', ready, shrunk, watched, inr (live, (c, cs, inl (inr bad), is, due))) =
    absurd bad
Departed-Outcome kernel s s' x p v r used unset
      (st', ready, shrunk, watched, inr (live, (c, cs, inr bad, is, due))) =
    absurd bad

-- What is known of a kernel that has memory, and of its plain queue: from now on `kcalloc` returns
-- memory that is not in use, and the plain queue is empty or its head is a live buffer other than `skb`.
pub record Steady (kernel : Kernel) (s : State) (skb : Ptr) : Type 0 where
  pub fresh : IsFresh kernel s
  pub got : (cs : Calls) → kernel.alloc (cs ++ s.calls) ≢ null
  pub plain :
      (cs : Calls)
      → (kernel.head_skb (cs ++ s.calls) ≡ null)
        ⊎ IsLive s (kernel.head_skb (cs ++ s.calls))
          × ((skb == kernel.head_skb (cs ++ s.calls)) ≡ false)

plain_after :
    (kernel : Kernel) (s s' : State) (skb : Ptr) (x : Shelf) (p : Ptr) (v : Packet) (ds : Calls)
    → skb ≢ null
    → v.realpkt ≡ skb
    → ((a : Ptr) → IsLive s a → IsLive s' a)
    → s'.calls ≡ ds ++ s.calls
    → Steady kernel s skb
    → HasPlain kernel s' (single x p v)
plain_after kernel s s' skb x p v ds used own keeps later k =
    let known : (cs : Calls)
        → (kernel.head_skb (cs ++ s'.calls) ≡ null)
          ⊎ IsLive s (kernel.head_skb (cs ++ s'.calls))
            × ((skb == kernel.head_skb (cs ++ s'.calls)) ≡ false) =
      λ cs. rw (later, sym (append_assoc cs ds s.calls)) (k.plain (cs ++ ds)) in
    record {
      head = λ cs. elim (known cs) [ inl z ↦ inl z | inr (live, n) ↦ inr (keeps _ live) ];
      apart = λ cs. (
        (rw own (elim (known cs) [ inl z ↦ rw z (ground (arith, used)) | inr (live, n) ↦ n ]), tt),
        tt,
      );
    }

clash : true ≢ false
clash e = cc

Outcome-later :
    (kernel : Kernel) (es fs ds now : Calls) (v : Packet) (r : Ptr)
    → es ≡ ds ++ fs
    → Outcome kernel es now v r
    → Outcome kernel fs (now ++ ds) v r
Outcome-later kernel es fs ds now v r later (inl (is, due)) =
    inl (is, rw (append_assoc now ds fs, sym later) due)
Outcome-later kernel es fs ds now v r later (inr (plain, idle)) = inr (
  elim plain [
    | inl z ↦ inl z
    | inr (cs, is) ↦ inr (cs ++ ds, rw (append_assoc cs ds fs, sym later) is)
  ],
  rw (append_assoc now ds fs, sym later) idle,
)

-- Let the discipline be as `lbf_init` leaves it, without hnodes and without a packet of the watchdog.
-- Let a packet, whose buffer is live and holds the header of offsets and, with a contract, all bytes
-- of a latency contract, pass the tests of `lbf_enqueue` for a queue, with `kcalloc` returning memory
-- that is not in use, and the plain queue empty or with such a buffer at its head. Then `lbf_enqueue` of the
-- packet and a `lbf_dequeue` behind it fault nowhere, and 2 units of fuel are enough. Either the
-- packet is returned, and by a reading of the clock its window, counted from a reading in
-- `lbf_enqueue`, has begun; or NULL or a head of the plain queue is returned, and by a reading of the
-- clock the window has not begun or is over.
pub dequeue-enqueue :
    (kernel : Kernel) (k : ℕ) (s : State) (skb : Ptr) (b : Skb)
    → s.sched.hnode_list ≡ none
    → s.sched.next_pnode ≡ null
    → 1 < k
    → Steady kernel s skb
    → At s.skbs skb b
    → IsWhole b
    → joins kernel s b ≡ true
    → Returns
        (λ r s'.
          (arrival : Calls) × (now : Calls) × Outcome kernel s.calls now
            (arriving kernel (arrival ++ s.calls) skb b)
            r)
        ((enqueue kernel k skb >>= λ code. dequeue kernel k) s)
dequeue-enqueue kernel k s skb b none_yet unset enough known at whole good =
    bind
      (enqueue-Arrived kernel k s [] skb b (inl (none_yet, refl))
        (record { queues = tt; hnodes = omega arith }) known.fresh
        (λ e. known.got (Call.psched_get_time ∷ Call.psched_get_time ∷ [])) at whole)
      (λ _ s₁ (st, ready, next, keeps, (ds, later), out). elim out [
        | inl (same, inl bad) ↦ absurd (clash (sym good ∙ bad))
        | inl (same, inr (cs, full)) ↦ absurd (known.got cs full)
        | inr (y, code, (times, placed)) ↦
            let v : Packet = arriving kernel (times ++ s.calls) skb b in
            let (x, p, used, is) =
              Placed-Alone kernel s (budget (window_of b.network)) v st known.got placed in
            mono
              (dequeue-IsReady kernel k s₁ (single x p v) (subst (λ z. IsReady s₁ z) is ready)
                (record { queues = (enough, tt); hnodes = enough })
                (plain_after kernel s s₁ skb x p v ds at.ne_null refl keeps later known)
                (inl (next ∙ unset)))
              (λ r s₂ departed.
                let (now, outcome) =
                  Departed-Outcome kernel s₁ s₂ x p v r used (next ∙ unset) departed in
                (times, now ++ ds, Outcome-later kernel s₁.calls s.calls ds now v r later outcome))
      ])
