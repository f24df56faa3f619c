-- ===== src/Lbf/Enqueue/Contracted.antt =====
-- What comes of a packet in `lbf_enqueue` of lbf/src/linux/sch_lbf.c, and the part of it for a packet
-- with a latency contract.
use new_ip_linux.Common.{
  ℕ, ◌+◌, ◌≤◌, arith, ◌≡◌, refl, ◌∙◌, sym, ap, inl, inr, ◌⊎◌, Bool-cases, true, false, some, [],
  ◌∷◌, ◌++◌, ◌==◌, leb, Bool, not, ◌&&◌,
}
use new_ip_linux.Common.Int.{ℤ, pos}
use mathlib.Core.List.{append_assoc}
use mathlib.Core.Path.{subst}
use new_ip_linux.Wire.{Mem, eth_p_newip, load16, store16, htons}
use new_ip_linux.Wire.Latency
use new_ip_linux.Lbf.Store.{Ptr, null, Skb, Call, Calls, Kernel, State, At, write}
use new_ip_linux.Lbf.Store.Access.{
  At-write, load_skb-At, in_packet-ok, update_skb-At, update_sched, call,
}
use new_ip_linux.Lbf.Store.Returns.{Returns, returns, mono}
use new_ip_linux.Lbf.Queue.Chain.{Packet}
use new_ip_linux.Lbf.Stock.{Stock}
use new_ip_linux.Lbf.Stock.Valid.{
  Live, IsLive, Fits, IsLive-write, IsReady, IsReady-write, IsReady-sched,
}
use new_ip_linux.Lbf.Enqueue.{
  has_contract, contract_at, int_to_u64, update_delays, less_hop, window, Window, is_late, budget,
  enqueue_latency,
}
use new_ip_linux.Lbf.Enqueue.Room.{IsWhole, contract_room, store16-IsWhole}
use new_ip_linux.Lbf.Enqueue.Serve.{IsFresh, later-IsFresh, HasList}
use new_ip_linux.Lbf.Enqueue.Join.{Joined}
use new_ip_linux.Lbf.Enqueue.Admit.{packet_of, Placed, admit-Admitted}

-- The window of a packet with the network header `m`.
abbrev pub window_of : Mem → Window
window_of m = window (update_delays m (contract_at m)) (contract_at m)

-- A packet with a latency contract joins a queue if it has hops left and is not late.
abbrev pub is_in_time : Mem → Bool
is_in_time m =
    not (load16 m (contract_at m + Latency.fib_tohops) == 0) && not (is_late (window_of m))

-- The tests that a packet for a queue passes: there is room, it is a New IP packet, and it has a
-- latency contract and is in time.
abbrev pub joins : Kernel → State → Skb → Bool
joins kernel s b =
    not (leb s.limit (kernel.qdisc_qlen s.calls))
    && ((b.h_proto == htons eth_p_newip)
        && (has_contract b.network
            && ((load16 (b.network) (contract_at b.network) == htons 2) && is_in_time b.network)))

-- What is stored of a packet whose arrival time is read when the calls `cs` have been made.
abbrev pub arriving : (kernel : Kernel) (cs : Calls) (skb : Ptr) → Skb → Packet
arriving kernel cs skb b =
    packet_of (kernel.ticks2ns (kernel.get_time cs)) (int_to_u64 b.val) skb (window_of b.network)

-- There is a list of hnodes and the invariant holds, or there is none as before; what was live is live.
-- The queues are as before, because the test has failed or no memory is left for an hnode; or the
-- test has passed, 0 is returned, and the packet has its place in a queue for its budget, with the
-- times of its window from a reading of the clock on.
abbrev pub Arrived :
    (kernel : Kernel) (s : State) (st : Stock) (skb : Ptr) (b : Skb) (test : Bool)
    → ℤ
    → State
    → Type 0
Arrived kernel s st skb b test r s' =
    (st' : Stock) × IsReady s' st'
    × (s'.sched.next_pnode ≡ s.sched.next_pnode)
    × ((a : Ptr) → IsLive s a → IsLive s' a)
    × ((ds : Calls) × (s'.calls ≡ ds ++ s.calls))
    × ((st' ≡ st) × ((test ≡ false) ⊎ ((cs : Calls) × (kernel.alloc (cs ++ s.calls) ≡ null)))
        ⊎ (test ≡ true)
          × (r ≡ pos 0)
          × ((times : Calls) × Placed kernel s (budget (window_of b.network))
                (arriving kernel (times ++ s.calls) skb b) st st'))

-- What holds of a later history holds of one that starts later.
later_history :
    (P : Calls → Type 0) (cs ds es fs : Calls) → es ≡ ds ++ fs → P (cs ++ es) → P ((cs ++ ds) ++ fs)
later_history P cs ds es fs more = subst P (ap (λ c. cs ++ c) more ∙ sym (append_assoc cs ds fs))

later_calls :
    (s s₁ s' : State) (ds : Calls)
    → s₁.calls ≡ ds ++ s.calls
    → (es : Calls) × (s'.calls ≡ es ++ s₁.calls)
    → (es : Calls) × (s'.calls ≡ es ++ s.calls)
later_calls s s₁ s' ds more (es, e) =
    (es ++ ds, later_history (λ c. s'.calls ≡ c) es ds s₁.calls s.calls more e)

-- From a state in which some calls have been made.
pub Arrived-calls :
    (kernel : Kernel) (s s₁ : State) (st : Stock) (skb : Ptr) (b : Skb) (test : Bool) (ds : Calls)
    → s₁.sched.next_pnode ≡ s.sched.next_pnode
    → s₁.calls ≡ ds ++ s.calls
    → ((a : Ptr) → IsLive s a → IsLive s₁ a)
    → (r : ℤ) (s' : State) → Arrived kernel s₁ st skb b test r s'
    → Arrived kernel s st skb b test r s'
Arrived-calls kernel s s₁ st skb b test ds next more keeps r s'
      (st', v, e, live, later, inl (same, inl bad)) =
    (
      st',
      v,
      e ∙ next,
      λ a h. live a (keeps a h),
      later_calls s s₁ s' ds more later,
      inl (same, inl bad),
    )
Arrived-calls kernel s s₁ st skb b test ds next more keeps r s'
      (st', v, e, live, later, inl (same, inr (cs, full))) =
    let full' = later_history (λ c. kernel.alloc c ≡ null) cs ds s₁.calls s.calls more full in
    (
      st',
      v,
      e ∙ next,
      λ a h. live a (keeps a h),
      later_calls s s₁ s' ds more later,
      inl (same, inr (cs ++ ds, full')),
    )
Arrived-calls kernel s s₁ st skb b test ds next more keeps r s'
      (st', v, e, live, later, inr (good, zero_code, (times, (x, st₁, cs, shelved, joined)))) =
    let c : Packet = arriving kernel (times ++ s₁.calls) skb b in
    let allocated : Joined kernel ((cs ++ ds) ++ s.calls) x c st₁ st' =
      later_history (λ h. Joined kernel h x c st₁ st') cs ds s₁.calls s.calls more joined in
    let timed : Joined kernel ((cs ++ ds) ++ s.calls) x
        (arriving kernel ((times ++ ds) ++ s.calls) skb b) st₁ st' =
      later_history (λ h. Joined kernel ((cs ++ ds) ++ s.calls) x (arriving kernel h skb b) st₁ st')
        times ds s₁.calls s.calls more allocated in
    (
      st',
      v,
      e ∙ next,
      λ a h. live a (keeps a h),
      later_calls s s₁ s' ds more later,
      inr (good, zero_code, (times ++ ds, (x, st₁, cs ++ ds, shelved, timed))),
    )

-- The packet as it is stored back is whole.
less-IsWhole :
    (b : Skb) (hops : ℕ)
    → IsWhole b
    → IsWhole (record b {
      network =
          store16
            (update_delays b.network (contract_at b.network))
            (contract_at b.network + Latency.fib_tohops)
            hops;
    })
unfolding update_delays
less-IsWhole b hops whole =
    store16-IsWhole _ _ _ (omega arith)
      (store16-IsWhole _ _ _ (omega arith) (store16-IsWhole b _ _ (omega arith) whole))

module _ (kernel : Kernel) (k : ℕ) where
  pub latency-Arrived :
      (s : State) (st : Stock) (skb : Ptr) (b : Skb)
      → IsReady s st
      → Fits k st
      → IsFresh kernel s
      → HasList kernel (Call.psched_get_time ∷ []) s
      → At s.skbs skb b
      → IsWhole b
      → has_contract b.network ≡ true
      → Returns (Arrived kernel s st skb b (is_in_time b.network)) (enqueue_latency kernel k skb s)
  unfolding enqueue_latency update_sched call
  latency-Arrived s st skb b v fits fresh has at whole holds =
      let m : Mem = b.network in
      let c : ℕ = contract_at m in
      let delays : Mem = update_delays m c in
      let room : c + Latency.size ≤ b.len = contract_room b whole holds in
      let hops : ℕ = less_hop (load16 delays (c + Latency.fib_tohops)) in
      let less : Skb → Skb =
        λ b'. record b' { network = store16 delays (c + Latency.fib_tohops) hops } in
      let whole' : IsWhole (less b) = less-IsWhole b hops whole in
      let s₁ : State = record s {
        skbs = write s.skbs skb (some (less b));
        sched = record (s.sched) { hops_left = hops };
      } in
      let at₁ : At s₁.skbs skb (less b) = At-write s.skbs skb (less b) at.ne_null in
      let v₁ : IsReady s₁ st = IsReady-write s skb (less b) s₁.sched s.calls st refl whole' v in
      rw (load_skb-At s at, in_packet-ok b (c + Latency.size) s room)
        (elim (Bool-cases (load16 m (c + Latency.fib_tohops) == 0)) [
          | inl zero_hops ↦ rw zero_hops (
              returns (
                st,
                IsReady-sched s s.sched _ st refl v,
                refl,
                λ a h. h,
                (Call.drop_to_free skb ∷ Call.qstats_drop ∷ [], refl),
                inl (refl, inl refl),
              ))
          | inr some_hops ↦
              rw (some_hops, update_skb-At s at less)
                (elim (Bool-cases (is_late (window_of m))) [
                  | inl late ↦ rw late (
                      returns (
                        st,
                        IsReady-sched s₁ s₁.sched _ st refl v₁,
                        refl,
                        λ a h. IsLive-write skb (less b) a whole' h,
                        (Call.qstats_drop ∷ [], refl),
                        inl (refl, inl refl),
                      ))
                  | inr early ↦ rw early (
                      mono
                        (admit-Admitted kernel k s₁ st skb (int_to_u64 b.val) (window_of m) v₁ fits
                          (later-IsFresh kernel s s₁ [] refl refl refl fresh) has
                          (less b, at₁, whole'))
                        (λ r s' (l', st', v', next, skbs, later, out). (
                          st',
                          inr (l', v'),
                          next,
                          λ a h.
                              subst (λ m. Live m a) (sym skbs)
                                (IsLive-write skb (less b) a whole' h),
                          later,
                          elim out [
                            | inl (one, same, full) ↦ inl (same, inr full)
                            | inr (zero_code, placed) ↦ inr (refl, zero_code, ([], placed))
                          ],
                        )))
                ])
        ])
