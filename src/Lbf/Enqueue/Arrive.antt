-- ===== src/Lbf/Enqueue/Arrive.antt =====
-- `lbf_enqueue` of lbf/src/linux/sch_lbf.c keeps the invariant of the discipline.
use new_ip_linux.Common.{
  ℕ, ◌+◌, ◌≡◌, refl, inl, inr, Bool-cases, arith, true, false, some, [], ◌∷◌, ◌==◌, leb, Bool,
}
use new_ip_linux.Wire.{Mem, eth_p_newip, load16, htons, u32, swap16}
use new_ip_linux.Lbf.Store.{Ptr, Skb, Call, Kernel, State, At, write, ok}
use new_ip_linux.Lbf.Store.Access.{
  At-write, load_skb-At, in_packet, in_packet-ok, update_skb-At, update_sched, psched_get_time,
}
use new_ip_linux.Lbf.Store.Returns.{Returns, returns, mono}
use new_ip_linux.Lbf.Stock.{Stock}
use new_ip_linux.Lbf.Stock.Valid.{Fits, IsLive-write, IsReady, IsReady-write, IsReady-sched}
use new_ip_linux.Lbf.Enqueue.{has_contract, contract_at, enqueue_tail, drop, enqueue}
use new_ip_linux.Lbf.Enqueue.Room.{IsWhole, contract_room}
use new_ip_linux.Lbf.Enqueue.Serve.{IsFresh, later-IsFresh, HasList}
use new_ip_linux.Lbf.Enqueue.Contracted.{is_in_time, joins, Arrived, Arrived-calls, latency-Arrived}

-- The types of the two contracts differ.
not_both : (v : ℕ) → (v == htons 1) ≡ true → (v == htons 2) ≡ false
unfolding swap16
not_both v e = ground (arith, e)

module _ (kernel : Kernel) (k : ℕ) where
  -- Let the discipline be valid or have no list of hnodes yet, with fuel for its hnodes and queues.
  -- Let the packet's buffer be live and the packet whole: it holds the header of offsets and, where it
  -- has a contract, all bytes of a latency contract; a valid discipline has such packets alone. Let
  -- `kcalloc` return from now on NULL or memory that is not in use; if there is no list, let its call
  -- for the list itself, after two readings of the clock, not return NULL. Then `lbf_enqueue` faults
  -- nowhere, neither at a pointer nor behind the end of the packet. The discipline is valid again or
  -- still has no list, all live buffers are live and whole and the watchdog is set as before. If there
  -- is room, the packet has a latency contract with hops left, and it is not late by the window that
  -- the contract gives it, then 0 is returned and the packet has its place: stored with the times of
  -- that window from a reading of the clock on, behind all that may leave no later, in the queue of an
  -- hnode whose range holds its budget, which was there or is new and in its place. Otherwise, or where
  -- no memory is left for the hnode, the queues are as before; where none is left for the packet alone,
  -- it is lost.
  pub enqueue-Arrived :
      (s : State) (st : Stock) (skb : Ptr) (b : Skb)
      → IsReady s st
      → Fits k st
      → IsFresh kernel s
      → HasList kernel (Call.psched_get_time ∷ Call.psched_get_time ∷ []) s
      → At s.skbs skb b
      → IsWhole b
      → Returns (Arrived kernel s st skb b (joins kernel s b)) (enqueue kernel k skb s)
  unfolding enqueue update_sched psched_get_time drop enqueue_tail
  enqueue-Arrived s st skb b v fits fresh has at whole =
      let now : ℕ = kernel.get_time s.calls in
      let b₁ : Skb = record b { enqueue_time = now } in
      let s₀ : State = record s { calls = Call.psched_get_time ∷ s.calls } in
      let s₁ : State = record s₀ { skbs = write s.skbs skb (some b₁) } in
      let at₁ : At s₁.skbs skb b₁ = At-write s.skbs skb b₁ at.ne_null in
      let whole₁ : IsWhole b₁ = record { header = whole.header; contract = whole.contract } in
      let v₁ : IsReady s₁ st = IsReady-write s skb b₁ s.sched s₁.calls st refl whole₁ v in
      let m : Mem = b.network in
      let header : in_packet b₁ 3 s₁ ≡ ok tt s₁ = in_packet-ok b₁ 3 s₁ whole.header in
      let tail : (q : Bool)
          → q ≡ false
          → Arrived kernel s st skb b q (kernel.tail_status s₁.calls)
              (record s₁ { calls = Call.enqueue_tail skb ∷ s₁.calls }) =
        λ q bad. (
          st,
          IsReady-sched s₁ s₁.sched _ st refl v₁,
          refl,
          λ a h. IsLive-write skb b₁ a whole₁ h,
          (Call.enqueue_tail skb ∷ Call.psched_get_time ∷ [], refl),
          inl (refl, inl bad),
        ) in
      elim (Bool-cases (leb s.limit (kernel.qdisc_qlen s.calls))) [
        | inl over ↦ rw over (
            returns (
              st,
              IsReady-sched s (record (s.sched) { overlimit = u32 (s.sched.overlimit + 1) }) _ st
                  refl v,
              refl,
              λ a h. h,
              (Call.qdisc_drop skb ∷ [], refl),
              inl (refl, inl refl),
            ))
        | inr under ↦
            rw
              (
                under,
                update_skb-At s₀ at (λ b. record b { enqueue_time = now }),
                load_skb-At s₁ at₁,
              )
              (elim (Bool-cases (b.h_proto == htons eth_p_newip)) [
                | inr n ↦ rw n (returns (tail _ refl))
                | inl y ↦ elim (Bool-cases (has_contract m)) [
                  | inr n ↦ rw (y, header, n) (returns (tail _ refl))
                  | inl h ↦
                      let type : in_packet b₁ (contract_at m + 2) s₁ ≡ ok tt s₁ =
                        in_packet-ok b₁ (contract_at m + 2) s₁
                          (let r = contract_room b whole h in omega arith) in
                      elim (Bool-cases (load16 m (contract_at m) == htons 1)) [
                        | inl one ↦
                            let other : (load16 m (contract_at m) == htons 2) ≡ false =
                              not_both _ one in
                            rw (y, header, h, type, one, other) (returns (tail _ refl))
                        | inr n ↦ elim (Bool-cases (load16 m (contract_at m) == htons 2)) [
                          | inr no_latency ↦
                              rw (y, header, h, type, n, no_latency) (returns (tail _ refl))
                          | inl two ↦
                              rw (y, header, h, type, n, two)
                                (mono
                                  (latency-Arrived kernel k s₁ st skb b₁ v₁ fits
                                    (later-IsFresh kernel s s₁ (Call.psched_get_time ∷ []) refl refl
                                      refl fresh)
                                    has at₁ whole₁ h)
                                  (Arrived-calls kernel s s₁ st skb b₁ (is_in_time m)
                                    (Call.psched_get_time ∷ []) refl refl
                                    (λ a h. IsLive-write skb b₁ a whole₁ h)))
                        ]
                      ]
                ]
              ])
      ]
