-- ===== src/Lbf/Search/Soonest.antt =====
-- `search_next_pnode` of lbf/src/linux/sch_lbf.c over all hnodes, with expired packets in the queues.
use new_ip_linux.Common.{
  ℕ, zero, suc, ◌<◌, ◌≤◌, ◌≡◌, refl, sym, ◌∙◌, Bool, Bool-cases, inl, inr, ◌⊎◌, some, [], ◌∷◌,
  arith, length, All, ltb, false, true, ◌==◌, if_cases,
}
use mathlib.Core.Path.{subst}
use new_ip_linux.Lbf.Store.{Ptr, null, Hnode, HnodeHead, Kernel, Call, State, At, Cmd, ◌>>=◌}
use new_ip_linux.Lbf.Store.Access.{
  not_null, load_hnode, load_hnode-At, get_sched, psched_get_time, time_ns,
}
use new_ip_linux.Lbf.Store.Returns.{Returns, returns, bind, mono}
use new_ip_linux.Lbf.Queue.Chain.{Packet, Cells, Pnodes, Chain}
use new_ip_linux.Lbf.Ranges.Line.{Hnodes, linked}
use new_ip_linux.Lbf.Stock.{
  Shelf, Stock, head_of, holding, Stocked, Opened, Stocked-null, Stocked-Opened,
}
use new_ip_linux.Lbf.Stock.Heads.{Leads}
use new_ip_linux.Lbf.Search.{Best, walk_next, search_next_pnode, ullong_max}
use new_ip_linux.Lbf.Search.Expired.{kept, expires, Scanned}
use new_ip_linux.Lbf.Search.Scan.{best_of, scan_next-Scanned}
use new_ip_linux.Lbf.Search.Leaves.{left_of, left, lost, is_key-left, Apart-left, Left, Left-refl}
use new_ip_linux.Lbf.Search.Rest.{rest-Stocked, rest-Apart, first-At, Left-cons}

-- The first packet, if there is one, may not leave before `t`.
abbrev pub StartsFrom : ℕ → Cells → Type 0
StartsFrom t [] = Unit
StartsFrom t (x ∷ xs) = t ≤ (x.1).tmin_nsec

abbrev pub AllFrom : ℕ → Stock → Type 0
AllFrom t st = All (λ x. StartsFrom t x.packets) st

-- `r` is `ret`, and no first packet may leave before `t`; or it is a first packet that may, and none
-- may leave before it.
abbrev pub Soonest : (t : ℕ) (ret : Ptr) → Stock → Ptr → Type 0
Soonest t ret st r =
    (r ≡ ret) × AllFrom t st
    ⊎ ((v : Packet) × Leads r v st × (v.tmin_nsec < t) × AllFrom v.tmin_nsec st)

-- The walk does not stop at any queue.
abbrev pub never : Cells → Bool
never xs = false

-- What the walk leaves, from the hnode at `p` on, beside the best packet so far.
abbrev pub WalkedOn : (s : State) (now t : ℕ) (ret p : Ptr) (st : Stock) → Ptr → State → Type 0
WalkedOn s now t ret p st r s' =
    Soonest t ret (left (expires now s.sched.hops_left) never st) r
    × Left s p st (left (expires now s.sched.hops_left) never st)
        (lost (expires now s.sched.hops_left) never st) s'

StartsFrom-le : (t u : ℕ) (ys : Cells) → t ≤ u → StartsFrom u ys → StartsFrom t ys
StartsFrom-le t u [] le h = tt
StartsFrom-le t u (y ∷ ys) le h = omega arith

AllFrom-le : (t u : ℕ) (st : Stock) → t ≤ u → AllFrom u st → AllFrom t st
AllFrom-le t u [] le h = tt
AllFrom-le t u (x ∷ st) le h = (StartsFrom-le t u x.packets le (h.0), AllFrom-le t u st le (h.1))

best_of-at : (b : Best) (ys : Cells) → (best_of b ys).at ≡ b.at
best_of-at b [] = refl
best_of-at b (y ∷ ys) =
    if_cases (λ (c : Best). c.at ≡ b.at) (ltb ((y.1).tmin_nsec) b.tmin)
      (record b { tmin = (y.1).tmin_nsec; ret = y.0 }) b (λ e. refl) (λ e. refl)

-- The best packet so far, the next queue, and those behind it.
Soonest-cons :
    (b : Best) (x : Shelf) (ys : Cells) (st : Stock) (r : Ptr)
    → x.packets ≡ ys
    → Soonest (best_of b ys).tmin (best_of b ys).ret st r
    → Soonest b.tmin b.ret (x ∷ st) r
Soonest-cons b x [] st r e (inl (f, h)) = inl (f, (rw e tt, h))
Soonest-cons b x [] st r e (inr (v, l, less, h)) = inr (v, inr l, less, (rw e tt, h))
Soonest-cons b x (y ∷ ys) st r e h = elim (Bool-cases (ltb ((y.1).tmin_nsec) b.tmin)) [
  | inl less' ↦ elim (rw less' at h) [
    | inl (f, k) ↦ inr (y.1, inl (ys, rw f e), ground (arith, less'), (rw e (omega arith), k))
    | inr (v, l, less, k) ↦ inr (v, inr l, ground (arith, less', less), (rw e (omega arith), k))
  ]
  | inr more ↦ elim (rw more at h) [
    | inl (f, k) ↦ inl (f, (rw e (ground (arith, more)), k))
    | inr (v, l, less, k) ↦ inr (v, inr l, less, (rw e (ground (arith, more, less)), k))
  ]
]

module _ (now : ℕ) where
  -- From one shelf to the next.
  scan-WalkedOn :
      (s s₁ : State) (p : Ptr) (x : Shelf) (st : Stock) (b b' : Best) (k : Best → Cmd Ptr)
      (o : Opened s.hnodes s.pnodes p x st)
      → b.at ≡ x.at
      → Scanned
          (expires now s.sched.hops_left)
          (best_of b)
          s
          x.at
          (linked (holding (x.hnode) x.packets) o.next)
          x.packets
          b'
          s₁
      → ((c : Best) (g : Pnodes) (hs : Hnodes)
          → c.at ≡ x.at
          → At hs x.at
              (linked (holding (x.hnode) (kept (expires now s.sched.hops_left) x.packets)) o.next)
          → Stocked hs g o.next st
          → Returns
              (WalkedOn (record s { pnodes = g; hnodes = hs }) now c.tmin c.ret o.next st)
              (k c (record s { pnodes = g; hnodes = hs })))
      → Returns (WalkedOn s now b.tmin b.ret p (x ∷ st)) (k b' s₁)
  scan-WalkedOn s s₁ p x st b b' k o here (g, hs, q, e, f, c, fr, so, wq) ih =
      let gone = expires now s.sched.hops_left in
      let ys : Cells = kept gone x.packets in
      rw (e, f)
        (mono
          (ih (best_of b ys) g hs (best_of-at b ys ∙ here)
            (first-At gone s p x st o g hs q c fr so wq)
            (rest-Stocked gone s p x st o g hs q c fr so wq))
          (λ r s' w. (
            Soonest-cons b (left_of gone x) ys (left gone never st) r refl (w.0),
            Left-cons gone s p x st o g hs q c fr so wq (left gone never st) (lost gone never st) s'
                (Apart-left gone never ys st (rest-Apart gone s p x st o g hs q c fr so wq))
                (is_key-left gone never x.at st ∙ o.fresh) (w.1),
          )))

  walk_next-WalkedOn :
      (fuel k : ℕ) (s : State) (b : Best) (st : Stock)
      → Stocked s.hnodes s.pnodes b.at st
      → All (λ x. length x.packets < fuel) st
      → length st < k
      → Returns (WalkedOn s now b.tmin b.ret b.at st) (walk_next fuel k now b s)
  unfolding walk_next
  walk_next-WalkedOn fuel zero s b st stocked small enough = absurd (omega arith)
  walk_next-WalkedOn fuel (suc k) s b [] stocked small enough =
      let z : (b.at == null) ≡ true = ground (arith, Stocked-null stocked) in
      rw z (returns (inl (refl, tt), Left-refl s b.at [] stocked))
  walk_next-WalkedOn fuel (suc k) s b (x ∷ st) stocked small enough =
      let o = Stocked-Opened x st stocked in
      let h : Hnode = linked (holding (x.hnode) x.packets) o.next in
      let at : At s.hnodes b.at h = subst (λ a. At s.hnodes a h) (sym o.first) o.at in
      let chain =
        subst (λ a. Chain s.pnodes a (head_of x.packets) x.packets) (sym o.first) o.chain in
      rw (not_null at, load_hnode-At s at)
        (bind (scan_next-Scanned now fuel s b h chain at o.unlinked refl (small.0))
          (λ b' s₁ scanned.
            scan-WalkedOn s s₁ b.at x st b b'
              (λ c.
                load_hnode c.at >>= λ h'. walk_next fuel k now (record c { at = h'.next_hnode }))
              o o.first
              (subst
                (λ a. Scanned (expires now s.sched.hops_left) (best_of b) s a h x.packets b' s₁)
                o.first scanned)
              (λ c g hs here at' stocked'.
                rw (here, load_hnode-At (record s { pnodes = g; hnodes = hs }) at')
                  (walk_next-WalkedOn fuel k (record s { pnodes = g; hnodes = hs })
                    (record c { at = o.next }) st stocked' (small.1) (omega arith)))))

-- Let no hnode have a link back, and no two queues share a packet. With more fuel than there are
-- hnodes, and than packets in each queue, `search_next_pnode` faults nowhere. On every hnode it takes
-- off and frees, from the head of the queue on, the packets that have expired on the last hop, and
-- the queues then hold the others, in lists that are linked as before. Of the packets that are
-- now the first of a queue it returns one such that none may leave before it; it returns NULL if none
-- may leave before `ULLONG_MAX`. Nothing else is changed but the record of calls.
pub search_next_pnode-WalkedOn :
    (kernel : Kernel) (s : State) (l : HnodeHead) (st : Stock) (fuel : ℕ)
    → s.sched.hnode_list ≡ some l
    → Stocked s.hnodes s.pnodes l.head st
    → All (λ x. length x.packets < fuel) st
    → length st < fuel
    → Returns
        (WalkedOn
          (record s { calls = Call.psched_get_time ∷ s.calls })
          (kernel.ticks2ns (kernel.get_time s.calls))
          ullong_max
          null
          l.head
          st)
        (search_next_pnode kernel fuel s)
unfolding search_next_pnode get_sched time_ns psched_get_time
search_next_pnode-WalkedOn kernel s l st fuel has stocked small enough =
    let s1 : State = record s { calls = Call.psched_get_time ∷ s.calls } in
    simp has (
      walk_next-WalkedOn (kernel.ticks2ns (kernel.get_time s.calls)) fuel fuel s1
        (record { at = l.head; tmin = ullong_max; ret = null }) st stocked small enough)
