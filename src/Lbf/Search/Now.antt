-- ===== src/Lbf/Search/Now.antt =====
-- `search_now_pnode` of lbf/src/linux/sch_lbf.c where no packet at the head of a queue has expired.
use new_ip_linux.Common.{
  ℕ, zero, suc, ◌<◌, ◌≡◌, refl, inl, inr, Bool, Bool-cases, false, Option, none, some, [], ◌∷◌,
  arith, leb, if◌then◌else◌, length, All,
}
use new_ip_linux.Lbf.Store.{Ptr, null, Pnode, HnodeHead, Kernel, Call, State, ok, At, read}
use new_ip_linux.Lbf.Store.Access.{
  not_null, read-At, load_hnode-At, load_pnode-At, get_sched, psched_get_time, time_ns,
}
use new_ip_linux.Lbf.Ranges.Order.{Cells}
use new_ip_linux.Lbf.Ranges.Line.{Line, nil, cons}
use new_ip_linux.Lbf.Ranges.Get.{HasHnodes}
use new_ip_linux.Lbf.Search.{
  is_expired, send, go_on, scan_now, walk_now, search_now_pnode, ullong_max,
}

abbrev pub Pnodes : Type 0
Pnodes = Ptr → Option Pnode

-- The head of a queue: there is none, or it is a live packet that has not expired and whose time is
-- below `ULLONG_MAX`.
pub data Head (m : Pnodes) (now hops : ℕ) : Ptr → Type 0 where
  empty : Head m now hops null
  first :
      {p : Ptr} {n : Pnode}
      → At m p n
      → is_expired now hops n ≡ false
      → n.tmin_nsec < ullong_max
      → Head m now hops p

abbrev pub Heads : (m : Pnodes) (now hops : ℕ) → Cells → Type 0
Heads m now hops xs = All (λ x. Head m now hops (x.1).queue) xs

abbrev pub may_leave : ℕ → Option Pnode → Bool
may_leave now none = false
may_leave now (some n) = leb n.tmin_nsec now

-- Whether there is a packet at `p` and it may leave at the time `now`.
unfoldable pub is_due : ℕ → Pnodes → Ptr → Bool
is_due now m p = may_leave now (read m p)

-- The first head of a queue that may leave, in the order of the hnodes.
unfoldable pub first_due : ℕ → Pnodes → Cells → Ptr
first_due now m [] = null
first_due now m (x ∷ xs) = if is_due now m (x.1).queue then (x.1).queue else first_due now m xs

is_due-At :
    (now : ℕ) {m : Pnodes} {p : Ptr} {n : Pnode} → At m p n → is_due now m p ≡ leb n.tmin_nsec now
unfolding is_due
is_due-At now e = rw (read-At e) refl

is_due-null : (now : ℕ) (m : Pnodes) → is_due now m null ≡ false
unfolding is_due read
is_due-null now m = refl

module _ (s : State) (now : ℕ) where
  scan_now-Head :
      (k : ℕ) (at : Ptr) {p : Ptr}
      → Head s.pnodes now s.sched.hops_left p
      → scan_now (suc k) now at p s ≡ ok (if is_due now s.pnodes p then send p else go_on at) s
  unfolding scan_now get_sched
  scan_now-Head k at empty = rw (is_due-null now s.pnodes) refl
  scan_now-Head k at {p} (first {n} e live small) =
      rw (not_null e, load_pnode-At s e, is_due-At now e)
        (elim (Bool-cases (leb n.tmin_nsec now)) [
          | inl due ↦ simp (due, live) refl
          | inr early ↦ simp early refl
        ])

  walk_now-first_due :
      (fuel k : ℕ) {p : Ptr} {xs : Cells}
      → Line s.hnodes p xs
      → Heads s.pnodes now s.sched.hops_left xs
      → length xs < k
      → walk_now (suc fuel) k now p s ≡ ok (first_due now s.pnodes xs) s
  unfolding walk_now first_due
  walk_now-first_due fuel zero line heads enough = absurd (omega arith)
  walk_now-first_due fuel (suc k) nil heads enough = refl
  walk_now-first_due fuel (suc k) (cons {p} {v} at out line) heads enough =
      rw (not_null at, load_hnode-At s at, scan_now-Head fuel p (heads.0))
        (elim (Bool-cases (is_due now s.pnodes v.queue)) [
          | inl due ↦ rw due refl
          | inr early ↦
              rw (early, load_hnode-At s at)
                (walk_now-first_due fuel k line (heads.1) (omega arith))
        ])

-- If no head of a queue has expired and their times are below ULLONG_MAX, `search_now_pnode`, with
-- more fuel than hnodes, returns the first head of a queue that may leave now, in the order of the
-- hnodes, or NULL if none may, and changes nothing but the record of calls, by its call for the time.
pub search_now_pnode-first_due :
    (kernel : Kernel) (s : State) (l : HnodeHead) (xs : Cells) (fuel : ℕ)
    → HasHnodes s l xs
    → Heads s.pnodes (kernel.ticks2ns (kernel.get_time s.calls)) s.sched.hops_left xs
    → length xs < fuel
    → search_now_pnode kernel fuel s
      ≡ ok
          (first_due (kernel.ticks2ns (kernel.get_time s.calls)) s.pnodes xs)
          (record s { calls = Call.psched_get_time ∷ s.calls })
unfolding search_now_pnode get_sched time_ns psched_get_time
search_now_pnode-first_due kernel s l xs zero has heads enough = absurd (omega arith)
search_now_pnode-first_due kernel s l xs (suc fuel) has heads enough =
    let s1 : State = record s { calls = Call.psched_get_time ∷ s.calls } in
    simp (has.here) (walk_now-first_due s1 _ fuel (suc fuel) has.line heads enough)
