-- ===== src/Lbf/Search/Next.antt =====
-- `search_next_pnode` of lbf/src/linux/sch_lbf.c where no packet at the head of a queue has expired.
use mathlib.Core.Path.{◌∙◌, sym, subst}
use new_ip_linux.Common.{
  ℕ, zero, suc, ◌<◌, ◌≤◌, ◌≡◌, refl, inl, inr, ◌⊎◌, Bool-cases, [], ◌∷◌, arith, ltb, length, All,
}
use new_ip_linux.Lbf.Store.{Ptr, null, Hnode, Pnode, HnodeHead, Kernel, Call, State, ok, At}
use new_ip_linux.Lbf.Store.Access.{
  not_null, load_hnode-At, load_pnode-At, get_sched, psched_get_time, time_ns,
}
use new_ip_linux.Lbf.Ranges.Order.{Cells}
use new_ip_linux.Lbf.Ranges.Line.{Line, nil, cons}
use new_ip_linux.Lbf.Ranges.Get.{HasHnodes}
use new_ip_linux.Lbf.Search.{scan_next, walk_next, search_next_pnode, ullong_max}
use new_ip_linux.Lbf.Search.Now.{Pnodes, Head, empty, first, Heads}

-- `p` is the head of the queue of one of the hnodes.
abbrev pub IsHead : Ptr → Cells → Type 0
IsHead p [] = ⊥
IsHead p (x ∷ xs) = (p ≡ (x.1).queue) ⊎ IsHead p xs

-- No head of a queue may leave before `t`.
abbrev pub Behind : Pnodes → ℕ → Cells → Type 0
Behind m t xs = All (λ x. (n : Pnode) → At m (x.1).queue n → t ≤ n.tmin_nsec) xs

-- What `search_next_pnode` promises of its result: NULL and all queues are empty, or the head of a
-- queue and no head of a queue may leave before it.
abbrev pub Earliest : Pnodes → Cells → Ptr → Type 0
Earliest m xs r =
    (r ≡ null) × All (λ x. (x.1).queue ≡ null) xs
    ⊎ ((n : Pnode) × At m r n × IsHead r xs × Behind m n.tmin_nsec xs)

-- The same beside a best packet `ret`, which may leave from `t` on.
abbrev Improves : Pnodes → Cells → (t : ℕ) (ret : Ptr) → Ptr → Type 0
Improves m xs t ret r =
    (r ≡ ret) × Behind m t xs
    ⊎ ((n : Pnode) × At m r n × IsHead r xs × Behind m n.tmin_nsec xs × (n.tmin_nsec < t))

Behind-le : (m : Pnodes) (t u : ℕ) (xs : Cells) → t ≤ u → Behind m u xs → Behind m t xs
Behind-le m t u [] le a = tt
Behind-le m t u (x ∷ xs) le a = (λ n e. omega (arith, a.0 n e), Behind-le m t u xs le (a.1))

At-unique :
    {m : Pnodes} {p : Ptr} {n n' : Pnode} → At m p n → At m p n' → n.tmin_nsec ≡ n'.tmin_nsec
At-unique e e' = let a = e.holds in let b = e'.holds in cc

Head-empty :
    (m : Pnodes) (now hops : ℕ) {p : Ptr}
    → Head m now hops p
    → ((n : Pnode) → At m p n → ullong_max ≤ n.tmin_nsec)
    → p ≡ null
Head-empty m now hops empty far = refl
Head-empty m now hops (first {n} e live small) far = absurd (omega (arith, far n e))

module _ (s : State) (now : ℕ) where
  -- The best packet when the head at `p` has been looked at.
  abbrev Improved : (p : Ptr) (t : ℕ) (ret : Ptr) (t' : ℕ) (ret' : Ptr) → Type 0
  Improved p t ret t' ret' =
      (t' ≡ t) × (ret' ≡ ret) × ((n : Pnode) → At s.pnodes p n → t ≤ n.tmin_nsec)
      ⊎ ((n : Pnode) × At s.pnodes p n × (t' ≡ n.tmin_nsec) × (ret' ≡ p) × (n.tmin_nsec < t))

  scan_next-Head :
      (k : ℕ) (at : Ptr) (t : ℕ) (ret : Ptr) {p : Ptr}
      → Head s.pnodes now s.sched.hops_left p
      → (t' : ℕ) × (ret' : Ptr) × (scan_next
            (suc k)
            now
            (record { at = at; tmin = t; ret = ret })
            p
            s
          ≡ ok (record { at = at; tmin = t'; ret = ret' }) s)
        × Improved p t ret t' ret'
  unfolding scan_next get_sched
  scan_next-Head k at t ret empty = (t, ret, refl, inl (refl, refl, λ n e. absurd (e.ne_null refl)))
  scan_next-Head k at t ret {p} (first {n} e live small) =
      rw (not_null e, load_pnode-At s e)
        (elim (Bool-cases (ltb n.tmin_nsec t)) [
          | inl less ↦
              simp (live, less) (n.tmin_nsec, p, refl, inr (n, e, refl, refl, ground (arith, less)))
          | inr more ↦
              simp (live, more)
                (t, ret, refl, inl (refl, refl, λ n' e'. ground (arith, more, At-unique e e')))
        ])

  -- The packet that is known, the head of the next queue, and the queues behind it.
  Improves-cons :
      (p : Ptr) (v : Hnode) (xs : Cells) (t t' : ℕ) (ret ret' r : Ptr)
      → Improved v.queue t ret t' ret'
      → Improves s.pnodes xs t' ret' r
      → Improves s.pnodes ((p, v) ∷ xs) t ret r
  Improves-cons p v xs t t' ret ret' r (inl (et, er, h)) (inl (e, far)) =
      inl (e ∙ er, (h, Behind-le s.pnodes t t' xs (omega arith) far))
  Improves-cons p v xs t t' ret ret' r (inl (et, er, h)) (inr (n, at, is, far, less)) =
      inr (n, at, inr is, ((λ n' e'. omega (arith, h n' e')), far), omega arith)
  Improves-cons p v xs t t' ret ret' r (inr (n, at, et, er, less)) (inl (e, far)) = inr (
    n,
    subst (λ a. At s.pnodes a n) (sym (e ∙ er)) at,
    inl (e ∙ er),
    (
      (λ n' e'. omega (arith, At-unique at e')),
      Behind-le s.pnodes n.tmin_nsec t' xs (omega arith) far,
    ),
    less,
  )
  Improves-cons p v xs t t' ret ret' r (inr (n, at, et, er, less)) (inr (n2, at2, is, far, less2)) =
      inr (n2, at2, inr is, ((λ n' e'. omega (arith, At-unique at e')), far), omega arith)

  walk_next-Improves :
      (fuel k : ℕ) (t : ℕ) (ret : Ptr) {p : Ptr} {xs : Cells}
      → Line s.hnodes p xs
      → Heads s.pnodes now s.sched.hops_left xs
      → length xs < k
      → (r : Ptr) × (walk_next (suc fuel) k now (record { at = p; tmin = t; ret = ret }) s ≡ ok r s)
        × Improves s.pnodes xs t ret r
  unfolding walk_next
  walk_next-Improves fuel zero t ret line heads enough = absurd (omega arith)
  walk_next-Improves fuel (suc k) t ret nil heads enough = (ret, refl, inl (refl, tt))
  walk_next-Improves fuel (suc k) t ret (cons {p} {q} {v} {xs} at out line) heads enough =
      let (t', ret', e, better) = scan_next-Head fuel p t ret (heads.0) in
      let (r, e', best) = walk_next-Improves fuel k t' ret' line (heads.1) (omega arith) in
      rw (not_null at, load_hnode-At s at, e, load_hnode-At s at)
        (r, e', Improves-cons p v xs t t' ret ret' r better best)

-- Where no head of a queue may leave before `ULLONG_MAX`, all queues are empty.
Behind-empty :
    (m : Pnodes) (now hops : ℕ) (xs : Cells)
    → Heads m now hops xs
    → Behind m ullong_max xs
    → All (λ x. (x.1).queue ≡ null) xs
Behind-empty m now hops [] heads far = tt
Behind-empty m now hops (x ∷ xs) heads far =
    (Head-empty m now hops (heads.0) (far.0), Behind-empty m now hops xs (heads.1) (far.1))

-- If no head of a queue has expired and their times are below ULLONG_MAX, `search_next_pnode`, with
-- more fuel than hnodes, changes nothing but the record of calls, by its call for the time. It
-- returns NULL if all queues are empty, and otherwise the head of a queue such that no head of a
-- queue may leave before it.
pub search_next_pnode-Earliest :
    (kernel : Kernel) (s : State) (l : HnodeHead) (xs : Cells) (fuel : ℕ)
    → HasHnodes s l xs
    → Heads s.pnodes (kernel.ticks2ns (kernel.get_time s.calls)) s.sched.hops_left xs
    → length xs < fuel
    → (r : Ptr) × (search_next_pnode kernel fuel s
        ≡ ok r (record s { calls = Call.psched_get_time ∷ s.calls }))
      × Earliest s.pnodes xs r
unfolding search_next_pnode get_sched time_ns psched_get_time
search_next_pnode-Earliest kernel s l xs zero has heads enough = absurd (omega arith)
search_next_pnode-Earliest kernel s l xs (suc fuel) has heads enough =
    let s1 : State = record s { calls = Call.psched_get_time ∷ s.calls } in
    let now : ℕ = kernel.ticks2ns (kernel.get_time s.calls) in
    let (r, e, best) =
      walk_next-Improves s1 now fuel (suc fuel) ullong_max null has.line heads enough in
    simp (has.here) (
      r,
      e,
      elim best [
        | inl (z, far) ↦ inl (z, Behind-empty s.pnodes now _ xs heads far)
        | inr (n, at, is, far, less) ↦ inr (n, at, is, far)
      ],
    )
