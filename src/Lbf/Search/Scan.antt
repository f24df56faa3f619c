-- ===== src/Lbf/Search/Scan.antt =====
-- The inner loops of `search_now_pnode` and `search_next_pnode` of lbf/src/linux/sch_lbf.c.
use new_ip_linux.Common.{
  ℕ, zero, suc, ◌<◌, ◌≡◌, refl, inl, inr, Bool-cases, [], ◌∷◌, arith, ltb, leb, if◌then◌else◌,
  length,
}
use new_ip_linux.Lbf.Store.{Ptr, null, Hnode, State, At}
use new_ip_linux.Lbf.Store.Access.{not_null, load_pnode-At, get_sched}
use new_ip_linux.Lbf.Store.Returns.{Returns, returns, bind}
use new_ip_linux.Lbf.Queue.Chain.{node, Cells, Chain, nil, cons}
use new_ip_linux.Lbf.Queue.Insert.{unchanged}
use new_ip_linux.Lbf.Queue.Remove.{remove_pnode-first}
use new_ip_linux.Lbf.Stock.{Chain-head_of}
use new_ip_linux.Lbf.Search.{is_expired, Found, send, go_on, scan_now, Best, scan_next}
use new_ip_linux.Lbf.Search.Expired.{
  dropped, kept, drops, expires, Scanned, step_back-stays, Scanned-stays, scan-Removed,
}

-- The packet at the head of a queue is sent if it may leave; else the walk goes on from the hnode.
abbrev pub found_in : (now : ℕ) → (hnode : Ptr) → Cells → Found
found_in now hnode [] = go_on hnode
found_in now hnode (x ∷ xs) = if leb ((x.1).tmin_nsec) now then send (x.0) else go_on hnode

-- It takes the place of the packet known so far if it may leave before that.
abbrev pub best_of : Best → Cells → Best
best_of b [] = b
best_of b (x ∷ xs) =
    if ltb ((x.1).tmin_nsec) b.tmin then record b { tmin = (x.1).tmin_nsec; ret = x.0 } else b

module _ (now : ℕ) where
  -- With more fuel than there are packets, the loop over the queue of a hnode that has no hnode
  -- before it faults nowhere. It takes off and frees, from the head on, the packets that may leave
  -- and have expired, on the last hop, up to the first that is not both; the rest stays in the queue
  -- of the hnode. If the new head may leave it is the packet to send, else the walk goes on from the
  -- hnode. Nothing else in the store is changed.
  pub scan_now-Scanned :
      (k : ℕ) (s : State) (hnode : Ptr) (h : Hnode) {p : Ptr} {xs : Cells}
      → Chain s.pnodes hnode p xs
      → At s.hnodes hnode h
      → h.prev_hnode ≡ null
      → h.queue ≡ p
      → length xs < k
      → Returns
          (Scanned (drops now s.sched.hops_left) (found_in now hnode) s hnode h xs)
          (scan_now k now hnode p s)
  unfolding scan_now get_sched kept dropped
  scan_now-Scanned zero s hnode h c at first here enough = absurd (omega arith)
  scan_now-Scanned (suc k) s hnode h nil at first here enough =
      returns
        (s.pnodes, s.hnodes, null, refl, refl, nil, tt, (λ a o. refl), unchanged {h = h} at here)
  scan_now-Scanned (suc k) s hnode h (cons {p = p} {q = q} {v = v} {xs = xs} e out c) at first here
        enough =
      let hops : ℕ = s.sched.hops_left in
      rw (not_null e, load_pnode-At s e)
        (elim (Bool-cases (leb v.tmin_nsec now)) [
          | inr early ↦ rw early (
              returns (
                Scanned-stays (drops now hops) (found_in now hnode) hnode s v (go_on hnode)
                  (rw early refl) (cons {v = v} e out c) at here (rw early refl)))
          | inl due ↦ elim (Bool-cases (is_expired now hops (node v null null))) [
            | inr live ↦
                rw (due, live)
                  (returns (
                    Scanned-stays (drops now hops) (found_in now hnode) hnode s v (send p)
                      (rw (due, live) refl) (cons {v = v} e out c) at here (rw due refl)))
            | inl gone ↦
                rw (due, gone, step_back-stays s q at first)
                  (bind (remove_pnode-first s h at first e out c) (λ _ s₁ r.
                    scan-Removed (drops now hops) (found_in now hnode) hnode
                      (λ a. scan_now k now hnode a) s s₁ h p q v xs (rw (due, gone) refl) out
                      (Chain-head_of c) at.ne_null r
                      (λ g hs c' at'.
                        scan_now-Scanned k (record s { pnodes = g; hnodes = hs }) hnode
                          (record h { queue = q }) c' at' first refl (omega arith))))
          ]
        ])

  -- The same for the inner loop of `search_next_pnode`, which drops all packets that have expired
  -- on the last hop and then looks at the new head.
  pub scan_next-Scanned :
      (k : ℕ) (s : State) (b : Best) (h : Hnode) {p : Ptr} {xs : Cells}
      → Chain s.pnodes b.at p xs
      → At s.hnodes b.at h
      → h.prev_hnode ≡ null
      → h.queue ≡ p
      → length xs < k
      → Returns
          (Scanned (expires now s.sched.hops_left) (best_of b) s b.at h xs)
          (scan_next k now b p s)
  unfolding scan_next get_sched kept dropped
  scan_next-Scanned zero s b h c at first here enough = absurd (omega arith)
  scan_next-Scanned (suc k) s b h nil at first here enough =
      returns
        (s.pnodes, s.hnodes, null, refl, refl, nil, tt, (λ a o. refl), unchanged {h = h} at here)
  scan_next-Scanned (suc k) s b h (cons {p = p} {q = q} {v = v} {xs = xs} e out c) at first here
        enough =
      let hops : ℕ = s.sched.hops_left in
      rw (not_null e, load_pnode-At s e)
        (elim (Bool-cases (is_expired now hops (node v null null))) [
          | inr live ↦ rw live (
              returns (
                Scanned-stays (expires now hops) (best_of b) b.at s v (best_of b ((p, v) ∷ xs)) live
                  (cons {v = v} e out c) at here refl))
          | inl gone ↦
              rw (gone, step_back-stays s q at first)
                (bind (remove_pnode-first s h at first e out c) (λ _ s₁ r.
                  scan-Removed (expires now hops) (best_of b) b.at (λ a. scan_next k now b a) s s₁ h
                    p q v xs gone out (Chain-head_of c) at.ne_null r
                    (λ g hs c' at'.
                      scan_next-Scanned k (record s { pnodes = g; hnodes = hs }) b
                        (record h { queue = q }) c' at' first refl (omega arith))))
        ])
