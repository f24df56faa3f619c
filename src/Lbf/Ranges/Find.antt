-- ===== src/Lbf/Ranges/Find.antt =====
-- The loop of `lbf_get_hnode` of lbf/src/linux/sch_lbf.c.
use new_ip_linux.Common.{
  ◌∉◌, ℕ, zero, suc, ◌+◌, ◌<◌, ◌≡◌, ◌≢◌, refl, ap, ◌∙◌, inl, inr, true, false, none, some, ◌∷◌,
  arith, ◌==◌, length,
}
use new_ip_linux.Lbf.Store.{Ptr, null, Hnode, HnodeHead, Kernel, Call, State, ok, At, write}
use new_ip_linux.Lbf.Store.Access.{not_null, load_hnode-At, update_hnode-At}
use new_ip_linux.Lbf.Store.Returns
use new_ip_linux.Lbf.Store.Returns.{Returns, returns}
use new_ip_linux.Lbf.Ranges.{new_hnode, find_hnode}
use new_ip_linux.Lbf.Ranges.Order.{Cells, lookup, insert, is_key-insert, lookup-none, lookup-some}
use new_ip_linux.Lbf.Ranges.Line.{
  Hnodes, linked, SameOutside, Line, nil, cons, frame, with_list, with_hnode, load_list-some,
  count_hnode-some, set_head-some, create_hnode-ok,
}

-- A budget that an hnode covers is served by it, and nothing is changed.
pub find_hnode-lookup :
    (kernel : Kernel) (b k : ℕ) (s : State) (prev : Ptr) {p r : Ptr} {xs : Cells}
    → Line s.hnodes p xs
    → lookup b xs ≡ some r
    → length xs < k
    → find_hnode kernel k b prev p s ≡ ok r s
unfolding find_hnode
find_hnode-lookup kernel b zero s prev c e fuel = absurd (omega arith)
find_hnode-lookup kernel b (suc k) s prev nil e fuel = unfold lookup in cc
find_hnode-lookup kernel b (suc k) s prev {r} (cons {p} {v} {xs} at out c) e fuel =
    rw (not_null at, load_hnode-At s at)
      (elim (lookup-some b p r v xs e) [
        | inl (hit, is) ↦ rw hit (ap (λ (a : Ptr). ok a s) is)
        | inr (past, next, rest) ↦
            rw (past, next) (find_hnode-lookup kernel b k s p c rest (omega arith))
      ])

module _ (kernel : Kernel) (b : ℕ) where
  abbrev pub fresh : State → Ptr
  fresh s = kernel.alloc s.calls

  -- A run that adds an hnode for the budget, in its place in the list `xs`, and nothing else.
  abbrev pub Added : (s : State) (l : HnodeHead) (xs : Cells) → Ptr → State → Type 0
  Added s l xs r s' =
      (g : Hnodes) × (p : Ptr) × (r ≡ fresh s)
      × (s'
          ≡ with_list (record s { hnodes = g; calls = Call.kcalloc ∷ s.calls })
              (record l { head = p; len = l.len + 1 }))
      × Line g p (insert b (fresh s, new_hnode b l.len) xs)
      × SameOutside ((fresh s, new_hnode b l.len) ∷ xs) s.hnodes g

  module _ (s : State) (l : HnodeHead) (here : s.sched.hnode_list ≡ some l)
      (got : fresh s ≢ null) where
    abbrev new : Ptr × Hnode
    new = (fresh s, new_hnode b l.len)

    find_hnode-behind :
        (k : ℕ) {prev curr : Ptr} {u : Hnode} {xs : Cells}
        → At s.hnodes prev (linked u curr)
        → prev ∉ xs
        → Line s.hnodes curr xs
        → fresh s ∉ (prev, u) ∷ xs
        → lookup b xs ≡ none
        → length xs < k
        → Returns
            (λ r s'.
              (g : Hnodes) × (r ≡ fresh s)
              × (s'
                  ≡ with_list
                      (record s { hnodes = g; calls = Call.kcalloc ∷ s.calls })
                      (record l { len = l.len + 1 }))
              × Line g prev ((prev, u) ∷ insert b new xs)
              × SameOutside (new ∷ (prev, u) ∷ xs) s.hnodes g)
            (find_hnode kernel k b prev curr s)
    unfolding find_hnode lookup insert write
    find_hnode-behind zero at out c unused miss fuel = absurd (omega arith)
    find_hnode-behind (suc k) {prev} {u} at out nil unused miss fuel =
        let m1 : Hnodes = write s.hnodes (fresh s) (some (new_hnode b l.len)) in
        let still : At m1 prev (linked u null) = ground arith in
        let s1 : State = with_hnode kernel s (new_hnode b l.len) in
        let there : (fresh s == null) ≡ false = ground arith in
        rw
          (
            load_list-some s l here,
            create_hnode-ok kernel s b l.len got,
            there,
            update_hnode-At s1 still,
          )
          (rw
            (count_hnode-some (record s1 { hnodes = write m1 prev (some (linked u (fresh s))) }) l
              here)
            (returns (
              _,
              refl,
              refl,
              cons {v = u} (ground arith) (ground arith)
                  (cons {v = new_hnode b l.len} (ground arith) refl nil),
              ground arith,
            )))
    find_hnode-behind (suc k) {prev} {u} at out (cons {p} {q} {v} {xs} at' out' c) unused miss
          fuel =
        let m1 : Hnodes = write s.hnodes (fresh s) (some (new_hnode b l.len)) in
        let m2 : Hnodes = write m1 (fresh s) (some (linked (new_hnode b l.len) p)) in
        let m3 : Hnodes = write m2 prev (some (linked u (fresh s))) in
        let s1 : State = with_hnode kernel s (new_hnode b l.len) in
        let mine : At m1 (fresh s) (new_hnode b l.len) = ground arith in
        let still : At m2 prev (linked u p) = ground arith in
        let there : (fresh s == null) ≡ false = ground arith in
        let apart : (p == prev) ≡ false = ground arith in
        let (past, stop) = lookup-none b p v xs miss in
        rw (not_null at', load_hnode-At s at', past)
          (elim stop [
            | inl hit ↦
                rw
                  (
                    hit,
                    load_list-some s l here,
                    create_hnode-ok kernel s b l.len got,
                    there,
                    apart,
                    update_hnode-At s1 mine,
                    update_hnode-At (record s1 { hnodes = m2 }) still,
                    count_hnode-some (record s1 { hnodes = m3 }) l here,
                  )
                  (returns (
                    m3,
                    refl,
                    refl,
                    cons {v = u} (ground arith) (ground arith) (
                        cons {v = new_hnode b l.len} (ground arith) (ground arith)
                          (frame (cons {v = v} at' out' c) (ground arith))),
                    ground arith,
                  ))
            | inr (next, rest) ↦ rw next (
                Returns.mono
                  (find_hnode-behind k {u = v} at' out' c (ground arith) rest (omega arith))
                  λ r s' (g, is, same_rest, line, same). (
                    g,
                    is,
                    same_rest,
                    cons {v = u} (ground (arith, same prev))
                        (ground (arith, is_key-insert prev b new xs)) line,
                    λ a i. same a (ground arith),
                  ))
          ])

    pub find_hnode-head :
        (k : ℕ) {p q : Ptr} (v : Hnode) {xs : Cells}
        → l.head ≡ p
        → At s.hnodes p (linked v q)
        → p ∉ xs
        → Line s.hnodes q xs
        → fresh s ∉ (p, v) ∷ xs
        → lookup b ((p, v) ∷ xs) ≡ none
        → length xs < k
        → Returns (Added s l ((p, v) ∷ xs)) (find_hnode kernel (suc k) b p p s)
    unfolding find_hnode insert write
    find_hnode-head k {p} {q} v {xs} first at' out' c unused miss fuel =
        let m1 : Hnodes = write s.hnodes (fresh s) (some (new_hnode b l.len)) in
        let m2 : Hnodes = write m1 (fresh s) (some (linked (new_hnode b l.len) p)) in
        let s1 : State = with_hnode kernel s (new_hnode b l.len) in
        let mine : At m1 (fresh s) (new_hnode b l.len) = ground arith in
        let there : (fresh s == null) ≡ false = ground arith in
        let same : (p == p) ≡ true = ground arith in
        let (past, stop) = lookup-none b p v xs miss in
        rw (not_null at', load_hnode-At s at', past)
          (elim stop [
            | inl hit ↦
                rw
                  (
                    hit,
                    load_list-some s l here,
                    create_hnode-ok kernel s b l.len got,
                    there,
                    same,
                    update_hnode-At s1 mine,
                    set_head-some (record s1 { hnodes = m2 }) l here (fresh s),
                  )
                  (returns (
                    m2,
                    fresh s,
                    refl,
                    refl,
                    rw hit (
                        cons {v = new_hnode b l.len} (ground arith) (ground arith)
                          (frame (cons {v = v} at' out' c) (ground arith))),
                    ground arith,
                  ))
            | inr (next, rest) ↦ rw next (
                Returns.mono (find_hnode-behind k {u = v} at' out' c unused rest fuel)
                  λ r s' (g, is, same_rest, line, same). (
                    g,
                    p,
                    is,
                    same_rest
                        ∙ ap
                            (λ (a : Ptr).
                              with_list (record s { hnodes = g; calls = Call.kcalloc ∷ s.calls })
                                (record l { head = a; len = l.len + 1 }))
                            first,
                    rw next line,
                    same,
                  ))
          ])
