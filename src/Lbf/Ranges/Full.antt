-- ===== src/Lbf/Ranges/Full.antt =====
-- `lbf_get_hnode` of lbf/src/linux/sch_lbf.c where no memory is left, and where there is no list yet.
use new_ip_linux.Common.{
  ℕ, zero, suc, ◌<◌, ◌≡◌, ◌≢◌, refl, inl, inr, none, some, ◌∷◌, arith, ◌==◌, length, true, false,
}
use new_ip_linux.Lbf.Store.{Ptr, null, HnodeHead, Kernel, Call, State, ok}
use new_ip_linux.Lbf.Store.Access.{not_null, load_hnode-At}
use new_ip_linux.Lbf.Ranges.{create_hnode, find_hnode, ensure_list, get_hnode}
use new_ip_linux.Lbf.Ranges.Order.{Cells, lookup, lookup-none}
use new_ip_linux.Lbf.Ranges.Line.{Line, nil, cons, with_list, load_list-some}
use new_ip_linux.Lbf.Ranges.Get.{ensure_list-some}

-- The state after a call of `kcalloc`.
abbrev pub asked : State → State
asked s = record s { calls = Call.kcalloc ∷ s.calls }

module _ (kernel : Kernel) (b : ℕ) (s : State) (l : HnodeHead) (here : s.sched.hnode_list ≡ some l)
    (full : kernel.alloc s.calls ≡ null) where
  create_hnode-null : (n : ℕ) → create_hnode kernel b n s ≡ ok null (asked s)
  unfolding create_hnode
  create_hnode-null n =
      let z : (kernel.alloc s.calls == null) ≡ true = ground (arith, full) in rw z refl

  find_hnode-null :
      (k : ℕ) (prev : Ptr) {p : Ptr} {xs : Cells}
      → Line s.hnodes p xs
      → lookup b xs ≡ none
      → length xs < k
      → find_hnode kernel k b prev p s ≡ ok null (asked s)
  unfolding find_hnode
  find_hnode-null zero prev c miss enough = absurd (omega arith)
  find_hnode-null (suc k) prev nil miss enough =
      rw (load_list-some s l here, create_hnode-null l.len) refl
  find_hnode-null (suc k) prev (cons {p} {v = v} {xs = xs} at out c) miss enough =
      let (past, stop) = lookup-none b p v xs miss in
      rw (not_null at, load_hnode-At s at, past)
        (elim stop [
          | inl hit ↦ rw (hit, load_list-some s l here, create_hnode-null l.len) refl
          | inr (next, rest) ↦ rw next (find_hnode-null k p c rest (omega arith))
        ])

  -- A budget that no hnode serves is not served, and nothing is changed.
  pub get_hnode-null :
      (k : ℕ) {p : Ptr} {xs : Cells}
      → l.head ≡ p
      → Line s.hnodes p xs
      → lookup b xs ≡ none
      → length xs < k
      → get_hnode kernel k b s ≡ ok null (asked s)
  unfolding get_hnode
  get_hnode-null k first nil miss enough =
      rw
        (
          ensure_list-some kernel b k s l here,
          load_list-some s l here,
          first,
          create_hnode-null l.len,
        )
        refl
  get_hnode-null k {p} first (cons at out c) miss enough =
      rw (ensure_list-some kernel b k s l here, load_list-some s l here, first, not_null at)
        (find_hnode-null k p (cons at out c) miss enough)

-- The state with a new list of hnodes, which has none yet.
abbrev pub with_new_list : State → State
with_new_list s = with_list (asked s) (record { head = null; tail = null; len = 0 })

-- Where there is no list, it is made first.
pub get_hnode_first :
    (kernel : Kernel) (k b : ℕ) (s : State)
    → s.sched.hnode_list ≡ none
    → kernel.alloc s.calls ≢ null
    → get_hnode kernel k b s ≡ get_hnode kernel k b (with_new_list s)
unfolding get_hnode ensure_list
get_hnode_first kernel k b s none_yet got =
    let n : (kernel.alloc s.calls == null) ≡ false = ground arith in simp (none_yet, n) refl
