-- ===== src/Lbf/Ranges/Line.antt =====
-- The linked list that stores the hnodes.
use new_ip_linux.Common.{ℕ, ◌+◌, ◌≡◌, ◌≢◌, refl, Option, none, some, [], ◌∷◌, arith, ◌∈◌, ◌∉◌}
use new_ip_linux.Lbf.Store.{Ptr, null, Hnode, HnodeHead, Kernel, Call, State, ok, At, write}
use new_ip_linux.Lbf.Store.Access.{load_list}
use new_ip_linux.Lbf.Ranges.{new_hnode, create_hnode, count_hnode, set_head}
use new_ip_linux.Lbf.Ranges.Order.{Cells}

abbrev pub Hnodes : Type 0
Hnodes = Ptr → Option Hnode

abbrev pub linked : Hnode → Ptr → Hnode
linked v q = record v { next_hnode = q }

abbrev pub SameOutside : Cells → Hnodes → Hnodes → Type 0
SameOutside xs m g = (a : Ptr) → a ∉ xs → g a ≡ m a

-- From `p` the links lead through the distinct hnodes of `xs` to NULL.
pub data Line (m : Hnodes) : Ptr → Cells → Type 0 where
  nil : Line m null []
  cons :
      {p q : Ptr} {v : Hnode} {xs : Cells}
      → At m p (linked v q)
      → p ∉ xs
      → Line m q xs
      → Line m p ((p, v) ∷ xs)

module _ {m : Hnodes} where
  pub frame :
      {g : Hnodes} {p : Ptr} {xs : Cells}
      → Line m p xs
      → ((a : Ptr) → a ∈ xs → g a ≡ m a)
      → Line g p xs
  frame nil same = nil
  frame (cons {p} {v} e out s) same =
      cons {v = v} (ground (arith, same p)) out (frame s λ a i. same a (ground arith))

  pub not-mem_of_none : {p : Ptr} {xs : Cells} (a : Ptr) → Line m p xs → m a ≡ none → a ∉ xs
  not-mem_of_none a nil unused = refl
  not-mem_of_none a (cons e out s) unused = ground (arith, not-mem_of_none a s unused)

-- The state with another list head.
abbrev pub with_list : State → HnodeHead → State
with_list s l = record s { sched = record (s.sched) { hnode_list = some l } }

module _ (s : State) (l : HnodeHead) (here : s.sched.hnode_list ≡ some l) where
  pub load_list-some : load_list s ≡ ok l s
  unfolding load_list
  load_list-some = ground (arith, here)

  pub count_hnode-some : count_hnode s ≡ ok tt (with_list s (record l { len = l.len + 1 }))
  unfolding count_hnode
  count_hnode-some = ground (arith, here)

  pub set_head-some : (p : Ptr) → set_head p s ≡ ok tt (with_list s (record l { head = p }))
  unfolding set_head
  set_head-some p = ground (arith, here)

-- The state with one more hnode, which holds `v`.
abbrev pub with_hnode : Kernel → State → Hnode → State
with_hnode kernel s v = record s {
  hnodes = write s.hnodes (kernel.alloc s.calls) (some v);
  calls = Call.kcalloc ∷ s.calls;
}

pub create_hnode-ok :
    (kernel : Kernel) (s : State) (b n : ℕ)
    → kernel.alloc s.calls ≢ null
    → create_hnode kernel b n s ≡ ok (kernel.alloc s.calls) (with_hnode kernel s (new_hnode b n))
unfolding create_hnode
create_hnode-ok kernel s b n got = ground arith
