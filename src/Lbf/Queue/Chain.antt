-- ===== src/Lbf/Queue/Chain.antt =====
-- The packets of one hnode as a list, and the linked list of pnodes that stores it.
use new_ip_linux.Common.{ℕ, ◌≡◌, refl, ◌∈◌, ◌∉◌, Option, none, List, [], ◌∷◌, arith}
use new_ip_linux.Lbf.Store.{Ptr, null, Pnode, At}

-- What a pnode holds beside its links.
pub record Packet : Type 0 where
  pub tmin_nsec : ℕ
  pub tmax_nsec : ℕ
  pub trcv : ℕ
  pub realpkt : Ptr

abbrev pub node : Packet → (next hnode : Ptr) → Pnode
node v q o = record {
  next = q;
  hnode = o;
  tmin_nsec = v.tmin_nsec;
  tmax_nsec = v.tmax_nsec;
  trcv = v.trcv;
  realpkt = v.realpkt;
}

abbrev pub Pnodes : Type 0
Pnodes = Ptr → Option Pnode

-- Address and packet of each pnode of a queue, in order.
abbrev pub Cells : Type 0
Cells = List (Ptr × Packet)

-- `g` differs from `m` at most at the addresses of `xs`.
abbrev pub SameOutside : Cells → Pnodes → Pnodes → Type 0
SameOutside xs m g = (a : Ptr) → a ∉ xs → g a ≡ m a

-- `p` is a live pnode with that packet and those links.
abbrev pub Points : (m : Pnodes) (p : Ptr) (v : Packet) (next hnode : Ptr) → Type 0
Points m p v next hnode = At m p (node v next hnode)

-- From `p` the links lead through the distinct pnodes of `xs` to NULL. The first of them points
-- back to `owner`, the others to no hnode.
pub data Chain (m : Pnodes) : (owner p : Ptr) → Cells → Type 0 where
  nil : {owner : Ptr} → Chain m owner null []
  cons :
      {owner p q : Ptr} {v : Packet} {xs : Cells}
      → Points m p v q owner
      → p ∉ xs
      → Chain m null q xs
      → Chain m owner p ((p, v) ∷ xs)

module _ {m : Pnodes} where
  -- A queue is one in any other map that agrees at its own addresses.
  pub agree :
      {g : Pnodes} {owner p : Ptr} {xs : Cells}
      → ((a : Ptr) → a ∈ xs → g a ≡ m a)
      → Chain m owner p xs
      → Chain g owner p xs
  agree same nil = nil
  agree same (cons {p} {v = v} e out c) =
      let here = same p (ground arith) in
      cons {v = v} (ground arith) out (agree (λ a i. same a (ground arith)) c)

  pub not-mem_of_none :
      {owner p : Ptr} {xs : Cells} (a : Ptr) → Chain m owner p xs → m a ≡ none → a ∉ xs
  not-mem_of_none a nil unused = refl
  not-mem_of_none a (cons e out s) unused = ground (arith, not-mem_of_none a s unused)
