-- ===== src/Lbf/Ranges/Get.antt =====
-- `lbf_get_hnode` of lbf/src/linux/sch_lbf.c.
use mathlib.Core.List.{Perm}
use mathlib.Core.Path.{subst}
use new_ip_linux.Common.{
  ◌∉◌, ℕ, zero, suc, ◌+◌, ◌%◌, ◌<◌, ◌≤◌, ◌≡◌, ◌≢◌, refl, inl, inr, ◌⊎◌, Option-cases, Bool-cases,
  false, none, some, [], ◌∷◌, arith, ltb, ◌==◌, length,
}
use new_ip_linux.Lbf.Store.{Ptr, null, Hnode, HnodeHead, Kernel, State, ok, At, write}
use new_ip_linux.Lbf.Store.Access.{not_null, At-write}
use new_ip_linux.Lbf.Store.Returns
use new_ip_linux.Lbf.Store.Returns.{Returns, returns}
use new_ip_linux.Lbf.Ranges.{new_hnode, ensure_list, get_hnode, lqb_range}
use new_ip_linux.Lbf.Ranges.Order.{
  Cells, lookup, insert, IsSorted, insert-IsSorted, insert-perm, lookup_last, new_hnode-holds,
  lookup-some,
}
use new_ip_linux.Lbf.Ranges.Line.{
  Hnodes, linked, Line, nil, cons, with_hnode, load_list-some, count_hnode-some, create_hnode-ok,
  not-mem_of_none,
}
use new_ip_linux.Lbf.Ranges.Find.{fresh, Added, find_hnode-lookup, find_hnode-head}

module _ (kernel : Kernel) (b k : ℕ) (s : State) (l : HnodeHead)
    (here : s.sched.hnode_list ≡ some l) where
  pub ensure_list-some : ensure_list kernel s ≡ ok tt s
  unfolding ensure_list
  ensure_list-some = ground (arith, here)

  pub get_hnode-from_lookup :
      {p r : Ptr} {xs : Cells}
      → l.head ≡ p
      → Line s.hnodes p xs
      → lookup b xs ≡ some r
      → length xs < k
      → get_hnode kernel k b s ≡ ok r s
  unfolding get_hnode
  get_hnode-from_lookup first nil e fuel = unfold lookup in cc
  get_hnode-from_lookup {p} first (cons at out c) e fuel =
      rw (ensure_list-some, load_list-some s l here, first, not_null at)
        (find_hnode-lookup kernel b k s p (cons at out c) e fuel)

  pub get_hnode-from_insert :
      (k : ℕ) {p : Ptr} {xs : Cells}
      → l.head ≡ p
      → Line s.hnodes p xs
      → fresh kernel b s ≢ null
      → fresh kernel b s ∉ xs
      → lookup b xs ≡ none
      → length xs < k
      → Returns (Added kernel b s l xs) (get_hnode kernel k b s)
  unfolding get_hnode insert
  get_hnode-from_insert k first nil got unused miss fuel =
      let there : (kernel.alloc s.calls == null) ≡ false = ground arith in
      let s1 : State = with_hnode kernel s (new_hnode b l.len) in
      rw
        (
          ensure_list-some,
          load_list-some s l here,
          first,
          create_hnode-ok kernel s b l.len got,
          there,
          count_hnode-some s1 l here,
        )
        (returns (
          s1.hnodes,
          kernel.alloc s.calls,
          refl,
          refl,
          cons {v = new_hnode b l.len} (At-write s.hnodes _ _ got) refl nil,
          unfold write in ground arith,
        ))
  get_hnode-from_insert zero first (cons at out c) got unused miss fuel = absurd (omega arith)
  get_hnode-from_insert (suc k) {p} first (cons {v} at out c) got unused miss fuel =
      rw (ensure_list-some, load_list-some s l here, first, not_null at)
        (find_hnode-head kernel b s l here got k v first at out c unused miss (omega arith))

-- The hnodes of a state: the list `xs`, reached from the head that `l` holds.
pub record HasHnodes (s : State) (l : HnodeHead) (xs : Cells) : Type 0 where
  pub here : s.sched.hnode_list ≡ some l
  pub line : Line s.hnodes l.head xs
  pub sorted : IsSorted xs

-- What `lbf_get_hnode` promises of the hnode `r` that it returns: it is in the list, its range holds
-- the budget, and the list is as it was or has this one more.
abbrev pub Serves :
    (kernel : Kernel) (b : ℕ) (s : State) (l : HnodeHead) (xs : Cells) → Ptr → State → Type 0
Serves kernel b s l xs r s' =
    (v : Hnode) × (l' : HnodeHead) × (ys : Cells) × At s'.hnodes r v
    × (v.range_start ≤ b)
    × (b ≤ v.range_end)
    × HasHnodes s' l' ys
    × ((s' ≡ s) × (ys ≡ xs)
        ⊎ (r ≡ kernel.alloc s.calls) × Perm ys ((r, new_hnode b l.len) ∷ xs) × (l'.len ≡ l.len + 1))

-- The list has one hnode more, and it is the one that is returned.
abbrev pub Allocates :
    (kernel : Kernel) (b : ℕ) (s : State) (l : HnodeHead) (xs : Cells) → Ptr → State → Type 0
Allocates kernel b s l xs r s' =
    (r ≡ kernel.alloc s.calls)
    × ((l' : HnodeHead) × (ys : Cells) × HasHnodes s' l' ys × Perm ys ((r, new_hnode b l.len) ∷ xs))

lookup-At :
    (m : Hnodes) (b : ℕ) {p r : Ptr} {xs : Cells}
    → Line m p xs
    → lookup b xs ≡ some r
    → (v : Hnode) × At m r v × (v.range_start ≤ b) × (b ≤ v.range_end)
lookup-At m b nil e = unfold lookup in cc
lookup-At m b {r} (cons {p} {q} {v} {xs} at out c) e = elim (lookup-some b p r v xs e) [
  | inl (hit, is) ↦ (linked v q, subst (λ a. At m a (linked v q)) is at, ground arith, ground arith)
  | inr (past, next, rest) ↦ lookup-At m b c rest
]

Line-cons :
    {m : Hnodes} {p : Ptr} {x : Ptr × Hnode} {xs : Cells}
    → Line m p (x ∷ xs)
    → (q : Ptr) × At m (x.0) (linked (x.1) q) × Line m q xs
Line-cons (cons {q} at out c) = (q, at, c)

Line-insert :
    (m : Hnodes) (b : ℕ) (c : Ptr × Hnode) (xs : Cells) (p : Ptr)
    → Line m p (insert b c xs)
    → (q : Ptr) × At m (c.0) (linked (c.1) q)
unfolding insert
Line-insert m b c [] p line = let (q, at, rest) = Line-cons line in (q, at)
Line-insert m b c (x ∷ xs) p line = elim (Bool-cases (ltb b (x.1).range_start)) [
  | inl hit ↦ let (q, at, rest) = Line-cons (rw hit at line) in (q, at)
  | inr miss ↦ let (q, at, rest) = Line-cons (rw miss at line) in Line-insert m b c xs q rest
]

module _ (kernel : Kernel) (b k : ℕ) {s : State} {l : HnodeHead} {xs : Cells}
    (has : HasHnodes s l xs) (got : kernel.alloc s.calls ≢ null)
    (unused : s.hnodes (kernel.alloc s.calls) ≡ none) (fuel : length xs < k) where
  Added-Serves : (r : Ptr) (s' : State) → Added kernel b s l xs r s' → Serves kernel b s l xs r s'
  Added-Serves r s' (g, p, is, same_rest, line, same) =
      let (q, at) = Line-insert g b (kernel.alloc s.calls, new_hnode b l.len) xs p line in
      let hold = new_hnode-holds b l.len in
      rw (same_rest, is)
        (
          linked (new_hnode b l.len) q,
          record l { head = p; len = l.len + 1 },
          _,
          at,
          hold.0,
          hold.1,
          record { here = refl; line = line; sorted = insert-IsSorted b l.len _ xs has.sorted },
          inr (refl, insert-perm b _ xs, refl),
        )

  -- `lbf_get_hnode`, given memory for an hnode that is not in use, and more fuel than hnodes, faults
  -- nowhere and returns an hnode whose range holds the budget. The list of hnodes is sorted by the
  -- start of the ranges again; it is the old list, or has the returned hnode as one more.
  pub get_hnode-Serves : Returns (Serves kernel b s l xs) (get_hnode kernel k b s)
  get_hnode-Serves = elim (Option-cases (lookup b xs)) [
    | inl miss ↦
        Returns.mono
          (get_hnode-from_insert kernel b k s l has.here k refl has.line got
            (not-mem_of_none _ has.line unused) miss fuel)
          Added-Serves
    | inr (r, e) ↦
        let (v, at, lo, hi) = lookup-At s.hnodes b has.line e in
        rw (get_hnode-from_lookup kernel b k s l has.here refl has.line e fuel)
          (returns (v, l, xs, at, lo, hi, has, inl (refl, refl)))
  ]

  -- A budget that is the last of a range is never served by an hnode that is there: the list of
  -- hnodes grows by one with each such packet.
  pub get_hnode_last :
      b % lqb_range ≡ 9 → Returns (Allocates kernel b s l xs) (get_hnode kernel k b s)
  get_hnode_last last =
      Returns.mono
        (get_hnode-from_insert kernel b k s l has.here k refl has.line got
          (not-mem_of_none _ has.line unused) (lookup_last b xs has.sorted last) fuel)
        λ r s' (g, p, is, same_rest, line, same).
          rw (same_rest, is)
            (
              refl,
              (
                record l { head = p; len = l.len + 1 },
                _,
                record {
                  here = refl;
                  line = line;
                  sorted = insert-IsSorted b l.len _ xs has.sorted;
                },
                insert-perm b _ xs,
              ),
            )
