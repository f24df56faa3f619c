-- ===== src/Lbf/Queue/Remove.antt =====
-- `remove_pnode` of lbf/src/linux/sch_lbf.c on the first packet of a queue, and on any other.
use new_ip_linux.Common.{◌∉◌, ◌≡◌, ◌≢◌, refl, Option, none, some, ◌∷◌, arith}
use new_ip_linux.Lbf.Store.{Ptr, null, Hnode, Pnode, At, State, write, read, fault}
use new_ip_linux.Lbf.Store.Access.{
  not_null, load_hnode, load_hnode-At, update_hnode-At, load_pnode-At, update_pnode-At,
  free_pnode-At, At-write, At-write_ne,
}
use new_ip_linux.Lbf.Store.Returns.{Returns, returns}
use new_ip_linux.Lbf.Queue.{remove_pnode}
use new_ip_linux.Lbf.Queue.Chain.{
  Packet, node, Pnodes, Cells, SameOutside, Points, Chain, nil, cons, agree,
}
use new_ip_linux.Lbf.Queue.Insert.{WithQueue}

-- A pnode that points back to no hnode cannot be removed: `pnode->hnode` is NULL and is followed.
pub remove_pnode-orphan :
    (s : State) {p : Ptr} {n : Pnode} → At s.pnodes p n → n.hnode ≡ null → remove_pnode p s ≡ fault
unfolding remove_pnode load_hnode read
remove_pnode-orphan s e orphan = rw (load_pnode-At s e, orphan) refl

-- What is left of a queue behind its first packet `c`, which is freed.
abbrev pub Removed :
    (s : State) (hnode : Ptr) (h : Hnode) (c : Ptr × Packet) (xs : Cells)
    → Unit {0}
    → State
    → Type 0
Removed s hnode h c xs _ s' =
    (g : Pnodes) × (hs : Ptr → Option Hnode) × (q : Ptr) × (s'
      ≡ record s { pnodes = g; hnodes = hs })
    × Chain g hnode q xs
    × (g (c.0) ≡ none)
    × SameOutside (c ∷ xs) s.pnodes g
    × WithQueue s.hnodes hs hnode h q

module _ (s : State) (hnode : Ptr) (h : Hnode) where
  -- The hnodes when `hnode->queue` has been stored.
  abbrev queued : Ptr → Ptr → Option Hnode
  queued q = write s.hnodes hnode (some (record h { queue = q }))

  queued-WithQueue : (q : Ptr) → WithQueue s.hnodes (queued q) hnode h q
  unfolding write
  queued-WithQueue q a = refl

module _ (s : State) {hnode p : Ptr} (h : Hnode) {v : Packet} (at : At s.hnodes hnode h)
    (first : h.prev_hnode ≡ null) where
  -- `remove_pnode` of the first packet of a queue, in a hnode with no hnode before it: it faults
  -- nowhere, frees the pnode, and leaves the linked list of the packets behind it, whose first, if
  -- there is one, now points back to the hnode. No other object is changed.
  pub remove_pnode-first :
      {q : Ptr} {xs : Cells}
      → Points s.pnodes p v q hnode
      → p ∉ xs
      → Chain s.pnodes null q xs
      → Returns (Removed s hnode h (p, v) xs) (remove_pnode p s)
  unfolding remove_pnode write
  remove_pnode-first e out nil =
      let s1 : State = record s { hnodes = queued s hnode h null } in
      rw (load_pnode-At s e, load_hnode-At s at)
        (simp first (
          rw (update_hnode-At s at (λ h. record h { queue = null }), free_pnode-At s1 e)
            (returns (
              write s.pnodes p none,
              queued s hnode h null,
              null,
              refl,
              nil,
              ground arith,
              (λ a o. ground arith),
              queued-WithQueue s hnode h null,
            ))))
  remove_pnode-first e out (cons {p = q} {q = r} {v = w} e' out' c) =
      let other : p ≢ q = ground arith in
      let s1 : State = record s { hnodes = queued s hnode h q } in
      let moved : Pnodes = write s.pnodes q (some (node w r hnode)) in
      let s2 : State = record s1 { pnodes = moved } in
      let e1 : Points moved p v q hnode = At-write_ne q _ e other in
      let g : Pnodes = write moved p none in
      let e2 : Points g q w r hnode =
        At-write_ne p none (At-write s.pnodes q _ e'.ne_null) (ground arith) in
      rw
        (
          load_pnode-At s e,
          load_hnode-At s at,
          not_null e',
          update_hnode-At s at (λ h. record h { queue = q }),
          update_pnode-At s1 e' (λ n. record n { hnode = hnode }),
          free_pnode-At s2 e1,
        )
        (returns (
          g,
          queued s hnode h q,
          q,
          refl,
          cons {v = w} e2 out' (agree (ground arith) c),
          ground arith,
          (λ a o. ground arith),
          queued-WithQueue s hnode h q,
        ))
