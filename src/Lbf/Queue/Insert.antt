-- ===== src/Lbf/Queue/Insert.antt =====
-- The loop of `pnode_queue_add` inserts a packet in the linked list of a queue.
use new_ip_linux.Common.{
  ◌∉◌, ℕ, zero, suc, ◌<◌, ◌≡◌, refl, inl, inr, true, false, Option, some, ◌∷◌, arith, ltb, ◌==◌,
  if◌then◌else◌, Bool-cases, length,
}
use new_ip_linux.Lbf.Store.{Ptr, null, Hnode, At, State, write}
use new_ip_linux.Lbf.Store.Access.{
  not_null, load_hnode-At, update_hnode-At, load_pnode-At, update_pnode-At,
}
use new_ip_linux.Lbf.Store.Returns
use new_ip_linux.Lbf.Store.Returns.{Returns, returns}
use new_ip_linux.Lbf.Queue.{insert_pnode, enqueue_pnode}
use new_ip_linux.Lbf.Queue.Order.{insert, is_key-insert}
use new_ip_linux.Lbf.Queue.Chain.{
  Packet, node, Pnodes, Cells, SameOutside, Points, Chain, nil, cons, agree,
}

-- A run that changes only pnodes, and leaves the queue `ys` at `p`.
abbrev Queued : (s : State) (owner p : Ptr) (xs ys : Cells) → Unit {0} → State → Type 0
Queued s owner p xs ys _ s' =
    (g : Pnodes) × (s' ≡ record s { pnodes = g }) × Chain g owner p ys × SameOutside xs s.pnodes g

module _ (hnode my : Ptr) (v : Packet) where
  insert_pnode-behind :
      (k : ℕ) (s : State) {prev curr o : Ptr} {u : Packet} {xs : Cells}
      → Points s.pnodes prev u curr o
      → prev ∉ xs
      → Chain s.pnodes null curr xs
      → Points s.pnodes my v null null
      → my ∉ (prev, u) ∷ xs
      → length xs < k
      → Returns
          (Queued s o prev ((my, v) ∷ (prev, u) ∷ xs) ((prev, u) ∷ insert (my, v) xs))
          (insert_pnode k hnode my v.tmin_nsec prev curr s)
  unfolding insert_pnode insert write
  insert_pnode-behind zero s e out c mine new fuel = absurd (omega arith)
  insert_pnode-behind (suc k) s {prev} e out nil mine new fuel = rw (update_pnode-At s e) (
      returns
        (_, refl, cons (ground arith) (ground arith) (cons (ground arith) refl nil), ground arith))
  insert_pnode-behind (suc k) s {prev} {o} {u} e out (cons {p} {q} {v = w} {xs} e' out' c) mine new
        fuel =
      let apart : (prev == p) ≡ false = ground arith in
      let linked : Pnodes = write s.pnodes prev (some (node u my o)) in
      let still : Points linked my v null null = ground arith in
      rw (not_null e', load_pnode-At s e')
        (elim (Bool-cases (ltb v.tmin_nsec w.tmin_nsec)) [
          | inl hit ↦
              rw
                (
                  hit,
                  apart,
                  update_pnode-At s e,
                  update_pnode-At (record s { pnodes = linked }) still,
                )
                (returns (
                  _,
                  refl,
                  cons (ground arith) (ground arith)
                      (cons (ground arith) (ground arith) (agree (ground arith) (cons e' out' c))),
                  ground arith,
                ))
          | inr miss ↦ rw miss (
              Returns.mono (insert_pnode-behind k s e' out' c mine (ground arith) (omega arith))
                λ _ s' (g, same_rest, chain, same). (
                  g,
                  same_rest,
                  cons (ground (arith, same prev)) (ground (arith, is_key-insert prev (my, v) xs))
                      chain,
                  λ a i. same a (ground arith),
                ))
        ])

-- Hnodes that differ from those of `m` in the queue of one, which is `h`.
abbrev pub WithQueue : (m g : Ptr → Option Hnode) (hnode : Ptr) (h : Hnode) (q : Ptr) → Type 0
WithQueue m g hnode h q =
    (a : Ptr) → g a ≡ (if a == hnode then some (record h { queue = q }) else m a)

-- What `pnode_queue_add` leaves behind: the packet in its place in the queue of the same hnode, and
-- nothing else is changed.
abbrev pub Inserted :
    (s : State) (hnode : Ptr) (h : Hnode) (c : Ptr × Packet) (xs : Cells)
    → Unit {0}
    → State
    → Type 0
Inserted s hnode h c xs _ s' =
    (g : Pnodes) × (hs : Ptr → Option Hnode) × (q : Ptr) × (s'
      ≡ record s { pnodes = g; hnodes = hs })
    × Chain g hnode q (insert c xs)
    × SameOutside (c ∷ xs) s.pnodes g
    × WithQueue s.hnodes hs hnode h q

pub unchanged :
    {m : Ptr → Option Hnode} {hnode q : Ptr} {h : Hnode}
    → At m hnode h
    → h.queue ≡ q
    → WithQueue m m hnode h q
unchanged e same a = ground arith

module _ (s : State) {hnode my : Ptr} {h : Hnode} (v : Packet) (at : At s.hnodes hnode h)
    (mine : Points s.pnodes my v null null) where
  insert_pnode-Chain :
      (k : ℕ) {p q : Ptr} {w : Packet} {xs : Cells}
      → h.queue ≡ p
      → Points s.pnodes p w q hnode
      → p ∉ xs
      → Chain s.pnodes null q xs
      → my ∉ (p, w) ∷ xs
      → length xs < k
      → Returns
          (Inserted s hnode h (my, v) ((p, w) ∷ xs))
          (insert_pnode (suc k) hnode my v.tmin_nsec p p s)
  unfolding insert_pnode insert write
  insert_pnode-Chain k {p} {q} {w} {xs} e e' out' c new fuel =
      let same : (p == p) ≡ true = ground arith in
      let g1 : Pnodes = write s.pnodes p (some (node w q null)) in
      let g2 : Pnodes = write g1 my (some (node v null hnode)) in
      let e1 : Points g1 my v null null = ground arith in
      let e2 : Points g2 my v null hnode = ground arith in
      let g3 : Pnodes = write g2 my (some (node v p hnode)) in
      let hs : Ptr → Option Hnode = write s.hnodes hnode (some (record h { queue = my })) in
      rw (not_null e', load_pnode-At s e')
        (elim (Bool-cases (ltb v.tmin_nsec w.tmin_nsec)) [
          | inl hit ↦
              let chain : Chain g3 hnode my ((my, v) ∷ (p, w) ∷ xs) =
                cons (ground arith) (ground arith)
                  (cons {v = w} (ground arith) (ground arith) (agree (ground arith) c)) in
              rw
                (
                  hit,
                  same,
                  update_hnode-At s at,
                  update_pnode-At (record s { hnodes = hs }) e',
                  update_pnode-At (record s { hnodes = hs; pnodes = g1 }) e1,
                  update_pnode-At (record s { hnodes = hs; pnodes = g2 }) e2,
                )
                (returns (_, hs, my, refl, rw hit chain, ground arith, ground arith))
          | inr miss ↦ rw miss (
              Returns.mono (insert_pnode-behind hnode my v k s e' out' c mine new fuel)
                λ _ s' (g, same_rest, chain, same).
                  (g, s.hnodes, p, same_rest, rw miss chain, same, unchanged at e))
        ])

  pub enqueue_pnode-Chain :
      (k : ℕ) {q : Ptr} {xs : Cells}
      → h.queue ≡ q
      → Chain s.pnodes hnode q xs
      → my ∉ xs
      → length xs < k
      → Returns (Inserted s hnode h (my, v) xs) (enqueue_pnode k hnode my v.tmin_nsec s)
  unfolding enqueue_pnode write insert
  enqueue_pnode-Chain k e nil new fuel =
      rw
        (
          load_hnode-At s at,
          e,
          update_pnode-At s mine,
          update_hnode-At (record s { pnodes = write s.pnodes my (some (node v null hnode)) }) at,
        )
        (returns (_, _, my, refl, cons (ground arith) refl nil, ground arith, ground arith))
  enqueue_pnode-Chain zero e (cons e' out' c) new fuel = absurd (omega arith)
  enqueue_pnode-Chain (suc k) e (cons {v = w} e' out' c) new fuel =
      rw (load_hnode-At s at, e, not_null e')
        (insert_pnode-Chain k {w = w} e e' out' c new (omega arith))
