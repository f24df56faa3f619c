-- ===== src/Lbf/Search/Expired.antt =====
-- What the inner loops of `search_now_pnode` and `search_next_pnode` of lbf/src/linux/sch_lbf.c do to
-- a queue with expired packets at its head, in a hnode with no hnode before it.
use new_ip_linux.Common.{
  ℕ, ◌≡◌, ◌≢◌, refl, ◌∙◌, sym, ◌∉◌, ◌∈◌, inl, inr, Bool, Bool-cases, ==_iff, true, false, Option,
  none, [], ◌∷◌, arith, leb, ◌&&◌, ◌==◌, if◌then◌else◌, All,
}
use mathlib.Core.Path.{subst}
use new_ip_linux.Lbf.Store.{Ptr, null, Hnode, State, ok, Cmd, At}
use new_ip_linux.Lbf.Store.Access.{load_hnode-At}
use new_ip_linux.Lbf.Store.Returns.{Returns, mono}
use new_ip_linux.Lbf.Queue.Chain.{Packet, node, Pnodes, Cells, SameOutside, Chain}
use new_ip_linux.Lbf.Queue.Insert.{WithQueue, unchanged}
use new_ip_linux.Lbf.Queue.Remove.{Removed}
use new_ip_linux.Lbf.Stock.{head_of, Chain-head_of, Within}
use new_ip_linux.Lbf.Search.{is_expired, step_back}

-- The packets that a walk drops, from the head of a queue on, and the rest of the queue.
module _ (gone : Packet → Bool) where
  unfoldable pub dropped : Cells → Cells
  dropped [] = []
  dropped (x ∷ xs) = let rest = dropped xs in if gone (x.1) then x ∷ rest else []

  unfoldable pub kept : Cells → Cells
  kept [] = []
  kept (x ∷ xs) = let rest = kept xs in if gone (x.1) then rest else x ∷ xs

  pub kept-Within : (xs : Cells) → Within (kept xs) xs
  unfolding kept
  kept-Within [] a i = i
  kept-Within (x ∷ xs) a i = elim (Bool-cases (gone (x.1))) [
    | inl y ↦ let j : a ∈ xs = kept-Within xs a (rw y at i) in ground (arith, j)
    | inr n ↦ rw n at i
  ]

-- `search_now_pnode` drops a packet that may leave and has expired, `search_next_pnode` one that has
-- expired.
abbrev pub drops : (now hops : ℕ) → Packet → Bool
drops now hops v = leb v.tmin_nsec now && is_expired now hops (node v null null)

abbrev pub expires : (now hops : ℕ) → Packet → Bool
expires now hops v = is_expired now hops (node v null null)

-- What a loop leaves of a queue: the dropped packets are freed, the rest is in the queue of the
-- hnode, and nothing else is changed; the result is that for the rest.
abbrev pub Scanned :
    {R : Type 0} (gone : Packet → Bool) (result : Cells → R) (s : State) (hnode : Ptr) (h : Hnode)
    (xs : Cells)
    → R
    → State
    → Type 0
Scanned gone result s hnode h xs found s' =
    (g : Pnodes) × (hs : Ptr → Option Hnode) × (q : Ptr) × (s'
      ≡ record s { pnodes = g; hnodes = hs })
    × (found ≡ result (kept gone xs))
    × Chain g hnode q (kept gone xs)
    × All (λ x. g (x.0) ≡ none) (dropped gone xs)
    × SameOutside xs s.pnodes g
    × WithQueue s.hnodes hs hnode h q

pub step_back-stays :
    (s : State) {hnode : Ptr} {h : Hnode} (q : Ptr)
    → At s.hnodes hnode h
    → h.prev_hnode ≡ null
    → step_back hnode q s ≡ ok hnode s
unfolding step_back
step_back-stays s q at first = elim (Bool-cases (q == null)) [
  | inl y ↦ rw (y, load_hnode-At s at) (simp first refl)
  | inr n ↦ rw n refl
]

module _ {R : Type 0} (gone : Packet → Bool) (result : Cells → R) (hnode : Ptr) where
  -- A packet at the head that is not dropped.
  pub Scanned-stays :
      (s : State) {h : Hnode} {p : Ptr} (v : Packet) {xs : Cells} (found : R)
      → gone v ≡ false
      → Chain s.pnodes hnode p ((p, v) ∷ xs)
      → At s.hnodes hnode h
      → h.queue ≡ p
      → found ≡ result ((p, v) ∷ xs)
      → Scanned gone result s hnode h ((p, v) ∷ xs) found s
  unfolding kept dropped
  Scanned-stays s {h = h} {p = p} v found d c at here f =
      rw d (s.pnodes, s.hnodes, p, refl, f, c, tt, (λ a o. refl), unchanged {h = h} at here)

  -- A packet at the head that is dropped, and then the rest of the loop.
  Scanned-after :
      (s s' : State) (h : Hnode) (p : Ptr) (v : Packet) (xs : Cells) (found : R) (g : Pnodes)
      (hs : Ptr → Option Hnode) (q : Ptr)
      → gone v ≡ true
      → p ∉ xs
      → g p ≡ none
      → SameOutside ((p, v) ∷ xs) s.pnodes g
      → WithQueue s.hnodes hs hnode h q
      → Scanned gone result
          (record s { pnodes = g; hnodes = hs })
          hnode
          (record h { queue = q })
          xs
          found
          s'
      → Scanned gone result s hnode h ((p, v) ∷ xs) found s'
  unfolding kept dropped
  Scanned-after s s' h p v xs found g hs q d out freed same wq (g', hs', q', e, f, c, fr, so, wq') =
      rw d (
        g',
        hs',
        q',
        e,
        f,
        c,
        (so p out ∙ freed, fr),
        (λ a o. so a (ground arith) ∙ same a o),
        (λ a. elim (Bool-cases (a == hnode)) [
          | inl y ↦ wq' a ∙ (rw y refl)
          | inr n ↦ wq' a ∙ (rw n (wq a ∙ (rw n refl)))
        ]),
      )

  -- The loop from the second packet on, once the first has been removed.
  pub scan-Removed :
      (run : Ptr → Cmd R) (s s₁ : State) (h : Hnode) (p q : Ptr) (v : Packet) (xs : Cells)
      → gone v ≡ true
      → p ∉ xs
      → q ≡ head_of xs
      → hnode ≢ null
      → Removed s hnode h (p, v) xs tt s₁
      → ((g : Pnodes) (hs : Ptr → Option Hnode)
          → Chain g hnode q xs
          → At hs hnode (record h { queue = q })
          → Returns
              (Scanned gone result
                (record s { pnodes = g; hnodes = hs })
                hnode
                (record h { queue = q })
                xs)
              (run q (record s { pnodes = g; hnodes = hs })))
      → Returns (Scanned gone result s hnode h ((p, v) ∷ xs)) (run q s₁)
  scan-Removed run s s₁ h p q v xs d out hq ne (g, hs, q', e, c, freed, same, wq) ih =
      let eq : q' ≡ q = Chain-head_of c ∙ sym hq in
      let c' : Chain g hnode q xs = subst (λ x. Chain g hnode x xs) eq c in
      let wq' : WithQueue s.hnodes hs hnode h q =
        subst (λ x. WithQueue s.hnodes hs hnode h x) eq wq in
      let itself : (hnode == hnode) ≡ true = (==_iff hnode hnode).1 refl in
      rw e (
        mono (ih g hs c' (record { ne_null = ne; holds = wq' hnode ∙ (rw itself refl) }))
          (λ found s' r. Scanned-after s s' h p v xs found g hs q d out freed same wq' r))
