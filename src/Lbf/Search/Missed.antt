-- ===== src/Lbf/Search/Missed.antt =====
-- What it means that `search_now_pnode` of lbf/src/linux/sch_lbf.c finds no packet.
use new_ip_linux.Common.{
  ℕ, ◌≤◌, ◌≡◌, ◌≢◌, sym, Bool-cases, inl, inr, ◌∈◌, true, false, [], ◌∷◌, arith, ◌==◌, ==_iff, leb,
}
use mathlib.Core.Path.{subst}
use new_ip_linux.Lbf.Store.{Ptr, null}
use new_ip_linux.Lbf.Queue.Chain.{Packet, Cells, Pnodes, Chain, nil, cons}
use new_ip_linux.Lbf.Ranges.Line.{Hnodes}
use new_ip_linux.Lbf.Stock.{Stock, head_of, Stocked, Stocked-Opened}
use new_ip_linux.Lbf.Stock.Heads.{Leads}
use new_ip_linux.Lbf.Search.Expired.{kept, kept-Within, drops, expires}
use new_ip_linux.Lbf.Search.Walk.{starts_due, sent}

-- Every packet that is the first of a queue and may leave has expired on the last hop.
abbrev pub AllGone : (now hops : ℕ) → Stock → Type 0
AllGone now hops st =
    (a : Ptr) (v : Packet) → Leads a v st → v.tmin_nsec ≤ now → expires now hops v ≡ true

Chain-ne_null : {m : Pnodes} {o p : Ptr} {xs : Cells} (a : Ptr) → Chain m o p xs → a ∈ xs → a ≢ null
Chain-ne_null a nil i = ground (arith, i)
Chain-ne_null a (cons {p = p} e out c) i = elim (Bool-cases (a == p)) [
  | inl y ↦ subst (λ b. b ≢ null) (sym ((==_iff a p).0 y)) e.ne_null
  | inr n ↦ Chain-ne_null a c (ground (arith, i, n))
]

starts_due-ne_null :
    {m : Pnodes} {o p : Ptr} (now hops : ℕ) (xs ys : Cells)
    → Chain m o p xs
    → ((a : Ptr) → a ∈ ys → a ∈ xs)
    → starts_due now ys ≡ true
    → head_of ys ≢ null
starts_due-ne_null now hops xs [] c sub e = cc
starts_due-ne_null now hops xs (y ∷ ys) c sub e = Chain-ne_null (y.0) c (sub (y.0) (ground arith))

-- A first packet that may leave and has not expired is not dropped.
kept-live :
    (now hops : ℕ) (a : Ptr) (v : Packet) (xs : Cells)
    → v.tmin_nsec ≤ now
    → expires now hops v ≡ false
    → starts_due now (kept (drops now hops) ((a, v) ∷ xs)) ≡ true
unfolding kept
kept-live now hops a v xs due live =
    let d : leb v.tmin_nsec now ≡ true = ground arith in rw (d, live) d

pub sent-AllGone :
    (hs : Hnodes) (m : Pnodes) (now hops : ℕ) (p : Ptr) (st : Stock)
    → Stocked hs m p st
    → sent now hops st ≡ null
    → AllGone now hops st
sent-AllGone hs m now hops p [] s e a v l due = absurd l
sent-AllGone hs m now hops p (x ∷ st) s e a v l due =
    let o = Stocked-Opened x st s in
    let ys : Cells = kept (drops now hops) x.packets in
    elim (Bool-cases (starts_due now ys)) [
      | inl y ↦ absurd (
          starts_due-ne_null now hops x.packets ys o.chain (kept-Within (drops now hops) x.packets)
            y (rw y at e))
      | inr n ↦ elim l [
        | inr later ↦ sent-AllGone hs m now hops o.next st o.rest (rw n at e) a v later due
        | inl (xs, is) ↦ elim (Bool-cases (expires now hops v)) [
          | inl gone ↦ gone
          | inr live ↦
              let yes_due = kept-live now hops a v xs due live in
              let no_due : starts_due now (kept (drops now hops) ((a, v) ∷ xs)) ≡ false =
                subst (λ zs. starts_due now (kept (drops now hops) zs) ≡ false) is n in
              cc
        ]
      ]
    ]
