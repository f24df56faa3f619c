-- ===== src/Lbf/Search/Keeps.antt =====
-- What the walks of lbf/src/linux/sch_lbf.c keep of the queues.
use new_ip_linux.Common.{
  ℕ, ◌≡◌, refl, ◌∙◌, sym, ap, Bool, Bool-cases, inl, inr, ◌⊎◌, true, false, [], ◌∷◌, ◌++◌,
  if◌then◌else◌, if_cases, leb,
}
use mathlib.Core.Path.{subst}
use new_ip_linux.Lbf.Store.{Ptr, null}
use new_ip_linux.Lbf.Queue.Chain.{Packet, Cells}
use new_ip_linux.Lbf.Stock.{Shelf, Stock, head_of}
use new_ip_linux.Lbf.Stock.Heads.{Leads}
use new_ip_linux.Lbf.Stock.Shrunk.{Shrunk, Shrunk-refl}
use new_ip_linux.Lbf.Search.Expired.{dropped, kept, drops}
use new_ip_linux.Lbf.Search.Leaves.{left_of, left}
use new_ip_linux.Lbf.Search.Walk.{starts_due, sent}

-- The packets that are taken off a queue stood at its head.
pub dropped-kept : (gone : Packet → Bool) (xs : Cells) → xs ≡ dropped gone xs ++ kept gone xs
unfolding dropped kept
dropped-kept gone [] = refl
dropped-kept gone (x ∷ xs) = elim (Bool-cases (gone (x.1))) [
  | inl y ↦ rw y (ap (λ c. x ∷ c) (dropped-kept gone xs))
  | inr n ↦ rw n refl
]

module _ (gone : Packet → Bool) (stops : Cells → Bool) where
  pub left-Shrunk : (st : Stock) → Shrunk st (left gone stops st)
  left-Shrunk [] = tt
  left-Shrunk (x ∷ st) = (
    refl,
    refl,
    (dropped gone x.packets, dropped-kept gone x.packets),
    if_cases (λ (z : Stock). Shrunk st z) (stops (kept gone x.packets)) st (left gone stops st)
        (λ y. Shrunk-refl st) (λ n. left-Shrunk st),
  )

  -- A first packet that is not dropped is still one.
  pub Leads-left :
      (r : Ptr) (v : Packet) (st : Stock)
      → gone v ≡ false
      → Leads r v st
      → Leads r v (left gone stops st)
  unfolding kept
  Leads-left r v [] stays l = absurd l
  Leads-left r v (x ∷ st) stays (inl (xs, e)) = inl (xs, rw (e, stays) refl)
  Leads-left r v (x ∷ st) stays (inr l) = inr (
      if_cases (λ (z : Stock). Leads r v z) (stops (kept gone x.packets)) st (left gone stops st)
        (λ y. l) (λ n. Leads-left r v st stays l))

starts_due-first :
    (now : ℕ) (ys : Cells)
    → starts_due now ys ≡ true
    → (c : Ptr × Packet) × (xs : Cells) × (ys ≡ c ∷ xs) × (leb ((c.1).tmin_nsec) now ≡ true)
starts_due-first now [] e = cc
starts_due-first now (y ∷ ys) e = (y, ys, refl, e)

-- `r` is the first packet of a queue and may leave, or there is none.
abbrev pub Due : (now : ℕ) (r : Ptr) → Stock → Type 0
Due now r st = (r ≡ null) ⊎ ((v : Packet) × Leads r v st × (leb v.tmin_nsec now ≡ true))

Due-cons : (now : ℕ) (r : Ptr) (x : Shelf) (st : Stock) → Due now r st → Due now r (x ∷ st)
Due-cons now r x st (inl z) = inl z
Due-cons now r x st (inr (v, l, due)) = inr (v, inr l, due)

-- The packet to send is the first of a queue that is left, and may leave; or there is none.
pub sent-Due :
    (now hops : ℕ) (st : Stock)
    → Due now (sent now hops st) (left (drops now hops) (starts_due now) st)
sent-Due now hops [] = inl refl
sent-Due now hops (x ∷ st) =
    let gone = drops now hops in
    let stops = starts_due now in
    let ys : Cells = kept gone x.packets in
    let both = λ (b : Bool).
      Due now (if b then head_of ys else sent now hops st)
        (left_of gone x ∷ (if b then st else left gone stops st)) in
    elim (Bool-cases (stops ys)) [
      | inl y ↦
          let (c, xs, e, due) = starts_due-first now ys y in
          subst both (sym y)
            (inr (c.1, inl (xs, e ∙ ap (λ a. (a, c.1) ∷ xs) (sym (ap (λ zs. head_of zs) e))), due))
      | inr n ↦ subst both (sym n) (
          Due-cons now (sent now hops st) (left_of gone x) (left gone stops st)
            (sent-Due now hops st))
    ]
