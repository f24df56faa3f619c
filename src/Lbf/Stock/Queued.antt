-- ===== src/Lbf/Stock/Queued.antt =====
-- The packets that are in the queues of lbf/src/linux/sch_lbf.c.
use new_ip_linux.Common.{◌≡◌, refl, sym, inl, inr, ◌⊎◌, [], ◌∷◌, ◌++◌, All}
use mathlib.Core.Path.{subst}
use new_ip_linux.Lbf.Store.{Ptr}
use new_ip_linux.Lbf.Queue.Chain.{Packet, Cells}
use new_ip_linux.Lbf.Stock.{Stock}
use new_ip_linux.Lbf.Stock.Heads.{Leads}
use new_ip_linux.Lbf.Stock.Shrunk.{Shrunk}

abbrev pub InQueue : Ptr × Packet → Cells → Type 0
InQueue c [] = ⊥
InQueue c (x ∷ xs) = (x ≡ c) ⊎ InQueue c xs

-- The packet is in one of the queues.
abbrev pub IsQueued : Ptr × Packet → Stock → Type 0
IsQueued c [] = ⊥
IsQueued c (x ∷ st) = InQueue c x.packets ⊎ IsQueued c st

pub Leads-IsQueued : (r : Ptr) (v : Packet) (st : Stock) → Leads r v st → IsQueued (r, v) st
Leads-IsQueued r v [] l = absurd l
Leads-IsQueued r v (x ∷ st) (inl (xs, e)) = inl (subst (λ ys. InQueue (r, v) ys) (sym e) (inl refl))
Leads-IsQueued r v (x ∷ st) (inr l) = inr (Leads-IsQueued r v st l)

InQueue-append : (c : Ptr × Packet) (zs ys : Cells) → InQueue c ys → InQueue c (zs ++ ys)
InQueue-append c [] ys i = i
InQueue-append c (z ∷ zs) ys i = inr (InQueue-append c zs ys i)

-- What is queued now was queued before some heads were taken off.
pub Shrunk-IsQueued :
    (c : Ptr × Packet) (st st' : Stock) → Shrunk st st' → IsQueued c st' → IsQueued c st
Shrunk-IsQueued c [] [] h i = i
Shrunk-IsQueued c [] (y ∷ st') h i = absurd h
Shrunk-IsQueued c (x ∷ st) [] h i = absurd h
Shrunk-IsQueued c (x ∷ st) (y ∷ st') (e, f, (zs, is), h) (inl i) =
    inl (subst (λ ys. InQueue c ys) (sym is) (InQueue-append c zs y.packets i))
Shrunk-IsQueued c (x ∷ st) (y ∷ st') (e, f, s, h) (inr i) = inr (Shrunk-IsQueued c st st' h i)

InQueue-All :
    (P : Ptr × Packet → Type 0) (c : Ptr × Packet) (xs : Cells) → All P xs → InQueue c xs → P c
InQueue-All P c [] h i = absurd i
InQueue-All P c (x ∷ xs) h (inl e) = subst P e (h.0)
InQueue-All P c (x ∷ xs) h (inr i) = InQueue-All P c xs (h.1) i

pub IsQueued-All :
    (P : Ptr × Packet → Type 0) (c : Ptr × Packet) (st : Stock)
    → All (λ x. All P x.packets) st
    → IsQueued c st
    → P c
IsQueued-All P c [] h i = absurd i
IsQueued-All P c (x ∷ st) h (inl i) = InQueue-All P c x.packets (h.0) i
IsQueued-All P c (x ∷ st) h (inr i) = IsQueued-All P c st (h.1) i
