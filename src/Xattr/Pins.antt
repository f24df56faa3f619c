-- ===== src/Xattr/Pins.antt =====
-- What the loop that opens pinned files does to the array of pinned maps.
use new_ip_linux.Common.{
  ℕ, ◌≡◌, refl, ◌∙◌, ap, ◌⊎◌, inl, inr, true, false, List, [], ◌∷◌, same_str, if_cases, All,
}
use mathlib.Core.Path.{subst}
use new_ip_linux.Host.{Objects}
use new_ip_linux.Xattr.{
  PinnedMap, Attr, is_positive, before, after_get, reuse_pin, reuse_pins, reuse_all, set_map,
}

-- A relation of the entries of two arrays, in their order.
abbrev pub Pairs : (PinnedMap → PinnedMap → Type 0) → (ps qs : List PinnedMap) → Type 0
Pairs R [] [] = Unit
Pairs R [] (q ∷ qs) = ⊥
Pairs R (p ∷ ps) [] = ⊥
Pairs R (p ∷ ps) (q ∷ qs) = R p q × Pairs R ps qs

pub Pairs-refl :
    (R : PinnedMap → PinnedMap → Type 0) (ps : List PinnedMap)
    → ((p : PinnedMap) → R p p)
    → Pairs R ps ps
Pairs-refl R [] h = tt
Pairs-refl R (p ∷ ps) h = (h p, Pairs-refl R ps h)

-- Two steps, each of its own relation.
pub Pairs-trans :
    (R S T : PinnedMap → PinnedMap → Type 0) (ps qs rs : List PinnedMap)
    → ((p q r : PinnedMap) → R p q → S q r → T p r)
    → Pairs R ps qs
    → Pairs S qs rs
    → Pairs T ps rs
Pairs-trans R S T [] [] [] t h k = tt
Pairs-trans R S T (p ∷ ps) (q ∷ qs) (r ∷ rs) t h k =
    (t p q r (h.0) (k.0), Pairs-trans R S T ps qs rs t (h.1) (k.1))
Pairs-trans R S T [] [] (r ∷ rs) t h k = absurd k
Pairs-trans R S T [] (q ∷ qs) rs t h k = absurd h
Pairs-trans R S T (p ∷ ps) [] rs t h k = absurd h
Pairs-trans R S T (p ∷ ps) (q ∷ qs) [] t h k = absurd k

module _ {W : Type 0} (objects : Objects W) where
  -- A map has another name than the entry, or the entry's file cannot be opened.
  abbrev pub NotOpened : PinnedMap → (map : ℕ) → Type 0
  NotOpened p m =
      ((w : W) × (same_str (objects.map_name m w) p.name ≡ false))
      ⊎ ((w : W) × (is_positive ((objects.obj_get p.filename w).0) ≡ false))

  -- The same map and file, with a descriptor above 0; or with the descriptor as before, and then none
  -- of the maps could be opened for it.
  abbrev pub Sought : (maps : List ℕ) → (p q : PinnedMap) → Type 0
  Sought ms p q =
      (q.name ≡ p.name)
      × (q.filename ≡ p.filename)
      × ((is_positive q.map_fd ≡ true) ⊎ ((q.map_fd ≡ p.map_fd) × All (NotOpened p) ms))

  NotOpened-same :
      (p q : PinnedMap) (ms : List ℕ)
      → q.name ≡ p.name
      → q.filename ≡ p.filename
      → All (NotOpened q) ms
      → All (NotOpened p) ms
  NotOpened-same p q [] n f h = tt
  NotOpened-same p q (m ∷ ms) n f h = (
    elim (h.0) [
      | inl (w, e) ↦ inl (w, subst (λ s. same_str (objects.map_name m w) s ≡ false) n e)
      | inr (w, e) ↦ inr (w, subst (λ s. is_positive ((objects.obj_get s w).0) ≡ false) f e)
    ],
    NotOpened-same p q ms n f (h.1),
  )

  Sought-trans :
      (m : ℕ) (ms : List ℕ) (p q r : PinnedMap)
      → Sought (m ∷ []) p q
      → Sought ms q r
      → Sought (m ∷ ms) p r
  Sought-trans m ms p q r (n, f, h) (n', f', inl y) = (n' ∙ n, f' ∙ f, inl y)
  Sought-trans m ms p q r (n, f, inl y) (n', f', inr (e, hs)) =
      (n' ∙ n, f' ∙ f, inl (ap is_positive e ∙ y))
  Sought-trans m ms p q r (n, f, inr (e, h)) (n', f', inr (e', hs)) =
      (n' ∙ n, f' ∙ f, inr (e' ∙ e, (h.0, NotOpened-same p q ms n f hs)))

  reuse_pin-Sought :
      (m : ℕ) (w₀ : W) (p : PinnedMap) (w : W)
      → Sought (m ∷ []) p ((reuse_pin objects m (objects.map_name m w₀) p w).0)
  reuse_pin-Sought m w₀ p w =
      if_cases (λ (r : PinnedMap × W). Sought (m ∷ []) p (r.0))
        (same_str (objects.map_name m w₀) p.name)
        (after_get objects m p (objects.obj_get p.filename w)) (p, w)
        (λ y.
          if_cases (λ (r : PinnedMap × W). Sought (m ∷ []) p (r.0))
            (is_positive ((objects.obj_get p.filename w).0)) _ _ (λ z. (refl, refl, inl z))
            (λ z. (refl, refl, inr (refl, (inr (w, z), tt)))))
        (λ n. (refl, refl, inr (refl, (inl (w₀, n), tt))))

  pub before-Pairs :
      (R : PinnedMap → PinnedMap → Type 0) (p q : PinnedMap) (ps : List PinnedMap)
      (r : List PinnedMap × W)
      → R p q
      → Pairs R ps (r.0)
      → Pairs R (p ∷ ps) ((before q r).0)
  before-Pairs R p q ps (qs, w) h k = (h, k)

  reuse_pins-Sought :
      (m : ℕ) (w₀ : W) (ps : List PinnedMap) (w : W)
      → Pairs (Sought (m ∷ [])) ps ((reuse_pins objects m (objects.map_name m w₀) ps w).0)
  unfolding reuse_pins
  reuse_pins-Sought m w₀ [] w = tt
  reuse_pins-Sought m w₀ (p ∷ ps) w =
      let r = reuse_pin objects m (objects.map_name m w₀) p w in
      before-Pairs (Sought (m ∷ [])) p (r.0) ps
        (reuse_pins objects m (objects.map_name m w₀) ps (r.1)) (reuse_pin-Sought m w₀ p w)
        (reuse_pins-Sought m w₀ ps (r.1))

  pub reuse_all-Sought :
      (a : Attr) (ms : List ℕ) (ps : List PinnedMap) (w : W)
      → Pairs (Sought ms) ps ((reuse_all objects a ms ps w).0)
  unfolding reuse_all
  reuse_all-Sought a [] ps w = Pairs-refl (Sought []) ps (λ p. (refl, refl, inr (refl, tt)))
  reuse_all-Sought a (m ∷ ms) ps w =
      let r = reuse_pins objects m (objects.map_name m w) ps (set_map objects a m w) in
      Pairs-trans (Sought (m ∷ [])) (Sought ms) (Sought (m ∷ ms)) ps (r.0)
        ((reuse_all objects a ms (r.0) (r.1)).0) (Sought-trans m ms)
        (reuse_pins-Sought m w ps (set_map objects a m w)) (reuse_all-Sought a ms (r.0) (r.1))
