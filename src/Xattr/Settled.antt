-- ===== src/Xattr/Settled.antt =====
-- What the loop that pins maps does to the array of pinned maps, after the one that opens files.
use new_ip_linux.Common.{
  ℕ, ◌≡◌, refl, ◌∙◌, sym, ap, ◌⊎◌, inl, inr, true, false, List, [], ◌∷◌, same_str, if_cases, All,
  Bool-cases,
}
use mathlib.Core.Path.{subst}
use mathlib.Core.Bool.{false≢true}
use new_ip_linux.Common.Int.{ℤ, pos, negsuc}
use new_ip_linux.Host.{Objects}
use new_ip_linux.Attach.{is_zero}
use new_ip_linux.Xattr.{
  PinnedMap, reset, is_opened, is_positive, after_pin, pin_one, pin_each, pin_all,
}
use new_ip_linux.Xattr.Pins.{Pairs, Pairs-refl, Pairs-trans, NotOpened, Sought, before-Pairs}

module _ {W : Type 0} (objects : Objects W) where
  -- A map has another name than the entry, or cannot be pinned at its file, or has no descriptor.
  abbrev pub NotPinned : PinnedMap → (map : ℕ) → Type 0
  NotPinned p m =
      ((w : W) × (same_str (objects.map_name m w) p.name ≡ false))
      ⊎ ((w : W) × (is_zero ((objects.map_pin m p.filename w).0) ≡ false))
      ⊎ ((w : W) × (is_opened (objects.map_fd m w) ≡ false))

  -- The same map and file, with a descriptor, which is kept if there was one; or none of the maps
  -- could be pinned for it.
  abbrev pub Settled : (maps : List ℕ) → (p q : PinnedMap) → Type 0
  Settled ms p q =
      (q.name ≡ p.name)
      × (q.filename ≡ p.filename)
      × (is_opened p.map_fd ≡ true → q.map_fd ≡ p.map_fd)
      × ((is_opened q.map_fd ≡ true) ⊎ All (NotPinned p) ms)

  NotPinned-same :
      (p q : PinnedMap) (ms : List ℕ)
      → q.name ≡ p.name
      → q.filename ≡ p.filename
      → All (NotPinned q) ms
      → All (NotPinned p) ms
  NotPinned-same p q [] n f h = tt
  NotPinned-same p q (m ∷ ms) n f h = (
    elim (h.0) [
      | inl (w, e) ↦ inl (w, subst (λ s. same_str (objects.map_name m w) s ≡ false) n e)
      | inr (inl (w, e)) ↦
          inr (inl (w, subst (λ s. is_zero ((objects.map_pin m s w).0) ≡ false) f e))
      | inr (inr e) ↦ inr (inr e)
    ],
    NotPinned-same p q ms n f (h.1),
  )

  Settled-trans :
      (m : ℕ) (ms : List ℕ) (p q r : PinnedMap)
      → Settled (m ∷ []) p q
      → Settled ms q r
      → Settled (m ∷ ms) p r
  Settled-trans m ms p q r (n, f, k, h) (n', f', k', h') = (
    n' ∙ n,
    f' ∙ f,
    (λ y. k' (ap is_opened (k y) ∙ y) ∙ k y),
    elim h' [
      | inl y ↦ inl y
      | inr hs ↦ elim h [
        | inl y ↦ inl (ap is_opened (k' y) ∙ y)
        | inr one ↦ inr (one.0, NotPinned-same p q ms n f hs)
      ]
    ],
  )

  after_pin-Settled :
      (m : ℕ) (p : PinnedMap) (w : W)
      → is_opened p.map_fd ≡ false
      → Settled (m ∷ []) p ((after_pin objects m p (objects.map_pin m p.filename w)).0)
  after_pin-Settled m p w none_yet =
      let w₁ : W = (objects.map_pin m p.filename w).1 in
      let no : (A : Type 0) → is_opened p.map_fd ≡ true → A =
        λ A y. absurd (false≢true (sym none_yet ∙ y)) in
      if_cases (λ (r : PinnedMap × W). Settled (m ∷ []) p (r.0))
        (is_zero ((objects.map_pin m p.filename w).0)) _ _
        (λ z. elim (Bool-cases (is_opened (objects.map_fd m w₁))) [
          | inl y ↦ (refl, refl, no _, inl y)
          | inr n ↦ (refl, refl, no _, inr (inr (inr (w₁, n)), tt))
        ])
        (λ z. (refl, refl, no _, inr (inr (inl (w, z)), tt)))

  pin_one-Settled :
      (m : ℕ) (w₀ : W) (p : PinnedMap) (w : W)
      → Settled (m ∷ []) p ((pin_one objects m (objects.map_name m w₀) p w).0)
  pin_one-Settled m w₀ p w =
      if_cases (λ (r : PinnedMap × W). Settled (m ∷ []) p (r.0))
        (same_str (objects.map_name m w₀) p.name) _ (p, w)
        (λ y.
          if_cases (λ (r : PinnedMap × W). Settled (m ∷ []) p (r.0)) (is_opened p.map_fd) (p, w)
            (after_pin objects m p (objects.map_pin m p.filename w))
            (λ z. (refl, refl, (λ o. refl), inl z)) (λ z. after_pin-Settled m p w z))
        (λ n. (refl, refl, (λ o. refl), inr (inl (w₀, n), tt)))

  pin_each-Settled :
      (m : ℕ) (w₀ : W) (ps : List PinnedMap) (w : W)
      → Pairs (Settled (m ∷ [])) ps ((pin_each objects m (objects.map_name m w₀) ps w).0)
  unfolding pin_each
  pin_each-Settled m w₀ [] w = tt
  pin_each-Settled m w₀ (p ∷ ps) w =
      let r = pin_one objects m (objects.map_name m w₀) p w in
      before-Pairs objects (Settled (m ∷ [])) p (r.0) ps
        (pin_each objects m (objects.map_name m w₀) ps (r.1)) (pin_one-Settled m w₀ p w)
        (pin_each-Settled m w₀ ps (r.1))

  pub pin_all-Settled :
      (ms : List ℕ) (ps : List PinnedMap) (w : W)
      → Pairs (Settled ms) ps ((pin_all objects ms ps w).0)
  unfolding pin_all
  pin_all-Settled [] ps w = Pairs-refl (Settled []) ps (λ p. (refl, refl, (λ o. refl), inr tt))
  pin_all-Settled (m ∷ ms) ps w =
      let r = pin_each objects m (objects.map_name m w) ps w in
      Pairs-trans (Settled (m ∷ [])) (Settled ms) (Settled (m ∷ ms)) ps (r.0)
        ((pin_all objects ms (r.0) (r.1)).0) (Settled-trans m ms) (pin_each-Settled m w ps w)
        (pin_all-Settled ms (r.0) (r.1))

  -- The same map and file; the entry has a descriptor above 0, or none of the maps `ms` could be
  -- opened for it; and it has a descriptor, or none of the maps `ms'` could be pinned for it.
  abbrev pub Provided : (ms ms' : List ℕ) → (p q : PinnedMap) → Type 0
  Provided ms ms' p q =
      (q.name ≡ p.name)
      × (q.filename ≡ p.filename)
      × ((is_positive q.map_fd ≡ true) ⊎ All (NotOpened objects p) ms)
      × ((is_opened q.map_fd ≡ true) ⊎ All (NotPinned p) ms')

  positive-opened : (fd : ℤ) → is_positive fd ≡ true → is_opened fd ≡ true
  positive-opened (pos n) e = refl
  positive-opened (negsuc n) e = absurd (false≢true e)

  pub Sought-Settled :
      (ms ms' : List ℕ) (p q r : PinnedMap)
      → Sought objects ms p q
      → Settled ms' q r
      → Provided ms ms' p r
  Sought-Settled ms ms' p q r (n, f, h) (n', f', k, h') = (
    n' ∙ n,
    f' ∙ f,
    elim h [
      | inl y ↦ inl (ap is_positive (k (positive-opened q.map_fd y)) ∙ y)
      | inr (e, hs) ↦ inr hs
    ],
    elim h' [ inl y ↦ inl y | inr hs ↦ inr (NotPinned-same p q ms' n f hs) ],
  )

  -- The array that is given has other descriptors, which are not read.
  pub reset-Provided :
      (ms ms' : List ℕ) (ps qs : List PinnedMap)
      → Pairs (Provided ms ms') (reset ps) qs
      → Pairs (Provided ms ms') ps qs
  reset-Provided ms ms' [] [] h = tt
  reset-Provided ms ms' [] (q ∷ qs) h = h
  reset-Provided ms ms' (p ∷ ps) [] h = h
  reset-Provided ms ms' (p ∷ ps) (q ∷ qs) h = (h.0, reset-Provided ms ms' ps qs (h.1))
