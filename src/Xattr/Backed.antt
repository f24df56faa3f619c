-- ===== src/Xattr/Backed.antt =====
-- Where the descriptors of the array of pinned maps come from.
use new_ip_linux.Common.{ℕ, ◌≡◌, refl, true, List, [], ◌∷◌, Str, same_str, if_cases, All}
use new_ip_linux.Common.Int.{ℤ, minus_one}
use new_ip_linux.Host.{Objects}
use new_ip_linux.Attach.{is_zero}
use new_ip_linux.Xattr.{
  PinnedMap, Attr, reset, is_opened, is_positive, before, after_get, reuse_pin, reuse_pins,
  reuse_all, set_map, after_pin, pin_one, pin_each, pin_all,
}

-- What libbpf was asked to do with a map.
pub data Request : Type 0 where
  reuse : (map : ℕ) → (fd : ℤ) → Request
  pin : (map : ℕ) → (path : Str) → Request

-- `made r w` says that the call `r` was made before the state `w`: it is a record of the calls, which
-- each of the two calls adds to, and no call takes anything from.
pub record RequestLaws {W : Type 0} (objects : Objects W) (made : Request → W → Type 0)
    : Type 0 where
  pub reuse_made : (m : ℕ) (fd : ℤ) (w : W) → made (reuse m fd) ((objects.reuse_fd m fd w).1)
  pub pin_made : (m : ℕ) (path : Str) (w : W) → made (pin m path) ((objects.map_pin m path w).1)
  pub reuse_kept :
      (r : Request) (m : ℕ) (fd : ℤ) (w : W) → made r w → made r ((objects.reuse_fd m fd w).1)
  pub pin_kept :
      (r : Request) (m : ℕ) (path : Str) (w : W) → made r w → made r ((objects.map_pin m path w).1)
  pub get_kept : (r : Request) (path : Str) (w : W) → made r w → made r ((objects.obj_get path w).1)
  pub ifindex_kept :
      (r : Request) (m : ℕ) (i : ℤ) (w : W) → made r w → made r (objects.set_map_ifindex m i w)
  pub load_kept : (r : Request) (obj : ℕ) (w : W) → made r w → made r ((objects.obj_load obj w).1)

-- An entry has no descriptor; or a map of its name was given the one of its file; or a map of its
-- name was pinned at its file, and the descriptor is that map's.
pub data Backed {W : Type 0} (objects : Objects W) (made : Request → W → Type 0) (w : W)
    (p : PinnedMap) : Type 0 where
  unset : p.map_fd ≡ minus_one → Backed objects made w p
  reused :
      (m : ℕ) (w₀ w₁ : W)
      → same_str (objects.map_name m w₀) p.name ≡ true
      → (objects.obj_get p.filename w₁).0 ≡ p.map_fd
      → is_positive p.map_fd ≡ true
      → made (reuse m p.map_fd) w
      → Backed objects made w p
  pinned :
      (m : ℕ) (w₀ w₁ : W)
      → same_str (objects.map_name m w₀) p.name ≡ true
      → is_zero ((objects.map_pin m p.filename w₁).0) ≡ true
      → objects.map_fd m ((objects.map_pin m p.filename w₁).1) ≡ p.map_fd
      → made (pin m p.filename) w
      → Backed objects made w p

module _ {W : Type 0} (objects : Objects W) (made : Request → W → Type 0)
    (laws : RequestLaws objects made) where
  abbrev Grows : (w w' : W) → Type 0
  Grows w w' = (r : Request) → made r w → made r w'

  pub Backed-later :
      (w w' : W) (p : PinnedMap) → Grows w w' → Backed objects made w p → Backed objects made w' p
  Backed-later w w' p g (unset e) = unset e
  Backed-later w w' p g (reused m w₀ w₁ n f y r) = reused m w₀ w₁ n f y (g _ r)
  Backed-later w w' p g (pinned m w₀ w₁ n z f r) = pinned m w₀ w₁ n z f (g _ r)

  pub AllBacked-later :
      (w w' : W) (ps : List PinnedMap)
      → Grows w w'
      → All (Backed objects made w) ps
      → All (Backed objects made w') ps
  AllBacked-later w w' [] g h = tt
  AllBacked-later w w' (p ∷ ps) g h = (Backed-later w w' p g (h.0), AllBacked-later w w' ps g (h.1))

  -- A step on one entry or the whole array: the entries are backed at the end, and so are others
  -- that were at the start.
  abbrev One : (w : W) → PinnedMap × W → Type 0
  One w r = Backed objects made (r.1) (r.0) × Grows w (r.1)

  abbrev pub Many : (w : W) → List PinnedMap × W → Type 0
  Many w r = All (Backed objects made (r.1)) (r.0) × Grows w (r.1)

  before-Many :
      (w : W) (r : PinnedMap × W) (rs : List PinnedMap × W)
      → One w r
      → Many (r.1) rs
      → Many w (before (r.0) rs)
  before-Many w (p, w₁) (ps, w₂) (b, g) (bs, g') =
      ((Backed-later w₁ w₂ p g' b, bs), λ r h. g' r (g r h))

  reuse_pin-One :
      (m : ℕ) (w₀ : W) (p : PinnedMap) (w : W)
      → Backed objects made w p
      → One w (reuse_pin objects m (objects.map_name m w₀) p w)
  reuse_pin-One m w₀ p w b =
      let got : ℤ × W = objects.obj_get p.filename w in
      let kept : Grows w (got.1) = λ r. laws.get_kept r p.filename w in
      if_cases (One w) (same_str (objects.map_name m w₀) p.name) (after_get objects m p got) (p, w)
        (λ n.
          if_cases (One w) (is_positive (got.0)) _ _
            (λ y. (
              reused m w₀ w n refl y (laws.reuse_made m (got.0) (got.1)),
              λ r h. laws.reuse_kept r m (got.0) (got.1) (kept r h),
            ))
            (λ y. (Backed-later w (got.1) p kept b, kept)))
        (λ n. (b, λ r h. h))

  reuse_pins-Many :
      (m : ℕ) (w₀ : W) (ps : List PinnedMap) (w : W)
      → All (Backed objects made w) ps
      → Many w (reuse_pins objects m (objects.map_name m w₀) ps w)
  unfolding reuse_pins
  reuse_pins-Many m w₀ [] w bs = (tt, λ r h. h)
  reuse_pins-Many m w₀ (p ∷ ps) w bs =
      let r = reuse_pin objects m (objects.map_name m w₀) p w in
      let one = reuse_pin-One m w₀ p w (bs.0) in
      before-Many w r (reuse_pins objects m (objects.map_name m w₀) ps (r.1)) one
        (reuse_pins-Many m w₀ ps (r.1) (AllBacked-later w (r.1) ps (one.1) (bs.1)))

  set_map-Grows : (a : Attr) (m : ℕ) (w : W) → Grows w (set_map objects a m w)
  set_map-Grows a m w =
      if_cases (Grows w) (objects.is_offload_neutral m w) w (objects.set_map_ifindex m a.ifindex w)
        (λ y r h. h) (λ n r h. laws.ifindex_kept r m a.ifindex w h)

  pub reuse_all-Many :
      (a : Attr) (ms : List ℕ) (ps : List PinnedMap) (w : W)
      → All (Backed objects made w) ps
      → Many w (reuse_all objects a ms ps w)
  unfolding reuse_all
  reuse_all-Many a [] ps w bs = (bs, λ r h. h)
  reuse_all-Many a (m ∷ ms) ps w bs =
      let w₁ : W = set_map objects a m w in
      let r = reuse_pins objects m (objects.map_name m w) ps w₁ in
      let g = set_map-Grows a m w in
      let many = reuse_pins-Many m w ps w₁ (AllBacked-later w w₁ ps g bs) in
      let rest = reuse_all-Many a ms (r.0) (r.1) (many.0) in
      (rest.0, λ q h. rest.1 q (many.1 q (g q h)))

  pin_one-One :
      (m : ℕ) (w₀ : W) (p : PinnedMap) (w : W)
      → Backed objects made w p
      → One w (pin_one objects m (objects.map_name m w₀) p w)
  pin_one-One m w₀ p w b =
      let got : ℤ × W = objects.map_pin m p.filename w in
      let kept : Grows w (got.1) = λ r. laws.pin_kept r m p.filename w in
      if_cases (One w) (same_str (objects.map_name m w₀) p.name) _ (p, w)
        (λ n.
          if_cases (One w) (is_opened p.map_fd) (p, w) (after_pin objects m p got)
            (λ y. (b, λ r h. h))
            (λ y.
              if_cases (One w) (is_zero (got.0)) _ _
                (λ z. (pinned m w₀ w n z refl (laws.pin_made m p.filename w), kept))
                (λ z. (Backed-later w (got.1) p kept b, kept))))
        (λ n. (b, λ r h. h))

  pin_each-Many :
      (m : ℕ) (w₀ : W) (ps : List PinnedMap) (w : W)
      → All (Backed objects made w) ps
      → Many w (pin_each objects m (objects.map_name m w₀) ps w)
  unfolding pin_each
  pin_each-Many m w₀ [] w bs = (tt, λ r h. h)
  pin_each-Many m w₀ (p ∷ ps) w bs =
      let r = pin_one objects m (objects.map_name m w₀) p w in
      let one = pin_one-One m w₀ p w (bs.0) in
      before-Many w r (pin_each objects m (objects.map_name m w₀) ps (r.1)) one
        (pin_each-Many m w₀ ps (r.1) (AllBacked-later w (r.1) ps (one.1) (bs.1)))

  pub pin_all-Many :
      (ms : List ℕ) (ps : List PinnedMap) (w : W)
      → All (Backed objects made w) ps
      → Many w (pin_all objects ms ps w)
  unfolding pin_all
  pin_all-Many [] ps w bs = (bs, λ r h. h)
  pin_all-Many (m ∷ ms) ps w bs =
      let r = pin_each objects m (objects.map_name m w) ps w in
      let many = pin_each-Many m w ps w bs in
      let rest = pin_all-Many ms (r.0) (r.1) (many.0) in (rest.0, λ q h. rest.1 q (many.1 q h))

  pub reset-AllBacked : (ps : List PinnedMap) (w : W) → All (Backed objects made w) (reset ps)
  reset-AllBacked [] w = tt
  reset-AllBacked (p ∷ ps) w = (unset refl, reset-AllBacked ps w)
