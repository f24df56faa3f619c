-- ===== src/Loading/Reuse.antt =====
-- Reusing the pinned maps, one after the other.
use new_ip_linux.Common.{
  ℕ, zero, suc, ◌<◌, ◌≡◌, refl, sym, ◌↔◌, false, some, List, [], ◌∷◌, leb, length, Str, arith,
  Bool-cases, inl, inr, suc-nonzero,
}
use mathlib.Core.Bool.{false≢true}
use mathlib.Core.Path.{subst}
use new_ip_linux.Common.Int.{ℤ, pos, negsuc}
use new_ip_linux.Host.{Objects, path_max, path_to}
use new_ip_linux.Attach.{is_zero}
use new_ip_linux.Loading.{and_next, reuse_descriptor, reuse_map, reuse_each, reuse_maps}

-- From the state `w` the maps take, in their order, the descriptors of the pinned maps of their names
-- under the path, which ends in the state `w'`.
pub data Reused {W : Type 0} (objects : Objects W) (path : Str) : List ℕ → W → W → Type 0 where
  all_reused : {w : W} → Reused objects path [] w w
  one_reused :
      {m : ℕ} {ms : List ℕ} {w w₁ w₂ w' : W} {fd : ℕ}
      → length (path_to path (objects.map_name m w)) < path_max
      → objects.obj_get (path_to path (objects.map_name m w)) w ≡ (pos fd, w₁)
      → objects.reuse_fd m (pos fd) w₁ ≡ (pos 0, w₂)
      → Reused objects path ms w₂ w'
      → Reused objects path (m ∷ ms) w w'

module _ {W : Type 0} (objects : Objects W) (path : Str) where
  reuse_map-Reused :
      (m : ℕ) (ms : List ℕ) (w w₁ w₂ w' : W) (fd : ℕ)
      → length (path_to path (objects.map_name m w)) < path_max
      → objects.obj_get (path_to path (objects.map_name m w)) w ≡ (pos fd, w₁)
      → objects.reuse_fd m (pos fd) w₁ ≡ (pos 0, w₂)
      → reuse_map objects path m w ≡ (pos 0, w₂)
  unfolding reuse_map
  reuse_map-Reused m ms w w₁ w₂ w' fd h e r =
      let fits : leb path_max (length (path_to path (objects.map_name m w))) ≡ false =
        ground arith in
      rw fits (rw e r)

  -- Every map is reused, with the result 0.
  reuse_each-Reused :
      (ms : List ℕ) (w w' : W)
      → Reused objects path ms w w'
      → reuse_each objects path ms w ≡ (pos 0, w')
  unfolding reuse_each
  reuse_each-Reused ms w w' all_reused = refl
  reuse_each-Reused ms w w'
        (one_reused {m = m} {ms = ns} {w₁ = w₁} {w₂ = w₂} {fd = fd} h e r rest) =
      rw (reuse_map-Reused m ns w w₁ w₂ w' fd h e r) (reuse_each-Reused ns w₂ w' rest)

-- What the step for one map comes to: the map is reused, or there is an error.
data Step {W : Type 0} (objects : Objects W) (path : Str) (m : ℕ) (w : W) : ℤ × W → Type 0 where
  reused :
      {w₁ w₂ : W} {fd : ℕ}
      → length (path_to path (objects.map_name m w)) < path_max
      → objects.obj_get (path_to path (objects.map_name m w)) w ≡ (pos fd, w₁)
      → objects.reuse_fd m (pos fd) w₁ ≡ (pos 0, w₂)
      → Step objects path m w (pos 0, w₂)
  stopped : {err : ℤ} {w₂ : W} → is_zero err ≡ false → Step objects path m w (err, w₂)

module _ {W : Type 0} (objects : Objects W) (path : Str) where
  reuse_fd-Step :
      (m fd : ℕ) (w w₁ : W) (r : ℤ × W)
      → length (path_to path (objects.map_name m w)) < path_max
      → objects.obj_get (path_to path (objects.map_name m w)) w ≡ (pos fd, w₁)
      → objects.reuse_fd m (pos fd) w₁ ≡ r
      → Step objects path m w r
  reuse_fd-Step m fd w w₁ (pos zero, w₂) h e r = reused h e r
  reuse_fd-Step m fd w w₁ (pos (suc n), w₂) h e r = stopped (suc-nonzero n)
  reuse_fd-Step m fd w w₁ (negsuc n, w₂) h e r = stopped refl

  reuse_descriptor-Step :
      (m : ℕ) (w : W) (r : ℤ × W)
      → length (path_to path (objects.map_name m w)) < path_max
      → objects.obj_get (path_to path (objects.map_name m w)) w ≡ r
      → Step objects path m w (reuse_descriptor objects m r)
  reuse_descriptor-Step m w (pos fd, w₁) h e =
      reuse_fd-Step m fd w w₁ (objects.reuse_fd m (pos fd) w₁) h e refl
  reuse_descriptor-Step m w (negsuc n, w₁) h e = stopped refl

  reuse_map-Step : (m : ℕ) (w : W) → Step objects path m w (reuse_map objects path m w)
  unfolding reuse_map
  reuse_map-Step m w =
      elim (Bool-cases (leb path_max (length (path_to path (objects.map_name m w))))) [
        | inl y ↦ rw y (stopped refl)
        | inr n ↦ rw n (
            reuse_descriptor-Step m w (objects.obj_get (path_to path (objects.map_name m w)) w)
              (ground arith) refl)
      ]

  stays :
      (err : ℤ) (w₂ : W) (rest : W → ℤ × W) (r : ℤ × W)
      → is_zero err ≡ false
      → and_next objects (err, w₂) rest ≡ r
      → is_zero (r.0) ≡ false
  stays err w₂ rest r n g = rw (sym g) (rw n n)

  and_next-Reused :
      (m : ℕ) (ms : List ℕ) (w w' : W) (r : ℤ × W)
      → Step objects path m w r
      → ((w₂ : W) → reuse_each objects path ms w₂ ≡ (pos 0, w') → Reused objects path ms w₂ w')
      → and_next objects r (reuse_each objects path ms) ≡ (pos 0, w')
      → Reused objects path (m ∷ ms) w w'
  and_next-Reused m ms w w' r (reused {w₂ = w₂} h e f) rest g = one_reused h e f (rest w₂ g)
  and_next-Reused m ms w w' r (stopped {err = err} {w₂ = w₂} n) rest g =
      absurd (false≢true (sym (stays err w₂ (reuse_each objects path ms) (pos 0, w') n g)))

  reuse_each-only :
      (ms : List ℕ) (w w' : W)
      → reuse_each objects path ms w ≡ (pos 0, w')
      → Reused objects path ms w w'
  unfolding reuse_each
  reuse_each-only [] w w' g = subst (λ p. Reused objects path [] w (p.1)) g all_reused
  reuse_each-only (m ∷ ms) w w' g =
      and_next-Reused m ms w w' (reuse_map objects path m w) (reuse_map-Step m w)
        (λ w₂. reuse_each-only ms w₂ w') g

-- Reusing the maps of an object returns 0 exactly if each map in turn has a path that fits, a pinned
-- map that can be opened there, and takes its descriptor; the state is the one after the last.
pub reuse_maps-Reused :
    {W : Type 0} (objects : Objects W) (path : Str) (obj : ℕ) (w w' : W)
    → (reuse_maps objects (some obj) (some path) w ≡ (pos 0, w'))
      ↔ Reused objects path (objects.maps obj w) w w'
unfolding reuse_maps
reuse_maps-Reused objects path obj w w' = (
  reuse_each-only objects path (objects.maps obj w) w w',
  reuse_each-Reused objects path (objects.maps obj w) w w',
)
