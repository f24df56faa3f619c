-- ===== src/Loading/Keeps.antt =====
-- The calls on objects, programs and maps leave the XDP hooks alone.
use new_ip_linux.Common.{ℕ, refl, Option, none, some, List, [], ◌∷◌, if_cases, leb, length, Str}
use new_ip_linux.Common.Int.{ℤ, pos, negsuc}
use new_ip_linux.Host.{Objects, path_to, path_max, error, enametoolong}
use new_ip_linux.Attach.{is_zero}
use new_ip_linux.Attach.Link.{Slot, SameHooks, SameHooks-SameHooks}
use new_ip_linux.Loading.{
  prog_type_xdp, set_programs, set_map, set_maps, after_open, open_bpf_object, load_bpf_object_file,
  and_next, reuse_descriptor, reuse_map, reuse_each, reuse_maps, after_reuse, and_reuse, loaded_if,
  load_bpf_object_file_reuse_maps,
}

-- What the code relies on: of the calls of libbpf only `bpf_set_link_xdp_fd` changes a hook.
pub record ObjectsLaws {W : Type 0} (attached : W → Slot → Option ℕ) (objects : Objects W)
    : Type 0 where
  pub obj_open_law : (file : Str) (w : W) → SameHooks attached w ((objects.obj_open file w).1)
  pub prog_load_law :
      (file : Str) (i : ℤ) (w : W) → SameHooks attached w ((objects.prog_load file i w).1)
  pub obj_load_law : (obj : ℕ) (w : W) → SameHooks attached w ((objects.obj_load obj w).1)
  pub set_type_law : (p t : ℕ) (w : W) → SameHooks attached w (objects.set_type p t w)
  pub set_program_ifindex_law :
      (p : ℕ) (i : ℤ) (w : W) → SameHooks attached w (objects.set_program_ifindex p i w)
  pub set_map_ifindex_law :
      (m : ℕ) (i : ℤ) (w : W) → SameHooks attached w (objects.set_map_ifindex m i w)
  pub reuse_fd_law : (m : ℕ) (fd : ℤ) (w : W) → SameHooks attached w ((objects.reuse_fd m fd w).1)
  pub obj_get_law : (path : Str) (w : W) → SameHooks attached w ((objects.obj_get path w).1)
  pub pin_law :
      (obj : ℕ) (dir : Str) (w : W) → SameHooks attached w ((objects.pin_maps obj dir w).1)
  pub unpin_law :
      (obj : ℕ) (dir : Str) (w : W) → SameHooks attached w ((objects.unpin_maps obj dir w).1)

module _ {W : Type 0} (attached : W → Slot → Option ℕ) (objects : Objects W)
    (laws : ObjectsLaws attached objects) where
  abbrev Same : (w w' : W) → Type 0
  Same = SameHooks attached

  same : (w : W) → Same w w
  same w j = refl

  chain : (w w₁ w₂ : W) → Same w w₁ → Same w₁ w₂ → Same w w₂
  chain = SameHooks-SameHooks attached

  set_programs-SameHooks : (i : ℤ) (ps : List ℕ) (w : W) → Same w (set_programs objects i ps w)
  unfolding set_programs
  set_programs-SameHooks i [] w = same w
  set_programs-SameHooks i (p ∷ ps) w =
      let w₁ : W = objects.set_type p prog_type_xdp w in
      let w₂ : W = objects.set_program_ifindex p i w₁ in
      chain w w₁ _ (laws.set_type_law p prog_type_xdp w)
        (chain w₁ w₂ _ (laws.set_program_ifindex_law p i w₁) (set_programs-SameHooks i ps w₂))

  set_map-SameHooks : (i : ℤ) (m : ℕ) (w : W) → Same w (set_map objects i m w)
  set_map-SameHooks i m w =
      if_cases (λ r. Same w r) (objects.is_offload_neutral m w) w (objects.set_map_ifindex m i w)
        (λ y. same w) (λ n. laws.set_map_ifindex_law m i w)

  set_maps-SameHooks : (i : ℤ) (ms : List ℕ) (w : W) → Same w (set_maps objects i ms w)
  unfolding set_maps
  set_maps-SameHooks i [] w = same w
  set_maps-SameHooks i (m ∷ ms) w =
      chain w (set_map objects i m w) _ (set_map-SameHooks i m w)
        (set_maps-SameHooks i ms (set_map objects i m w))

  after_open-SameHooks :
      (i : ℤ) (w : W) (r : Option ℕ × W) → Same w (r.1) → Same w ((after_open objects i r).1)
  after_open-SameHooks i w (none, w₁) h = h
  after_open-SameHooks i w (some obj, w₁) h =
      let w₂ : W = set_programs objects i (objects.programs obj w₁) w₁ in
      chain w w₁ _ h (
        chain w₁ w₂ _ (set_programs-SameHooks i (objects.programs obj w₁) w₁)
          (set_maps-SameHooks i (objects.maps obj w₂) w₂))

  reuse_descriptor-SameHooks :
      (m : ℕ) (w : W) (r : ℤ × W) → Same w (r.1) → Same w ((reuse_descriptor objects m r).1)
  reuse_descriptor-SameHooks m w (pos fd, w₁) h = chain w w₁ _ h (laws.reuse_fd_law m (pos fd) w₁)
  reuse_descriptor-SameHooks m w (negsuc e, w₁) h = h

  reuse_map-SameHooks : (path : Str) (m : ℕ) (w : W) → Same w ((reuse_map objects path m w).1)
  unfolding reuse_map
  reuse_map-SameHooks path m w =
      let file : Str = path_to path (objects.map_name m w) in
      if_cases (λ (r : ℤ × W). Same w (r.1)) (leb path_max (length file)) (error enametoolong, w)
        (reuse_descriptor objects m (objects.obj_get file w)) (λ y. same w)
        (λ n. reuse_descriptor-SameHooks m w (objects.obj_get file w) (laws.obj_get_law file w))

  and_next-SameHooks :
      (w : W) (r : ℤ × W) (rest : W → ℤ × W)
      → Same w (r.1)
      → ((w' : W) → Same w' ((rest w').1))
      → Same w ((and_next objects r rest).1)
  and_next-SameHooks w (err, w₁) rest h next =
      if_cases (λ (r : ℤ × W). Same w (r.1)) (is_zero err) (rest w₁) (err, w₁)
        (λ y. chain w w₁ _ h (next w₁)) (λ n. h)

  reuse_each-SameHooks :
      (path : Str) (ms : List ℕ) (w : W) → Same w ((reuse_each objects path ms w).1)
  unfolding reuse_each
  reuse_each-SameHooks path [] w = same w
  reuse_each-SameHooks path (m ∷ ms) w =
      and_next-SameHooks w (reuse_map objects path m w) (reuse_each objects path ms)
        (reuse_map-SameHooks path m w) (reuse_each-SameHooks path ms)

  after_reuse-SameHooks :
      (obj : ℕ) (w : W) (r : ℤ × W) → Same w (r.1) → Same w ((after_reuse objects obj r).1)
  after_reuse-SameHooks obj w (err, w₁) h =
      let loaded : ℤ × W = objects.obj_load obj w₁ in
      if_cases (λ (r : Option ℕ × W). Same w (r.1)) (is_zero err) (loaded_if objects obj loaded)
        (none, w₁)
        (λ y.
          if_cases (λ (r : Option ℕ × W). Same w (r.1)) (is_zero (loaded.0)) (some obj, loaded.1)
            (none, loaded.1) (λ y'. chain w w₁ _ h (laws.obj_load_law obj w₁))
            (λ n'. chain w w₁ _ h (laws.obj_load_law obj w₁)))
        (λ n. h)

  and_reuse-SameHooks :
      (path : Str) (w : W) (r : Option ℕ × W) → Same w (r.1) → Same w ((and_reuse objects path r).1)
  unfolding reuse_maps
  and_reuse-SameHooks path w (none, w₁) h = h
  and_reuse-SameHooks path w (some obj, w₁) h =
      after_reuse-SameHooks obj w (reuse_each objects path (objects.maps obj w₁) w₁)
        (chain w w₁ _ h (reuse_each-SameHooks path (objects.maps obj w₁) w₁))

  pub load_bpf_object_file_reuse_maps-SameHooks :
      (file : Str) (i : ℤ) (dir : Str) (w : W)
      → Same w ((load_bpf_object_file_reuse_maps objects file i dir w).1)
  unfolding load_bpf_object_file_reuse_maps open_bpf_object
  load_bpf_object_file_reuse_maps-SameHooks file i dir w =
      and_reuse-SameHooks dir w (after_open objects i (objects.obj_open file w))
        (after_open-SameHooks i w (objects.obj_open file w) (laws.obj_open_law file w))

  pub load_bpf_object_file-SameHooks :
      (file : Str) (i : ℤ) (w : W) → Same w ((load_bpf_object_file objects file i w).1)
  unfolding load_bpf_object_file
  load_bpf_object_file-SameHooks file i w =
      let r : (ℤ × ℕ) × W = objects.prog_load file i w in
      if_cases (λ (r : Option ℕ × W). Same w (r.1)) (is_zero (r.0.0)) (some (r.0.1), r.1)
        (none, r.1) (λ y. laws.prog_load_law file i w) (λ n. laws.prog_load_law file i w)
