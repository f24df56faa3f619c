-- ===== src/Loading/Attached.antt =====
-- What has been attached when loading returns.
use new_ip_linux.Common.{
  ℕ, ◌<◌, ◌≡◌, refl, ◌⊎◌, inl, inr, Option, none, some, ◌==◌, arith, Bool-cases, text_of, strncpy,
  if_cases, Str,
}
use new_ip_linux.Common.Int.{ℤ, pos, negsuc}
use new_ip_linux.Params.{Config, exit_fail_xdp, exit_fail_bpf}
use new_ip_linux.Host.{Links, Objects}
use new_ip_linux.Attach.{xdp_link_attach}
use new_ip_linux.Attach.Link.{
  Mode, Slot, LinksLaws, SameHooks, Linked, Spared, Attaches, SameHooks-Linked, SameHooks-Spared,
}
use new_ip_linux.Attach.Put.{xdp_link_attach-Attaches}
use new_ip_linux.Loading.{
  Ends, returns, exits, after_attach, with_descriptor, with_prog, with_object, chosen,
  load_bpf_and_xdp_attach, offload_ifindex, load_bpf_object_file, load_bpf_object_file_reuse_maps,
}
use new_ip_linux.Loading.Keeps.{
  ObjectsLaws, load_bpf_object_file-SameHooks, load_bpf_object_file_reuse_maps-SameHooks,
}

-- In some state a program of the object is the one to choose and has the descriptor.
pub record IsChosen {W : Type 0} (objects : Objects W) (c : Config) (obj fd : ℕ) : Type 0 where
  pub state : W
  pub prog : ℕ
  pub is_chosen : chosen objects obj c state ≡ some prog
  pub has_descriptor : objects.program_fd prog state ≡ pos fd
  pub is_positive : 0 < fd

module _ {W : Type 0} (attached : W → Slot → Option ℕ) (usual : ℤ → Mode)
    (objects : Objects W) where
  -- A return with the chosen program of the object on the hook of the device for the flags, and with
  -- the settings the same but for the section; or the end of the program with the status 40 and all
  -- hooks as before, or with 30, where at most the opposite hook was emptied.
  abbrev pub LoadEnds : Config → W → Ends W → Type 0
  LoadEnds c w (returns obj c' w') =
      (fd : ℕ) × IsChosen objects c obj fd
      × Linked attached usual c.ifindex fd c.xdp_flags w w'
      × (c' ≡ record c { progsec = c'.progsec })
  LoadEnds c w (exits status w') =
      ((status ≡ exit_fail_bpf) × SameHooks attached w w')
      ⊎ ((status ≡ exit_fail_xdp) × Spared attached c.ifindex c.xdp_flags w w')

module _ {W : Type 0} (attached : W → Slot → Option ℕ) (usual : ℤ → Mode) (objects : Objects W)
    (links : Links W) (laws : LinksLaws attached usual links)
    (objects_laws : ObjectsLaws attached objects) where
  after_attach-LoadEnds :
      (c d : Config) (obj fd : ℕ) (w w₁ : W) (r : ℕ × W)
      → SameHooks attached w w₁
      → d ≡ record c { progsec = d.progsec }
      → IsChosen objects c obj fd
      → Attaches attached usual c.ifindex fd c.xdp_flags w₁ r
      → LoadEnds attached usual objects c w (after_attach objects links obj d r)
  after_attach-LoadEnds c d obj fd w w₁ (status, w') before same h (inl (e, s)) =
      rw e (fd, h, SameHooks-Linked attached usual c.ifindex fd c.xdp_flags w w₁ w' before s, same)
  after_attach-LoadEnds c d obj fd w w₁ (status, w') before same h (inr (e, s)) =
      rw e (inr (refl, SameHooks-Spared attached c.ifindex c.xdp_flags w w₁ w' before s))

  with_prog-LoadEnds :
      (c : Config) (obj p : ℕ) (fd : ℤ) (w w₁ : W)
      → SameHooks attached w w₁
      → chosen objects obj c w₁ ≡ some p
      → objects.program_fd p w₁ ≡ fd
      → LoadEnds attached usual objects c w (
          with_descriptor objects links obj
            (record c { progsec = strncpy 32 (objects.title p w₁) })
            fd
            w₁)
  with_prog-LoadEnds c obj p (negsuc e) w w₁ before h f = inl (refl, before)
  with_prog-LoadEnds c obj p (pos fd) w w₁ before h f = elim (Bool-cases (fd == 0)) [
    | inl y ↦ rw y (inl (refl, before))
    | inr n ↦ rw n (
        after_attach-LoadEnds c (record c { progsec = strncpy 32 (objects.title p w₁) }) obj fd w w₁
          (xdp_link_attach links c.ifindex c.xdp_flags (pos fd) w₁) before refl
          (record {
            state = w₁;
            prog = p;
            is_chosen = h;
            has_descriptor = f;
            is_positive = ground arith;
          })
          (xdp_link_attach-Attaches attached usual links laws c.ifindex fd c.xdp_flags w₁))
  ]

  chosen-LoadEnds :
      (c : Config) (obj : ℕ) (o : Option ℕ) (w w₁ : W)
      → SameHooks attached w w₁
      → chosen objects obj c w₁ ≡ o
      → LoadEnds attached usual objects c w (with_prog objects links obj c o w₁)
  chosen-LoadEnds c obj none w w₁ before h = inl (refl, before)
  chosen-LoadEnds c obj (some p) w w₁ before h =
      with_prog-LoadEnds c obj p (objects.program_fd p w₁) w w₁ before h refl

  with_object-LoadEnds :
      (c : Config) (w : W) (r : Option ℕ × W)
      → SameHooks attached w (r.1)
      → LoadEnds attached usual objects c w (with_object objects links c r)
  with_object-LoadEnds c w (none, w₁) before = inl (refl, before)
  with_object-LoadEnds c w (some obj, w₁) before =
      chosen-LoadEnds c obj (chosen objects obj c w₁) w w₁ before refl

  -- If loading returns, the program of the given section, or the first program if none is given, has
  -- a descriptor above 0 and is attached. Else the program ends with the status 40 or 30.
  pub load_bpf_and_xdp_attach-LoadEnds :
      (c : Config) (w : W)
      → LoadEnds attached usual objects c w (load_bpf_and_xdp_attach objects links c w)
  unfolding load_bpf_and_xdp_attach
  load_bpf_and_xdp_attach-LoadEnds c w =
      let file : Str = text_of c.filename in
      let i : ℤ = offload_ifindex objects links c in
      let reused : Option ℕ × W =
        load_bpf_object_file_reuse_maps objects file i (text_of c.pin_dir) w in
      let fresh : Option ℕ × W = load_bpf_object_file objects file i w in
      if_cases
        (λ (r : Option ℕ × W). LoadEnds attached usual objects c w (with_object objects links c r))
        c.reuse_maps reused fresh
        (λ y. with_object-LoadEnds c w reused (
          load_bpf_object_file_reuse_maps-SameHooks attached objects objects_laws file i
            (text_of c.pin_dir) w))
        (λ n.
          with_object-LoadEnds c w fresh
            (load_bpf_object_file-SameHooks attached objects objects_laws file i w))
