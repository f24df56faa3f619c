-- ===== src/Attach/Link.antt =====
-- What attaching and detaching do to the XDP hooks, of which each device has one for each mode.
use new_ip_linux.Common.{
  ℕ, ◌≡◌, ◌≢◌, ◌∙◌, ◌⊎◌, inl, inr, true, Option, none, some, bit_and, ◌==◌, if◌then◌else◌,
}
use new_ip_linux.Common.Int.{ℤ, pos, negsuc, minus_one}
use new_ip_linux.Host.{Links}
use new_ip_linux.Params.{exit_ok, exit_fail_xdp, xdp_flags_skb_mode}
use new_ip_linux.Params.Bits.{modes_of}
use new_ip_linux.Attach.{is_forced}

-- The kernel's three modes of XDP: in the network stack, in the driver, in the device.
pub data Mode : Type 0 where
  generic native offloaded : Mode

-- The mode that flags ask for; without one the kernel takes the usual mode of the device.
abbrev pub asked_mode : (modes : ℕ) → (usual : Mode) → Mode
asked_mode modes usual =
    if modes == 1
    then generic
    else if modes == 2
    then native
    else if modes == 4
    then offloaded
    else usual

-- A hook.
abbrev pub Slot : Type 0
Slot = ℤ × Mode

module _ (usual : ℤ → Mode) where
  abbrev pub slot : (ifindex : ℤ) → (flags : ℕ) → Slot
  slot i flags = (i, asked_mode (modes_of flags) (usual i))

-- The hook of the opposite type: native for flags with the generic mode, else generic.
abbrev pub opposite : (ifindex : ℤ) → (flags : ℕ) → Slot
opposite i flags = (i, if bit_and flags xdp_flags_skb_mode == 0 then generic else native)

module _ {W : Type 0} (attached : W → Slot → Option ℕ) where
  -- From `w` to `w'` the hooks stay as they are.
  abbrev pub SameHooks : (w w' : W) → Type 0
  SameHooks w w' = (j : Slot) → attached w' j ≡ attached w j

  -- The hook is `o`, and the others stay as they are.
  abbrev pub HookIs : Slot → Option ℕ → (w w' : W) → Type 0
  HookIs i o w w' = (attached w' i ≡ o) × ((j : Slot) → j ≢ i → attached w' j ≡ attached w j)

  -- The hook `i` is `o`, the hook `k` is empty if it is another one, and the others stay as they are.
  abbrev pub Moved : (i k : Slot) → Option ℕ → (w w' : W) → Type 0
  Moved i k o w w' =
      (attached w' i ≡ o)
      × (k ≢ i → attached w' k ≡ none)
      × ((j : Slot) → j ≢ i → j ≢ k → attached w' j ≡ attached w j)

  -- A call succeeds and sets the hook, or fails and leaves the hooks alone.
  abbrev pub Sets : Slot → Option ℕ → W → ℤ × W → Type 0
  Sets i o w (err, w') =
      ((err ≡ pos 0) × HookIs i o w w') ⊎ ((e : ℕ) × (err ≡ negsuc e) × SameHooks w w')

  -- `bpf_set_link_xdp_fd` attaches the program of a descriptor to the hook of the mode that the flags
  -- ask for, or with -1 takes the program off it, and a failed call changes nothing.
  pub record LinksLaws (usual : ℤ → Mode) (links : Links W) : Type 0 where
    pub attach_law :
        (i : ℤ) (fd flags : ℕ) (w : W)
        → Sets (slot usual i flags) (some fd) w (links.set_link_xdp_fd i (pos fd) flags w)
    pub detach_law :
        (i : ℤ) (flags : ℕ) (w : W)
        → Sets (slot usual i flags) none w (links.set_link_xdp_fd i minus_one flags w)

  -- The program is on the hook for its flags, and the opposite hook is as before or, if a program may
  -- be replaced, empty.
  abbrev pub Linked : (usual : ℤ → Mode) → ℤ → (fd flags : ℕ) → (w w' : W) → Type 0
  Linked usual i fd flags w w' =
      HookIs (slot usual i flags) (some fd) w w'
      ⊎ ((is_forced flags ≡ true) × Moved (slot usual i flags) (opposite i flags) (some fd) w w')

  -- The hooks are as before or, if a program may be replaced, the opposite hook is empty.
  abbrev pub Spared : ℤ → (flags : ℕ) → (w w' : W) → Type 0
  Spared i flags w w' =
      SameHooks w w' ⊎ ((is_forced flags ≡ true) × HookIs (opposite i flags) none w w')

  -- The status 0 with the program on its hook, or 30 without it.
  abbrev pub Attaches : (usual : ℤ → Mode) → ℤ → (fd flags : ℕ) → W → ℕ × W → Type 0
  Attaches usual i fd flags w (status, w') =
      ((status ≡ exit_ok) × Linked usual i fd flags w w')
      ⊎ ((status ≡ exit_fail_xdp) × Spared i flags w w')

  pub HookIs-Moved :
      (i k : Slot) (o : Option ℕ) (w w₁ w₂ : W)
      → HookIs k none w w₁
      → HookIs i o w₁ w₂
      → Moved i k o w w₂
  HookIs-Moved i k o w w₁ w₂ s t = (t.0, λ n. t.1 k n ∙ s.0, λ j n m. t.1 j n ∙ s.1 j m)

  pub SameHooks-HookIs :
      (i : Slot) (o : Option ℕ) (w w₁ w₂ : W) → SameHooks w w₁ → HookIs i o w₁ w₂ → HookIs i o w w₂
  SameHooks-HookIs i o w w₁ w₂ s t = (t.0, λ j n. t.1 j n ∙ s j)

  pub HookIs-SameHooks :
      (i : Slot) (o : Option ℕ) (w w₁ w₂ : W) → HookIs i o w w₁ → SameHooks w₁ w₂ → HookIs i o w w₂
  HookIs-SameHooks i o w w₁ w₂ s t = (t i ∙ s.0, λ j n. t j ∙ s.1 j n)

  pub SameHooks-SameHooks : (w w₁ w₂ : W) → SameHooks w w₁ → SameHooks w₁ w₂ → SameHooks w w₂
  SameHooks-SameHooks w w₁ w₂ s t j = t j ∙ s j

  pub SameHooks-Linked :
      (usual : ℤ → Mode) (i : ℤ) (fd flags : ℕ) (w w₁ w₂ : W)
      → SameHooks w w₁
      → Linked usual i fd flags w₁ w₂
      → Linked usual i fd flags w w₂
  SameHooks-Linked usual i fd flags w w₁ w₂ s (inl h) =
      inl (SameHooks-HookIs (slot usual i flags) (some fd) w w₁ w₂ s h)
  SameHooks-Linked usual i fd flags w w₁ w₂ s (inr (f, (a, b, c))) =
      inr (f, (a, b, λ j n m. c j n m ∙ s j))

  pub Linked-SameHooks :
      (usual : ℤ → Mode) (i : ℤ) (fd flags : ℕ) (w w₁ w₂ : W)
      → Linked usual i fd flags w w₁
      → SameHooks w₁ w₂
      → Linked usual i fd flags w w₂
  Linked-SameHooks usual i fd flags w w₁ w₂ (inl h) s =
      inl (HookIs-SameHooks (slot usual i flags) (some fd) w w₁ w₂ h s)
  Linked-SameHooks usual i fd flags w w₁ w₂ (inr (f, (a, b, c))) s =
      inr (f, (s _ ∙ a, λ n. s _ ∙ b n, λ j n m. s j ∙ c j n m))

  pub SameHooks-Spared :
      (i : ℤ) (flags : ℕ) (w w₁ w₂ : W)
      → SameHooks w w₁
      → Spared i flags w₁ w₂
      → Spared i flags w w₂
  SameHooks-Spared i flags w w₁ w₂ s (inl h) = inl (SameHooks-SameHooks w w₁ w₂ s h)
  SameHooks-Spared i flags w w₁ w₂ s (inr (f, h)) =
      inr (f, SameHooks-HookIs (opposite i flags) none w w₁ w₂ s h)
