-- ===== src/Attach/Put.antt =====
-- Attaching a program to a device.
use new_ip_linux.Common.{
  &&-right, ℕ, ◌≡◌, refl, inl, inr, true, Option, none, some, Bool-cases, ◌&&◌, ◌==◌, bit_and,
}
use new_ip_linux.Common.Int.{ℤ, pos, negsuc, minus_one}
use new_ip_linux.Host.{Links}
use new_ip_linux.Attach
use new_ip_linux.Attach.{
  xdp_link_attach, after_attempt, again, already_exists, is_forced, other_mode,
}
use new_ip_linux.Attach.Link.{
  Mode, Slot, slot, opposite, SameHooks, Sets, HookIs, LinksLaws, Attaches, HookIs-Moved,
  HookIs-SameHooks, SameHooks-HookIs, SameHooks-SameHooks,
}
use new_ip_linux.Params.{xdp_flags_skb_mode}
use new_ip_linux.Params.Bits.{set_mode-skb, set_mode-drv}
use mathlib.Core.Path.{subst}

-- The flags of the other mode ask for the opposite hook.
slot-other_mode :
    (usual : ℤ → Mode) (i : ℤ) (flags : ℕ) → slot usual i (other_mode flags) ≡ opposite i flags
slot-other_mode usual i flags = elim (Bool-cases (bit_and flags xdp_flags_skb_mode == 0)) [
  | inl y ↦ rw (y, (set_mode-skb flags).0) refl
  | inr n ↦ rw (n, (set_mode-drv flags).0) refl
]

module _ {W : Type 0} (attached : W → Slot → Option ℕ) (usual : ℤ → Mode) (links : Links W)
    (laws : LinksLaws attached usual links) where
  -- The second attempt, after the program of the other mode was taken off from `w`.
  last-Attaches :
      (i : ℤ) (fd flags : ℕ) (w w₁ : W) (r : ℤ × W)
      → is_forced flags ≡ true
      → HookIs attached (opposite i flags) none w w₁
      → Sets attached (slot usual i flags) (some fd) w₁ r
      → Attaches attached usual i fd flags w (Attach.status_of (r.0), r.1)
  last-Attaches i fd flags w w₁ (err, w₂) f off (inl (e, s)) = rw e (
      inl (
        refl,
        inr (
          f,
          HookIs-Moved attached (slot usual i flags) (opposite i flags) (some fd) w w₁ w₂ off s,
        ),
      ))
  last-Attaches i fd flags w w₁ (err, w₂) f off (inr (n, e, s)) =
      rw e (inr (refl, inr (f, HookIs-SameHooks attached (opposite i flags) none w w₁ w₂ off s)))

  again-Attaches :
      (i : ℤ) (fd flags : ℕ) (w w₁ : W) (off : ℤ × W)
      → is_forced flags ≡ true
      → SameHooks attached w w₁
      → Sets attached (opposite i flags) none w₁ off
      → Attaches attached usual i fd flags w (again links i flags (pos fd) off)
  again-Attaches i fd flags w w₁ (err, w₂) f same (inl (e, s)) = rw e (
      last-Attaches i fd flags w w₂ (links.set_link_xdp_fd i (pos fd) flags w₂) f
        (SameHooks-HookIs attached (opposite i flags) none w w₁ w₂ same s)
        (laws.attach_law i fd flags w₂))
  again-Attaches i fd flags w w₁ (err, w₂) f same (inr (n, e, s)) =
      rw e (inr (refl, inl (SameHooks-SameHooks attached w w₁ w₂ same s)))

  after_attempt-Attaches :
      (i : ℤ) (fd flags : ℕ) (w : W) (attempt : ℤ × W)
      → Sets attached (slot usual i flags) (some fd) w attempt
      → Attaches attached usual i fd flags w (after_attempt links i flags (pos fd) attempt)
  after_attempt-Attaches i fd flags w (err, w₁) (inl (e, s)) = rw e (inl (refl, inl s))
  after_attempt-Attaches i fd flags w (err, w₁) (inr (n, e, s)) =
      rw e (elim (Bool-cases (already_exists (negsuc n) && is_forced flags)) [
        | inl y ↦ rw y (
            again-Attaches i fd flags w w₁ (links.set_link_xdp_fd i minus_one (other_mode flags) w₁)
              (&&-right (already_exists (negsuc n)) (is_forced flags) y) s
              (subst
                (λ k.
                  Sets attached k none w₁ (links.set_link_xdp_fd i minus_one (other_mode flags) w₁))
                (slot-other_mode usual i flags) (laws.detach_law i (other_mode flags) w₁)))
        | inr d ↦ rw d (inr (refl, inl s))
      ])

  -- On a system where a call of `bpf_set_link_xdp_fd` sets the hook of the device for the mode of the
  -- flags, or fails and changes nothing, the status 0 means that the program is attached to that hook.
  -- The only other status is 30. All other hooks are as before, and with the status 30 that one too,
  -- except that where the flags allow to replace a program the hook of the opposite type may have
  -- been emptied: that of the native mode if the flags ask for the generic one, and else that of the
  -- generic mode.
  pub xdp_link_attach-Attaches :
      (i : ℤ) (fd flags : ℕ) (w : W)
      → Attaches attached usual i fd flags w (xdp_link_attach links i flags (pos fd) w)
  unfolding xdp_link_attach
  xdp_link_attach-Attaches i fd flags w =
      after_attempt-Attaches i fd flags w (links.set_link_xdp_fd i (pos fd) flags w)
        (laws.attach_law i fd flags w)
