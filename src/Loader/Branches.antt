-- ===== src/Loader/Branches.antt =====
-- The ways that the loader ends, and what is attached to its device then.
use new_ip_linux.Common.{ℕ, ◌≡◌, ◌⊎◌, true, false, Option, none}
use new_ip_linux.Common.Int.{ℤ}
use new_ip_linux.Params.{Config, is_unset, exit_ok, exit_fail_option, exit_fail_xdp, exit_fail_bpf}
use new_ip_linux.Host.{Links, Objects}
use new_ip_linux.Attach.Link.{Mode, Slot, slot, SameHooks, HookIs, Linked, Spared}
use new_ip_linux.Loading.Attached.{IsChosen}
use new_ip_linux.Loader.{Loaded, finished, with_pin_dir}

module _ {W : Type 0} (attached : W → Slot → Option ℕ) (usual : ℤ → Mode) (objects : Objects W)
    (links : Links W) where
  -- What unloading leaves of the hooks: with the status 0 they are as before if no program was there
  -- for the flags, and else the hook for the flags is empty; with the status 30 they are as before.
  abbrev pub Unloads : Config → (status : ℕ) → (w w' : W) → Type 0
  Unloads c status w w' =
      ((status ≡ exit_ok)
        × (((links.get_link_xdp_id c.ifindex c.xdp_flags w).1 ≡ 0) × SameHooks attached w w'
            ⊎ HookIs attached (slot usual c.ifindex c.xdp_flags) none w w'))
      ⊎ ((status ≡ exit_fail_xdp) × SameHooks attached w w')

  -- The ends of the loader: no device was given; the program was to be taken off; or a program was to
  -- be attached, and it is, with the status 40 if its maps could not be pinned, or it is not.
  pub data LoaderEnds (c : Config) (w : W) : Loaded W → Type 0 where
    no_device : is_unset c.ifindex ≡ true → LoaderEnds c w (finished exit_fail_option w)
    unloaded :
        {status : ℕ} {w' : W}
        → c.do_unload ≡ true
        → Unloads c status w w'
        → LoaderEnds c w (finished status w')
    loaded :
        {status obj fd : ℕ} {w' : W}
        → c.do_unload ≡ false
        → IsChosen objects (with_pin_dir c) obj fd
        → Linked attached usual c.ifindex fd c.xdp_flags w w'
        → (status ≡ exit_ok) ⊎ ((c.reuse_maps ≡ false) × (status ≡ exit_fail_bpf))
        → LoaderEnds c w (finished status w')
    not_loaded :
        {status : ℕ} {w' : W}
        → c.do_unload ≡ false
        → ((status ≡ exit_fail_bpf) × SameHooks attached w w')
          ⊎ ((status ≡ exit_fail_xdp) × Spared attached c.ifindex c.xdp_flags w w')
        → LoaderEnds c w (finished status w')

module _ {W : Type 0} (attached : W → Slot → Option ℕ) (objects : Objects W) where
  -- A status of 0 or 40, with the hooks as they were.
  abbrev PinEnds : W → ℕ × W → Type 0
  PinEnds w (status, w') = ((status ≡ exit_ok) ⊎ (status ≡ exit_fail_bpf)) × SameHooks attached w w'
