-- ===== src/Attach/Off.antt =====
-- Taking a program off a device.
use new_ip_linux.Common.{
  ℕ, ◌≡◌, ◌≢◌, refl, ◌⊎◌, inl, inr, true, false, Option, none, Bool-cases, ◌&&◌, ◌==◌, not, arith,
  if◌then◌else◌, ==_iff, suc-nonzero, zero, suc,
}
use new_ip_linux.Common.Int.{ℤ, pos, negsuc, minus_one}
use new_ip_linux.Host.{Links}
use new_ip_linux.Params.{exit_ok, exit_fail, exit_fail_xdp}
use new_ip_linux.Attach
use new_ip_linux.Attach.{xdp_link_detach, after_id, is_zero}
use new_ip_linux.Attach.Link.{Mode, Slot, slot, SameHooks, HookIs, Sets, LinksLaws}

-- The ways that detaching ends, by what is known of the current program: no program, another one
-- than the one expected, the program taken off, or an error.
pub data Detached {W : Type 0} (attached : W → Slot → Option ℕ) (i : Slot) (expected : ℕ) (w : W)
    : ℤ × ℕ → ℕ × W → Type 0 where
  unknown :
      {err : ℤ} {id : ℕ}
      → is_zero err ≡ false
      → Detached attached i expected w (err, id) (exit_fail_xdp, w)
  nothing : {id : ℕ} → id ≡ 0 → Detached attached i expected w (pos 0, id) (exit_ok, w)
  mismatch :
      {id : ℕ}
      → id ≢ 0
      → expected ≢ 0
      → id ≢ expected
      → Detached attached i expected w (pos 0, id) (exit_fail, w)
  taken_off :
      {id : ℕ} {w' : W}
      → id ≢ 0
      → (expected ≡ 0) ⊎ (id ≡ expected)
      → HookIs attached i none w w'
      → Detached attached i expected w (pos 0, id) (exit_ok, w')
  failed :
      {id : ℕ} {w' : W}
      → id ≢ 0
      → SameHooks attached w w'
      → Detached attached i expected w (pos 0, id) (exit_fail_xdp, w')

module _ {W : Type 0} (attached : W → Slot → Option ℕ) (usual : ℤ → Mode) (links : Links W)
    (laws : LinksLaws attached usual links) where
  off-Detached :
      (i : Slot) (expected id : ℕ) (w : W) (r : ℤ × W)
      → id ≢ 0
      → (expected ≡ 0) ⊎ (id ≡ expected)
      → Sets attached i none w r
      → Detached attached i expected w (pos 0, id) (Attach.status_of (r.0), r.1)
  off-Detached i expected id w (err, w') known agrees (inl (e, s)) = rw e (taken_off known agrees s)
  off-Detached i expected id w (err, w') known agrees (inr (n, e, s)) = rw e (failed known s)

  mismatched :
      (expected id : ℕ)
      → (not (expected == 0) && not (id == expected)) ≡ true
      → (expected ≢ 0) × (id ≢ expected)
  mismatched expected id h = ground arith

  agreeing :
      (expected id : ℕ)
      → (not (expected == 0) && not (id == expected)) ≡ false
      → (expected ≡ 0) ⊎ (id ≡ expected)
  agreeing expected id h = ground arith

  nonzero : (id : ℕ) → (id == 0) ≡ false → id ≢ 0
  nonzero id h = ground arith

  -- The tests on the number of a current program.
  known-Detached :
      (i : ℤ) (flags expected id : ℕ) (w : W)
      → id ≢ 0
      → Detached attached
          (slot usual i flags)
          expected
          w
          (pos 0, id)
          (if not (expected == 0) && not (id == expected)
            then (exit_fail, w)
            else (let r = links.set_link_xdp_fd i minus_one flags w in
                (Attach.status_of (r.0), r.1)))
  known-Detached i flags expected id w known =
      elim (Bool-cases (not (expected == 0) && not (id == expected))) [
        | inl y ↦
            rw y (mismatch known ((mismatched expected id y).0) ((mismatched expected id y).1))
        | inr n ↦ rw n (
            off-Detached (slot usual i flags) expected id w
              (links.set_link_xdp_fd i minus_one flags w) known (agreeing expected id n)
              (laws.detach_law i flags w))
      ]

  read-Detached :
      (i : ℤ) (flags expected id : ℕ) (w : W)
      → Detached attached
          (slot usual i flags)
          expected
          w
          (pos 0, id)
          (after_id links i flags expected (pos 0, id) w)
  read-Detached i flags expected id w = elim (Bool-cases (id == 0)) [
    | inl y ↦ rw y (nothing ((==_iff id 0).0 y))
    | inr n ↦ rw n (known-Detached i flags expected id w (nonzero id n))
  ]

  after_id-Detached :
      (i : ℤ) (flags expected : ℕ) (current : ℤ × ℕ) (w : W)
      → Detached attached
          (slot usual i flags)
          expected
          w
          current
          (after_id links i flags expected current w)
  after_id-Detached i flags expected (pos zero, id) w = read-Detached i flags expected id w
  after_id-Detached i flags expected (pos (suc n), id) w =
      rw (suc-nonzero n) (unknown (suc-nonzero n))
  after_id-Detached i flags expected (negsuc n, id) w = unknown refl

  -- On a system where a call of `bpf_set_link_xdp_fd` sets the hook of the device for the mode of the
  -- flags, or fails and changes nothing, detaching ends in one of five ways. If the number of the
  -- current program for these flags cannot be read the status is 30 and the state is the same. If
  -- there is no program it is 0 and the state is the same. If a program is expected and another one
  -- is there it is 1 and the state is the same. Else the hook for the mode of the flags is emptied,
  -- with the status 0 and all other hooks as before, or the status is 30 and all hooks are as before.
  pub xdp_link_detach-Detached :
      (i : ℤ) (flags expected : ℕ) (w : W)
      → Detached attached
          (slot usual i flags)
          expected
          w
          (links.get_link_xdp_id i flags w)
          (xdp_link_detach links i flags expected w)
  unfolding xdp_link_detach
  xdp_link_detach-Detached i flags expected w =
      after_id-Detached i flags expected (links.get_link_xdp_id i flags w) w
