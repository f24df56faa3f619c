-- ===== src/Attach.antt =====
-- xdp/common/common_user_bpf_xdp.c: putting a program on the XDP hook of a device and taking it off.
pub mod Link
pub mod Put
pub mod Off
pub mod Tests
use new_ip_linux.Common.{ℕ, Bool, true, false, ◌==◌, ◌&&◌, not, if◌then◌else◌, bit_and}
use new_ip_linux.Common.Int.{ℤ, pos, negsuc, minus_one}
use new_ip_linux.Params.{
  exit_ok, exit_fail, exit_fail_xdp, xdp_flags_update_if_noexist, xdp_flags_skb_mode,
  xdp_flags_drv_mode, set_mode,
}
use new_ip_linux.Host.{Links, is_negative, eexist}

-- `err == -EEXIST`
abbrev pub already_exists : ℤ → Bool
already_exists (pos n) = false
already_exists (negsuc n) = n == 16

-- `!err`
abbrev pub is_zero : ℤ → Bool
is_zero (pos n) = n == 0
is_zero (negsuc n) = false

-- A program may be replaced.
abbrev pub is_forced : (flags : ℕ) → Bool
is_forced flags = bit_and flags xdp_flags_update_if_noexist == 0

-- The flags of the other mode: native for generic, else generic.
abbrev pub other_mode : (flags : ℕ) → ℕ
other_mode flags =
    set_mode
      (if bit_and flags xdp_flags_skb_mode == 0 then xdp_flags_skb_mode else xdp_flags_drv_mode)
      flags

abbrev pub status_of : (err : ℤ) → ℕ
status_of err = if is_negative err then exit_fail_xdp else exit_ok

module _ {W : Type 0} (links : Links W) where
  -- The program of the other mode is taken off; the first attempt is made again if that succeeds.
  abbrev pub again : (ifindex : ℤ) → (flags : ℕ) → (fd : ℤ) → (taken_off : ℤ × W) → ℕ × W
  again i flags fd (err, w) =
      if is_zero err
      then (let r = links.set_link_xdp_fd i fd flags w in (status_of (r.0), r.1))
      else (status_of err, w)

  abbrev pub after_attempt : (ifindex : ℤ) → (flags : ℕ) → (fd : ℤ) → (attempt : ℤ × W) → ℕ × W
  after_attempt i flags fd (err, w) =
      if already_exists err && is_forced flags
      then again i flags fd (links.set_link_xdp_fd i minus_one (other_mode flags) w)
      else (status_of err, w)

  unfoldable pub xdp_link_attach : (ifindex : ℤ) → (flags : ℕ) → (fd : ℤ) → W → ℕ × W
  xdp_link_attach i flags fd w = after_attempt i flags fd (links.set_link_xdp_fd i fd flags w)

  -- A program is taken off if it is the one that is expected; 0 expects any.
  abbrev pub after_id : (ifindex : ℤ) → (flags : ℕ) → (expected : ℕ) → (current : ℤ × ℕ) → W → ℕ × W
  after_id i flags expected (err, id) w =
      if not (is_zero err)
      then (exit_fail_xdp, w)
      else if id == 0
      then (exit_ok, w)
      else if not (expected == 0) && not (id == expected)
      then (exit_fail, w)
      else (let r = links.set_link_xdp_fd i minus_one flags w in (status_of (r.0), r.1))

  unfoldable pub xdp_link_detach : (ifindex : ℤ) → (flags : ℕ) → (expected_prog_id : ℕ) → W → ℕ × W
  xdp_link_detach i flags expected w = after_id i flags expected (links.get_link_xdp_id i flags w) w
