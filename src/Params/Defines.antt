-- ===== src/Params/Defines.antt =====
-- xdp/common/common_defines.h: the settings of the programs in user space, the statuses that they exit
-- with, and the flags of the kernel's headers that they set.
use new_ip_linux.Common.{ℕ, ◌-◌, Bool, false, [], ◌∷◌, ltb, ◌==◌, if◌then◌else◌, Str, Buf, text_of}
use new_ip_linux.Common.Int.{ℤ, pos, negsuc}

-- `EXIT_OK`, `EXIT_FAIL`, `EXIT_FAIL_OPTION`, `EXIT_FAIL_XDP` and `EXIT_FAIL_BPF`
abbrev pub exit_ok : ℕ
exit_ok = 0

abbrev pub exit_fail : ℕ
exit_fail = 1

abbrev pub exit_fail_option : ℕ
exit_fail_option = 2

abbrev pub exit_fail_xdp : ℕ
exit_fail_xdp = 30

abbrev pub exit_fail_bpf : ℕ
exit_fail_bpf = 40

-- `IF_NAMESIZE`
abbrev pub if_namesize : ℕ
if_namesize = 16

-- `char *ifname`: NULL, or the buffer beside it.
pub data Name : Type 0 where
  null : Name
  buffer : Name

-- The name as `%s` prints it, NULL in the way of glibc: "(null)".
unfoldable pub name_of : Name → Buf → Str
name_of null b = 40 ∷ 110 ∷ 117 ∷ 108 ∷ 108 ∷ 41 ∷ []
name_of buffer b = text_of b

-- `struct config`
pub record Config : Type 0 where
  pub xdp_flags : ℕ
  pub ifindex : ℤ
  pub ifname : Name
  pub ifname_buf : Buf
  pub redirect_ifindex : ℤ
  pub redirect_ifname : Name
  pub redirect_ifname_buf : Buf
  pub do_unload : Bool
  pub reuse_maps : Bool
  pub pin_dir : Buf
  pub filename : Buf
  pub progsec : Buf
  pub src_mac : Buf
  pub dest_mac : Buf
  pub xsk_bind_flags : ℕ
  pub xsk_if_queue : ℤ
  pub xsk_poll_mode : Bool

-- The flags of the kernel's headers that the options set, and the complement of 32 bits.
abbrev pub xdp_flags_update_if_noexist : ℕ
xdp_flags_update_if_noexist = 1

abbrev pub xdp_flags_skb_mode : ℕ
xdp_flags_skb_mode = 2

abbrev pub xdp_flags_drv_mode : ℕ
xdp_flags_drv_mode = 4

abbrev pub xdp_flags_hw_mode : ℕ
xdp_flags_hw_mode = 8

abbrev pub xdp_flags_modes : ℕ
xdp_flags_modes = 14

abbrev pub xdp_copy : ℕ
xdp_copy = 2

abbrev pub xdp_zerocopy : ℕ
xdp_zerocopy = 4

abbrev pub bit_not32 : ℕ → ℕ
bit_not32 n = 4294967295 - n

-- `ifindex == -1`
abbrev pub is_unset : ℤ → Bool
is_unset (pos n) = false
is_unset (negsuc n) = n == 0

-- An `unsigned int` that is assigned to an `int`.
abbrev pub to_int : ℕ → ℤ
to_int n = if ltb n 2147483648 then pos n else negsuc (4294967295 - n)
