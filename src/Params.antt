-- ===== src/Params.antt =====
-- xdp/common/common_params.c with common_params.h and common_defines.h: the settings of the programs
-- in user space, the options that set them and the text of the help. `getopt_long` and
-- `if_nametoindex` are parameters. A run reads the options that `getopt_long` returned, each as its
-- value and the string `optarg`.
mod Defines
pub mod Runs
pub mod Bits
pub mod Modes
pub mod Device
pub mod Table
pub mod Entries
mod Tests
use new_ip_linux.Common.{
  ℕ, ◌-◌, ◌^◌, ◌+◌, Bool, true, false, List, [], ◌∷◌, ltb, leb, ◌==◌, if◌then◌else◌, length, Str,
  Buf, zeros, strncpy, text_of, bit_and, bit_or,
}
use new_ip_linux.Common.Int.{ℤ, pos, negsuc}
unfoldable pub use Defines.*

-- The labels of the `switch` on an option's value.
pub data Label : Type 0 where
  dev redirect_dev : Label
  auto_mode skb_mode native_mode offload_mode : Label
  force reuse unload poll_mode quiet queue : Label
  file section src dest : Label
  copy zero_copy help other : Label

-- 'd', 'r', 'A', 'S', 'N', 3, 'F', 'M', 'U', 'p', 'q', 'Q', 1, 2, 'L', 'R', 'c', 'z', 'h'
unfoldable pub label_of : (opt : ℕ) → Label
label_of opt =
    if opt == 100
    then dev
    else if opt == 114
    then redirect_dev
    else if opt == 65
    then auto_mode
    else if opt == 83
    then skb_mode
    else if opt == 78
    then native_mode
    else if opt == 3
    then offload_mode
    else if opt == 70
    then force
    else if opt == 77
    then reuse
    else if opt == 85
    then unload
    else if opt == 112
    then poll_mode
    else if opt == 113
    then quiet
    else if opt == 81
    then queue
    else if opt == 1
    then file
    else if opt == 2
    then section
    else if opt == 76
    then src
    else if opt == 82
    then dest
    else if opt == 99
    then copy
    else if opt == 122
    then zero_copy
    else if opt == 104
    then help
    else other

-- What an option comes to: new settings and `verbose`, or the end of the program, with the status
-- `exit_fail_option`, after `usage` in full or not.
pub data Parsed : Type 0 where
  parsed : Config → (verbose : Bool) → Parsed
  usage_exit : (full_help : Bool) → Parsed

-- `&= ~XDP_FLAGS_MODES`
unfoldable pub clear_modes : ℕ → ℕ
clear_modes flags = bit_and flags (bit_not32 xdp_flags_modes)

-- The mode flag is set, and all others are cleared.
unfoldable pub set_mode : (mode : ℕ) → ℕ → ℕ
set_mode mode flags = bit_or (clear_modes flags) mode

-- `&= ~XDP_FLAGS_UPDATE_IF_NOEXIST`
unfoldable pub clear_noexist : ℕ → ℕ
clear_noexist flags = bit_and flags (bit_not32 xdp_flags_update_if_noexist)

-- `xsk_bind_flags &= kept; xsk_bind_flags |= added`
unfoldable pub bind_flags : (kept added : ℕ) → ℕ → ℕ
bind_flags kept added flags = bit_or (bit_and flags kept) added

abbrev pub and_parse : Parsed → (Config → Bool → Parsed) → Parsed
and_parse (parsed c v) k = k c v
and_parse (usage_exit full) k = usage_exit full

module _ (if_nametoindex : Str → ℕ) where
  -- The device of a name, for the name's buffer.
  unfoldable pub set_dev : (name : Buf) → Config → Bool → Parsed
  set_dev name c v =
      let index = if_nametoindex (text_of name) in
      if index == 0
      then usage_exit false
      else parsed (record c { ifname = buffer; ifname_buf = name; ifindex = to_int index }) v

  unfoldable pub set_redirect_dev : (name : Buf) → Config → Bool → Parsed
  set_redirect_dev name c v =
      let index = if_nametoindex (text_of name) in
      if index == 0
      then usage_exit false
      else parsed
          (record c {
            redirect_ifname = buffer;
            redirect_ifname_buf = name;
            redirect_ifindex = to_int index;
          })
          v

module _ (if_nametoindex : Str → ℕ) (atoi : Str → ℤ) where
  -- The body of the `switch`. The option for the MAC address of the destination has no `break`.
  unfoldable pub handle : Label → (optarg : Str) → Config → (verbose : Bool) → Parsed
  handle dev a c v =
      if leb if_namesize (length a)
      then usage_exit false
      else set_dev if_nametoindex (strncpy if_namesize a) c v
  handle redirect_dev a c v =
      if leb if_namesize (length a)
      then usage_exit false
      else set_redirect_dev if_nametoindex (strncpy if_namesize a) c v
  handle auto_mode a c v = parsed (record c { xdp_flags = clear_modes c.xdp_flags }) v
  handle skb_mode a c v =
      parsed
        (record c {
          xdp_flags = set_mode xdp_flags_skb_mode c.xdp_flags;
          xsk_bind_flags = bind_flags xdp_zerocopy xdp_copy c.xsk_bind_flags;
        })
        v
  handle native_mode a c v =
      parsed (record c { xdp_flags = set_mode xdp_flags_drv_mode c.xdp_flags }) v
  handle offload_mode a c v =
      parsed (record c { xdp_flags = set_mode xdp_flags_hw_mode c.xdp_flags }) v
  handle force a c v = parsed (record c { xdp_flags = clear_noexist c.xdp_flags }) v
  handle reuse a c v = parsed (record c { reuse_maps = true }) v
  handle unload a c v = parsed (record c { do_unload = true }) v
  handle poll_mode a c v = parsed (record c { xsk_poll_mode = true }) v
  handle quiet a c v = parsed c false
  handle queue a c v = parsed (record c { xsk_if_queue = atoi a }) v
  handle file a c v = parsed (record c { filename = strncpy 512 a }) v
  handle section a c v = parsed (record c { progsec = strncpy 32 a }) v
  handle src a c v = parsed (record c { src_mac = strncpy 18 a }) v
  handle dest a c v =
      parsed
        (record c {
          dest_mac = strncpy 18 a;
          xsk_bind_flags = bind_flags xdp_zerocopy xdp_copy c.xsk_bind_flags;
        })
        v
  handle copy a c v =
      parsed (record c { xsk_bind_flags = bind_flags xdp_zerocopy xdp_copy c.xsk_bind_flags }) v
  handle zero_copy a c v =
      parsed (record c { xsk_bind_flags = bind_flags xdp_copy xdp_zerocopy c.xsk_bind_flags }) v
  handle help a c v = usage_exit true
  handle other a c v = usage_exit false

  -- The loop over the options that `getopt_long` returned before -1.
  unfoldable pub parse_options : List (ℕ × Str) → Config → (verbose : Bool) → Parsed
  parse_options [] c v = parsed c v
  parse_options (o ∷ os) c v = and_parse (handle (label_of (o.0)) (o.1) c v) (parse_options os)
