-- ===== src/Loader.antt =====
-- xdp/loader/xdp_loader.c: the program that loads an XDP program for a device and pins its maps, or
-- takes the program off again.
pub mod Branches
mod Tests
use new_ip_linux.Common.{
  ℕ, Bool, true, false, Option, none, some, List, [], ◌∷◌, ◌++◌, ◌==◌, if◌then◌else◌, Str, text_of,
  strncpy, zeros, bit_or,
}
use new_ip_linux.Common.Int.{ℤ, pos, negsuc, minus_one}
use new_ip_linux.Params.{
  Config, name_of, is_unset, null, exit_ok, xdp_flags_update_if_noexist, xdp_flags_drv_mode,
  exit_fail_option, exit_fail_bpf,
}
use new_ip_linux.Params.Table
use new_ip_linux.Params.Table.{CommandLine}
use new_ip_linux.Host.{Links, Objects, path_to, path_max}
use new_ip_linux.Attach.{xdp_link_detach, is_zero}
use new_ip_linux.Loading.{Ends, returns, exits, load_bpf_and_xdp_attach}
use new_ip_linux.Pinned.{path_in}

-- "/sys/fs/bpf", "xdp_stats_map" and "xdp_prog_kern.o"
abbrev pub pin_basedir : Str
pin_basedir = 47 ∷ 115 ∷ 121 ∷ 115 ∷ 47 ∷ 102 ∷ 115 ∷ 47 ∷ 98 ∷ 112 ∷ 102 ∷ []

abbrev pub map_name : Str
map_name = 120 ∷ 100 ∷ 112 ∷ 95 ∷ 115 ∷ 116 ∷ 97 ∷ 116 ∷ 115 ∷ 95 ∷ 109 ∷ 97 ∷ 112 ∷ []

abbrev pub default_filename : Str
default_filename =
    120 ∷ 100 ∷ 112 ∷ 95 ∷ 112 ∷ 114 ∷ 111 ∷ 103 ∷ 95 ∷ 107 ∷ 101 ∷ 114 ∷ 110 ∷ 46 ∷ 111 ∷ []

-- The settings before the options are read.
abbrev pub default_config : Config
default_config = record {
  xdp_flags = bit_or xdp_flags_update_if_noexist xdp_flags_drv_mode;
  ifindex = minus_one;
  ifname = null;
  ifname_buf = zeros 16;
  redirect_ifindex = pos 0;
  redirect_ifname = null;
  redirect_ifname_buf = zeros 16;
  do_unload = false;
  reuse_maps = false;
  pin_dir = zeros 512;
  filename = strncpy 512 default_filename;
  progsec = zeros 32;
  src_mac = zeros 18;
  dest_mac = zeros 18;
  xsk_bind_flags = 0;
  xsk_if_queue = pos 0;
  xsk_poll_mode = false;
}

-- The directory of the pinned maps; its text is shorter than the 512 bytes for it.
abbrev pub with_pin_dir : Config → Config
with_pin_dir c = record c {
  pin_dir = strncpy 512 (path_to pin_basedir (name_of c.ifname c.ifname_buf));
}

-- `main` returns or exits with a status, or the options end the program.
pub data Loaded (W : Type 0) : Type 0 where
  finished : (status : ℕ) → W → Loaded W
  by_options : CommandLine → Loaded W

module _ {W : Type 0} (objects : Objects W) where
  abbrev pub pinned : ℤ × W → ℕ × W
  pinned (err, w) = if is_zero err then (0, w) else (exit_fail_bpf, w)

  abbrev pub after_unpinning : (obj : ℕ) → (dir : Str) → ℤ × W → ℕ × W
  after_unpinning obj dir (err, w) =
      if is_zero err then pinned (objects.pin_maps obj dir w) else (exit_fail_bpf, w)

  -- Maps of a program that was there before are unpinned first.
  unfoldable pub pin_maps_in_bpf_object : (obj : ℕ) → Config → W → ℕ × W
  pin_maps_in_bpf_object obj c w =
      let dir = text_of c.pin_dir in
      let file = path_in (path_to pin_basedir (name_of c.ifname c.ifname_buf)) map_name in
      if objects.access file w
      then after_unpinning obj dir (objects.unpin_maps obj dir w)
      else pinned (objects.pin_maps obj dir w)

module _ {W : Type 0} (objects : Objects W) (links : Links W) where
  abbrev pub finish : ℕ × W → Loaded W
  finish (status, w) = finished status w

  abbrev pub after_loading : Ends W → Loaded W
  after_loading (exits status w) = finished status w
  after_loading (returns obj c w) =
      if c.reuse_maps then finished exit_ok w else finish (pin_maps_in_bpf_object objects obj c w)

  unfoldable pub main_with : Config → W → Loaded W
  main_with c w =
      if is_unset c.ifindex
      then finished exit_fail_option w
      else if c.do_unload
      then finish (xdp_link_detach links c.ifindex c.xdp_flags 0 w)
      else after_loading (load_bpf_and_xdp_attach objects links (with_pin_dir c) w)

  unfoldable pub loader_main : CommandLine → W → Loaded W
  loader_main (Table.returns c verbose) w = main_with c w
  loader_main (Table.exits status printed) w = by_options (Table.exits status printed)
  loader_main Table.faults w = by_options Table.faults
