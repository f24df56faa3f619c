-- ===== src/Loading.antt =====
-- xdp/common/common_user_bpf_xdp.c: loading the programs of a file into the kernel, with the maps of
-- the file or with maps that are pinned, and attaching one of them.
pub mod Reuse
pub mod Keeps
pub mod Attached
pub mod Tests
use new_ip_linux.Common.{
  ℕ, Bool, true, false, Option, none, some, List, [], ◌∷◌, ◌==◌, leb, if◌then◌else◌, bit_and,
  length, Str, Buf, text_of, strncpy,
}
use new_ip_linux.Common.Int.{ℤ, pos, negsuc}
use new_ip_linux.Params.{Config, exit_fail_bpf, xdp_flags_hw_mode}
use new_ip_linux.Host.{
  Links, Objects, is_negative, error, enoent, einval, enametoolong, path_max, path_to,
}
use new_ip_linux.Attach.{xdp_link_attach, is_zero}

-- BPF_PROG_TYPE_XDP
abbrev pub prog_type_xdp : ℕ
prog_type_xdp = 6

module _ {W : Type 0} (objects : Objects W) where
  -- The programs of the object are set to XDP and to the device.
  unfoldable pub set_programs : (ifindex : ℤ) → (progs : List ℕ) → W → W
  set_programs i [] w = w
  set_programs i (p ∷ ps) w =
      set_programs i ps (objects.set_program_ifindex p i (objects.set_type p prog_type_xdp w))

  abbrev pub set_map : (ifindex : ℤ) → (map : ℕ) → W → W
  set_map i m w = if objects.is_offload_neutral m w then w else objects.set_map_ifindex m i w

  unfoldable pub set_maps : (ifindex : ℤ) → (maps : List ℕ) → W → W
  set_maps i [] w = w
  set_maps i (m ∷ ms) w = set_maps i ms (set_map i m w)

  abbrev pub first_of : List ℕ → Option ℕ
  first_of [] = none
  first_of (p ∷ ps) = some p

  -- An object without programs is an error.
  abbrev pub with_program : (obj : ℕ) → (first : Option ℕ) → Option ℕ
  with_program obj none = none
  with_program obj (some p) = some obj

  abbrev pub after_open : (ifindex : ℤ) → Option ℕ × W → Option ℕ × W
  after_open i (none, w) = (none, w)
  after_open i (some obj, w) =
      let ps = objects.programs obj w in
      let w₁ = set_programs i ps w in
      let w₂ = set_maps i (objects.maps obj w₁) w₁ in (with_program obj (first_of ps), w₂)

  unfoldable pub open_bpf_object : (file : Str) → (ifindex : ℤ) → W → Option ℕ × W
  open_bpf_object file i w = after_open i (objects.obj_open file w)

  abbrev pub after_load : (ℤ × ℕ) × W → Option ℕ × W
  after_load ((err, obj), w) = if is_zero err then (some obj, w) else (none, w)

  unfoldable pub load_bpf_object_file : (file : Str) → (ifindex : ℤ) → W → Option ℕ × W
  load_bpf_object_file file i w = after_load (objects.prog_load file i w)

  -- The rest of a loop after a call, which ends it by an error.
  abbrev pub and_next : ℤ × W → (W → ℤ × W) → ℤ × W
  and_next (err, w) rest = if is_zero err then rest w else (err, w)

  abbrev pub reuse_descriptor : (map : ℕ) → ℤ × W → ℤ × W
  reuse_descriptor m (pos fd, w) = objects.reuse_fd m (pos fd) w
  reuse_descriptor m (negsuc e, w) = (negsuc e, w)

  -- A map takes the descriptor of the pinned map of its name.
  unfoldable pub reuse_map : (path : Str) → (map : ℕ) → W → ℤ × W
  reuse_map path m w =
      let file = path_to path (objects.map_name m w) in
      if leb path_max (length file)
      then (error enametoolong, w)
      else reuse_descriptor m (objects.obj_get file w)

  unfoldable pub reuse_each : (path : Str) → (maps : List ℕ) → W → ℤ × W
  reuse_each path [] w = (pos 0, w)
  reuse_each path (m ∷ ms) w = and_next (reuse_map path m w) (reuse_each path ms)

  unfoldable pub reuse_maps : (obj : Option ℕ) → (path : Option Str) → W → ℤ × W
  reuse_maps none path w = (error enoent, w)
  reuse_maps (some obj) none w = (error einval, w)
  reuse_maps (some obj) (some path) w = reuse_each path (objects.maps obj w) w

  abbrev pub loaded_if : (obj : ℕ) → ℤ × W → Option ℕ × W
  loaded_if obj (err, w) = if is_zero err then (some obj, w) else (none, w)

  abbrev pub after_reuse : (obj : ℕ) → ℤ × W → Option ℕ × W
  after_reuse obj (err, w) =
      if is_zero err then loaded_if obj (objects.obj_load obj w) else (none, w)

  abbrev pub and_reuse : (path : Str) → Option ℕ × W → Option ℕ × W
  and_reuse path (none, w) = (none, w)
  and_reuse path (some obj, w) = after_reuse obj (reuse_maps (some obj) (some path) w)

  unfoldable pub load_bpf_object_file_reuse_maps :
      (file : Str) → (ifindex : ℤ) → (pin_dir : Str) → W → Option ℕ × W
  load_bpf_object_file_reuse_maps file i pin_dir w = and_reuse pin_dir (open_bpf_object file i w)

-- How loading ends: with an object and the settings, or with the end of the program.
pub data Ends (W : Type 0) : Type 0 where
  returns : (obj : ℕ) → Config → W → Ends W
  exits : (status : ℕ) → W → Ends W

-- `progsec[0]`
abbrev pub is_given : (progsec : Buf) → Bool
is_given [] = false
is_given (c ∷ b) = if c == 0 then false else true

module _ {W : Type 0} (objects : Objects W) where
  -- The program of the section that is given, else the first.
  abbrev pub chosen : (obj : ℕ) → Config → W → Option ℕ
  chosen obj c w =
      if is_given c.progsec
      then objects.find_by_title obj (text_of c.progsec) w
      else first_of objects (objects.programs obj w)

module _ {W : Type 0} (objects : Objects W) (links : Links W) where
  abbrev pub after_attach : (obj : ℕ) → Config → ℕ × W → Ends W
  after_attach obj c (status, w) = if status == 0 then returns obj c w else exits status w

  -- The descriptor has to be above 0.
  abbrev pub with_descriptor : (obj : ℕ) → Config → (fd : ℤ) → W → Ends W
  with_descriptor obj c (negsuc e) w = exits exit_fail_bpf w
  with_descriptor obj c (pos fd) w =
      if fd == 0
      then exits exit_fail_bpf w
      else after_attach obj c (xdp_link_attach links c.ifindex c.xdp_flags (pos fd) w)

  abbrev pub with_prog : (obj : ℕ) → Config → Option ℕ → W → Ends W
  with_prog obj c none w = exits exit_fail_bpf w
  with_prog obj c (some p) w =
      with_descriptor obj (record c { progsec = strncpy 32 (objects.title p w) })
        (objects.program_fd p w) w

  abbrev pub with_object : Config → Option ℕ × W → Ends W
  with_object c (none, w) = exits exit_fail_bpf w
  with_object c (some obj, w) = with_prog obj c (chosen objects obj c w) w

  -- The device of an offloaded program.
  abbrev pub offload_ifindex : Config → ℤ
  offload_ifindex c = if bit_and c.xdp_flags xdp_flags_hw_mode == 0 then pos 0 else c.ifindex

  unfoldable pub load_bpf_and_xdp_attach : Config → W → Ends W
  load_bpf_and_xdp_attach c w = with_object c (
      if c.reuse_maps
      then load_bpf_object_file_reuse_maps objects (text_of c.filename) (offload_ifindex c)
          (text_of c.pin_dir) w
      else load_bpf_object_file objects (text_of c.filename) (offload_ifindex c) w)
