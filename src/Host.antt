-- ===== src/Host.antt =====
-- What the programs in user space call of the vendored libbpf and of the system, as interfaces over
-- the states W of the system. A call returns its result and the next state; a negative result is an
-- error's number, and pointers are addresses, `none` where the call returns NULL or an error.
use new_ip_linux.Common.{ℕ, ◌-◌, Bool, true, false, Option, List, Str, ◌∷◌, ◌++◌}
use new_ip_linux.Common.Int.{ℤ, pos, negsuc}

-- `x < 0`
abbrev pub is_negative : ℤ → Bool
is_negative (pos n) = false
is_negative (negsuc n) = true

-- The error of number n, which is at least 1.
abbrev pub error : ℕ → ℤ
error n = negsuc (n - 1)

-- ENOENT, EBUSY, EEXIST, EINVAL, ENAMETOOLONG and EOPNOTSUPP
abbrev pub enoent : ℕ
enoent = 2

abbrev pub eexist : ℕ
eexist = 17

abbrev pub einval : ℕ
einval = 22

abbrev pub enametoolong : ℕ
enametoolong = 36

-- `PATH_MAX`
abbrev pub path_max : ℕ
path_max = 4096

-- "%s/%s"
abbrev pub path_to : (dir name : Str) → Str
path_to dir name = dir ++ 47 ∷ name

-- The XDP hooks of the devices: `bpf_set_link_xdp_fd` and `bpf_get_link_xdp_id`.
pub record Links (W : Type 0) : Type 0 where
  pub set_link_xdp_fd : (ifindex : ℤ) → (fd : ℤ) → (flags : ℕ) → W → ℤ × W
  pub get_link_xdp_id : (ifindex : ℤ) → (flags : ℕ) → W → ℤ × ℕ

-- The objects of BPF, their programs and their maps. `obj_open` and `prog_load` give the address of
-- an object.
pub record Objects (W : Type 0) : Type 0 where
  pub obj_open : (file : Str) → W → Option ℕ × W
  pub prog_load : (file : Str) → (ifindex : ℤ) → W → (ℤ × ℕ) × W
  pub obj_load : (obj : ℕ) → W → ℤ × W
  pub obj_close : (obj : ℕ) → W → W
  pub programs : (obj : ℕ) → W → List ℕ
  pub find_by_title : (obj : ℕ) → (title : Str) → W → Option ℕ
  pub set_type : (prog : ℕ) → (type : ℕ) → W → W
  pub set_program_ifindex : (prog : ℕ) → (ifindex : ℤ) → W → W
  pub set_attach_type : (prog : ℕ) → (type : ℕ) → W → W
  pub title : (prog : ℕ) → W → Str
  pub program_fd : (prog : ℕ) → W → ℤ
  pub maps : (obj : ℕ) → W → List ℕ
  pub map_name : (map : ℕ) → W → Str
  pub is_offload_neutral : (map : ℕ) → W → Bool
  pub set_map_ifindex : (map : ℕ) → (ifindex : ℤ) → W → W
  pub reuse_fd : (map : ℕ) → (fd : ℤ) → W → ℤ × W
  pub map_fd : (map : ℕ) → W → ℤ
  pub map_pin : (map : ℕ) → (path : Str) → W → ℤ × W
  pub obj_get : (path : Str) → W → ℤ × W
  pub unpin_maps : (obj : ℕ) → (path : Str) → W → ℤ × W
  pub pin_maps : (obj : ℕ) → (path : Str) → W → ℤ × W
  pub access : (path : Str) → W → Bool
