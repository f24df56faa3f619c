-- ===== src/Pinned.antt =====
-- xdp/common/common_user_bpf_xdp.c: the maps that are pinned in a directory, what is known of them and
-- the names of the actions that their entries are for.
pub mod Info
mod Tests
use new_ip_linux.Common.{
  ℕ, Bool, true, false, Option, none, some, ◌==◌, ◌&&◌, not, ltb, ◌-◌, take, if◌then◌else◌, Str,
  List, [], ◌∷◌,
}
use new_ip_linux.Common.Int.{ℤ, pos, negsuc}
use new_ip_linux.Params.{exit_fail, exit_fail_bpf}
use new_ip_linux.Host.{path_to, path_max}
use new_ip_linux.Attach.{is_zero}

-- What the code uses of `struct bpf_map_info` of the kernel's headers.
pub record MapInfo : Type 0 where
  pub type : ℕ
  pub id : ℕ
  pub key_size : ℕ
  pub value_size : ℕ
  pub max_entries : ℕ

-- A size is expected, which 0 is not, and another one is there.
abbrev pub differs : (expected actual : ℕ) → Bool
differs expected actual = not (expected == 0) && not (expected == actual)

unfoldable pub check_map_fd_info : (info exp : MapInfo) → ℕ
check_map_fd_info info exp =
    if differs exp.key_size info.key_size
    then exit_fail
    else if differs exp.value_size info.value_size
    then exit_fail
    else if differs exp.max_entries info.max_entries
    then exit_fail
    else if differs exp.type info.type
    then exit_fail
    else 0

-- `xdp_action_names`, of `XDP_ABORTED` to `XDP_REDIRECT` and `XDP_UNKNOWN`; the result none is NULL.
pub data ActionName : Type 0 where
  xdp_aborted xdp_drop xdp_pass xdp_tx xdp_redirect xdp_unknown : ActionName

abbrev pub nth : List ActionName → ℕ → Option ActionName
nth [] n = none
nth (x ∷ xs) n = let rest = nth xs (n - 1) in if n == 0 then some x else rest

unfoldable pub action2str : (action : ℕ) → Option ActionName
action2str action =
    if ltb action 6
    then nth (xdp_aborted ∷ xdp_drop ∷ xdp_pass ∷ xdp_tx ∷ xdp_redirect ∷ xdp_unknown ∷ []) action
    else none

-- `bpf_obj_get` and `bpf_obj_get_info_by_fd`, and `close`.
pub record Maps (W : Type 0) : Type 0 where
  pub obj_get : (path : Str) → W → ℤ × W
  pub info_by_fd : (fd : ℤ) → W → ℤ × MapInfo
  pub close : (fd : ℤ) → W → W

-- The path in a buffer of `PATH_MAX` bytes, cut off behind the last that has room.
abbrev pub path_in : (dir name : Str) → Str
path_in dir name = take (path_max - 1) (path_to dir name)

module _ {W : Type 0} (maps : Maps W) where
  -- The information is asked for, or not, where `info` is NULL. The result on an error is positive.
  abbrev pub after_info : (fd : ℕ) → (info : MapInfo) → ℤ × MapInfo → ℤ × MapInfo
  after_info fd info (err, answer) =
      if is_zero err then (pos fd, answer) else (pos exit_fail_bpf, info)

  abbrev pub after_get : (info : Option MapInfo) → ℤ × W → (ℤ × Option MapInfo) × W
  after_get info (negsuc e, w) = ((negsuc e, info), w)
  after_get none (pos fd, w) = ((pos fd, none), w)
  after_get (some i) (pos fd, w) =
      let r = after_info fd i (maps.info_by_fd (pos fd) w) in ((r.0, some (r.1)), w)

  unfoldable pub open_bpf_map_file :
      (pin_dir mapname : Str) → (info : Option MapInfo) → W → (ℤ × Option MapInfo) × W
  open_bpf_map_file pin_dir mapname info w =
      after_get info (maps.obj_get (path_in pin_dir mapname) w)
