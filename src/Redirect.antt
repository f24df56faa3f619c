-- ===== src/Redirect.antt =====
-- xdp/newip_router/xdp_prog_user.c: filling the map of static redirections, from 8-bit addresses to
-- interfaces, with the entries that stand in the settings' file name. The map of one interface is
-- opened under its directory. A read behind the buffer of the file name is `beyond`.
pub mod Entries
pub mod Runs
pub mod Delivery
pub mod Tests
mod FrameTests
use new_ip_linux.Common.{
  ℕ, zero, suc, ◌+◌, ◌-◌, ◌%◌, Bool, true, false, Option, none, some, List, [], ◌∷◌, ◌++◌, ◌==◌,
  ltb, if◌then◌else◌, Str, Buf, text_of,
}
use mathlib.Core.Option
use new_ip_linux.Common.Int.{ℤ, pos, negsuc, minus_one}
use new_ip_linux.Params.{Config, name_of, exit_ok, exit_fail_bpf}
use new_ip_linux.Params.Table
use new_ip_linux.Params.Table.{CommandLine}
use new_ip_linux.Host.{is_negative}
use new_ip_linux.Pinned.{MapInfo, Maps, open_bpf_map_file, path_in}

-- `bpf_map_update_elem` for a map from addresses to interfaces.
pub record Updates (W : Type 0) : Type 0 where
  pub update_elem : (fd : ℤ) → (key : ℕ) → (value : ℕ) → W → ℤ × W

-- How the program ends.
pub data Finished (W : Type 0) : Type 0 where
  returned : (status : ℕ) → W → Finished W
  beyond : Finished W
  by_options : CommandLine → Finished W
  out_of_fuel : Finished W

-- `strlen(buf)`, for a buffer with a zero.
unfoldable pub strlen : Buf → Option ℕ
strlen [] = none
strlen (zero ∷ b) = some 0
strlen (suc c ∷ b) = Option.map suc (strlen b)

abbrev pub with_length : {W : Type 0} → Option ℕ → (ℕ → Finished W) → Finished W
with_length none next = beyond
with_length (some n) next = next n

-- `buf[cur]`
unfoldable pub byte_at : Buf → (cur : ℕ) → Option ℕ
byte_at [] n = none
byte_at (c ∷ b) zero = some c
byte_at (c ∷ b) (suc n) = byte_at b n

abbrev pub and_byte : {A : Type 0} → Option ℕ → (ℕ → Option A) → Option A
and_byte none k = none
and_byte (some c) k = k c

abbrev pub cons_byte : ℕ → Option Str → Option Str
cons_byte c none = none
cons_byte c (some s) = some (c ∷ s)

-- The inner loop: `count` bytes from `cur` on.
unfoldable pub bytes_from : Buf → (count : ℕ) → (cur : ℕ) → Option Str
bytes_from b zero cur = some []
bytes_from b (suc n) cur =
    let rest = bytes_from b n (cur + 1) in and_byte (byte_at b cur) λ c. cons_byte c rest

abbrev pub and_name : (dst : ℕ) → Option Str → Option (ℕ × Str)
and_name dst none = none
and_name dst (some s) = some (dst, s)

-- The address at `cur`, a digit, and the bytes of the name, two behind it.
unfoldable pub entry_at : Buf → (cur : ℕ) → Option (ℕ × Str)
entry_at b cur =
    and_byte (byte_at b cur) λ c. and_name ((c + 256 - 48) % 256) (bytes_from b 5 (cur + 2))

-- "static_redirect_8b" and "/sys/fs/bpf"
abbrev pub redirect_map : Str
redirect_map =
    115 ∷ 116 ∷ 97 ∷ 116 ∷ 105 ∷ 99 ∷ 95 ∷ 114 ∷ 101 ∷ 100 ∷ 105 ∷ 114 ∷ 101 ∷ 99 ∷ 116 ∷ 95 ∷ 56
    ∷ 98 ∷ []

abbrev pub pin_basedir : Str
pin_basedir = 47 ∷ 115 ∷ 121 ∷ 115 ∷ 47 ∷ 102 ∷ 115 ∷ 47 ∷ 98 ∷ 112 ∷ 102 ∷ []

-- A failed update is -1.
abbrev pub redirected : {W : Type 0} → ℤ × W → ℤ × W
redirected (err, w) = if is_negative err then (minus_one, w) else (pos 0, w)

module _ {W : Type 0} (maps : Maps W) (updates : Updates W) (if_nametoindex : Str → ℕ)
    (stale : Buf) where
  unfoldable pub static_redirect_non_ip : (map_fd : ℤ) → (dst ifindex : ℕ) → W → ℤ × W
  static_redirect_non_ip fd dst i w = redirected (updates.update_elem fd dst i w)

  -- The name is read from an array of ten bytes, the last five of which are not set: `stale`. If
  -- there is no zero among them the model takes all ten; the source reads on behind the array.
  abbrev pub interface_of : (name : Str) → ℕ
  interface_of name = if_nametoindex (text_of (name ++ stale))

  abbrev pub after_update : ℤ × W → (W → Finished W) → Finished W
  after_update (err, w) next = if is_negative err then returned 1 w else next w

  abbrev pub after_entry : (map_fd : ℤ) → Option (ℕ × Str) → W → (W → Finished W) → Finished W
  after_entry fd none w next = beyond
  after_entry fd (some e) w next =
      after_update (static_redirect_non_ip fd (e.0) (interface_of (e.1)) w) next

  -- The loop over the entries, one unit of fuel for each.
  unfoldable pub redirect_rounds :
      (fuel : ℕ) → (filename : Buf) → (map_fd : ℤ) → (cur_pos : ℕ) → W → Finished W
  redirect_rounds zero b fd cur w = out_of_fuel
  redirect_rounds (suc n) b fd cur w =
      let rest = redirect_rounds n b fd (cur + 8) in
      with_length (strlen b)
        λ len. if ltb cur len then after_entry fd (entry_at b cur) w rest else returned exit_ok w

  abbrev pub after_map : (fuel : ℕ) → Config → (ℤ × Option MapInfo) × W → Finished W
  after_map n c ((negsuc e, answer), w) = returned exit_fail_bpf w
  after_map n c ((pos fd, answer), w) = redirect_rounds n c.filename (pos fd) 0 w

  unfoldable pub redirect_main : (fuel : ℕ) → CommandLine → W → Finished W
  redirect_main n (Table.returns c verbose) w = after_map n c (
      open_bpf_map_file maps (path_in pin_basedir (name_of c.ifname c.ifname_buf)) redirect_map none
        w)
  redirect_main n (Table.exits status printed) w = by_options (Table.exits status printed)
  redirect_main n Table.faults w = by_options Table.faults
