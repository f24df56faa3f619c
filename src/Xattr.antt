-- ===== src/Xattr.antt =====
-- xdp/common/common_libbpf.c: loading a file whose maps are taken from pinned files where there are
-- such, and are pinned there where there are not.
pub mod Pins
pub mod Settled
pub mod Backed
pub mod Ends
mod Tests
use new_ip_linux.Common.{
  ℕ, Bool, true, false, Option, none, some, List, [], ◌∷◌, ◌==◌, if◌then◌else◌, Str, same_str,
}
use new_ip_linux.Common.Int.{ℤ, pos, negsuc, minus_one}
use new_ip_linux.Host.{Objects, error, einval, enoent}
use new_ip_linux.Attach.{is_zero}
use new_ip_linux.Loading.{first_of, set_maps}

-- `struct bpf_pinned_map`
pub record PinnedMap : Type 0 where
  pub name : Str
  pub filename : Str
  pub map_fd : ℤ

-- `struct bpf_prog_load_attr_maps`, with its array of maps as a list.
pub record Attr : Type 0 where
  pub file : Option Str
  pub prog_type : ℕ
  pub expected_attach_type : ℕ
  pub ifindex : ℤ
  pub pinned_maps : List PinnedMap

-- The end: a read at NULL; an error; or 0, with the object, the descriptor and the array.
pub data Outcome (W : Type 0) : Type 0 where
  faults : Outcome W
  failed : (err : ℤ) → W → Outcome W
  done : (obj : ℕ) → (prog_fd : ℤ) → List PinnedMap → W → Outcome W

abbrev pub reset : List PinnedMap → List PinnedMap
reset [] = []
reset (p ∷ ps) = record p { map_fd = minus_one } ∷ reset ps

-- `fd > 0`
abbrev pub is_positive : ℤ → Bool
is_positive (pos n) = if n == 0 then false else true
is_positive (negsuc n) = false

-- `map_fd != -1`
abbrev pub is_opened : ℤ → Bool
is_opened (pos n) = true
is_opened (negsuc n) = if n == 0 then false else true

abbrev pub before : {W : Type 0} → PinnedMap → List PinnedMap × W → List PinnedMap × W
before p (ps, w) = (p ∷ ps, w)

module _ {W : Type 0} (objects : Objects W) where
  unfoldable pub prepare : Attr → (progs : List ℕ) → W → W
  prepare a [] w = w
  prepare a (p ∷ ps) w =
      let w₁ = objects.set_program_ifindex p a.ifindex w in
      prepare a ps
        (objects.set_attach_type p a.expected_attach_type (objects.set_type p a.prog_type w₁))

  -- A pinned file of the map's name: its descriptor replaces the map's, if it can be opened.
  abbrev pub after_get : (map : ℕ) → PinnedMap → ℤ × W → PinnedMap × W
  after_get m p (fd, w) =
      if is_positive fd then (record p { map_fd = fd }, (objects.reuse_fd m fd w).1) else (p, w)

  abbrev pub reuse_pin : (map : ℕ) → (mapname : Str) → PinnedMap → W → PinnedMap × W
  reuse_pin m name p w =
      if same_str name p.name then after_get m p (objects.obj_get p.filename w) else (p, w)

  unfoldable pub reuse_pins : (map : ℕ) → (mapname : Str) → List PinnedMap → W → List PinnedMap × W
  reuse_pins m name [] w = ([], w)
  reuse_pins m name (p ∷ ps) w =
      let r = reuse_pin m name p w in before (r.0) (reuse_pins m name ps (r.1))

  abbrev pub set_map : Attr → (map : ℕ) → W → W
  set_map a m w =
      if objects.is_offload_neutral m w then w else objects.set_map_ifindex m a.ifindex w

  -- The first loop over the maps. A name is read before the map is changed.
  unfoldable pub reuse_all : Attr → (maps : List ℕ) → List PinnedMap → W → List PinnedMap × W
  reuse_all a [] ps w = (ps, w)
  reuse_all a (m ∷ ms) ps w =
      let r = reuse_pins m (objects.map_name m w) ps (set_map a m w) in reuse_all a ms (r.0) (r.1)

  -- A map whose pinned file could not be opened is pinned there.
  abbrev pub after_pin : (map : ℕ) → PinnedMap → ℤ × W → PinnedMap × W
  after_pin m p (err, w) =
      if is_zero err then (record p { map_fd = objects.map_fd m w }, w) else (p, w)

  abbrev pub pin_one : (map : ℕ) → (mapname : Str) → PinnedMap → W → PinnedMap × W
  pin_one m name p w =
      if same_str name p.name
      then if is_opened p.map_fd then (p, w) else after_pin m p (objects.map_pin m p.filename w)
      else (p, w)

  unfoldable pub pin_each : (map : ℕ) → (mapname : Str) → List PinnedMap → W → List PinnedMap × W
  pin_each m name [] w = ([], w)
  pin_each m name (p ∷ ps) w = let r = pin_one m name p w in before (r.0) (pin_each m name ps (r.1))

  unfoldable pub pin_all : (maps : List ℕ) → List PinnedMap → W → List PinnedMap × W
  pin_all [] ps w = (ps, w)
  pin_all (m ∷ ms) ps w = let r = pin_each m (objects.map_name m w) ps w in pin_all ms (r.0) (r.1)

  abbrev pub finish : (obj prog : ℕ) → List PinnedMap × W → Outcome W
  finish obj p (ps, w) = done obj (objects.program_fd p w) ps w

  abbrev pub after_load : (obj prog : ℕ) → List PinnedMap → ℤ × W → Outcome W
  after_load obj p ps (err, w) =
      if is_zero err
      then finish obj p (pin_all (objects.maps obj w) ps w)
      else failed (error einval) (objects.obj_close obj w)

  abbrev pub with_first : (obj : ℕ) → (first : Option ℕ) → List PinnedMap × W → Outcome W
  with_first obj none (ps, w) = failed (error enoent) (objects.obj_close obj w)
  with_first obj (some p) (ps, w) = after_load obj p ps (objects.obj_load obj w)

  abbrev pub after_open : Attr → Option ℕ × W → Outcome W
  after_open a (none, w) = failed (error enoent) w
  after_open a (some obj, w) =
      let progs = objects.programs obj w in
      let w₁ = prepare a progs w in
      with_first obj (first_of objects progs)
        (reuse_all a (objects.maps obj w₁) (reset a.pinned_maps) w₁)

  abbrev pub with_file : Attr → Option Str → W → Outcome W
  with_file a none w = failed (error einval) w
  with_file a (some file) w = after_open a (objects.obj_open file w)

  -- The fields of `attr` are read before the test that it is not NULL.
  unfoldable pub bpf_prog_load_xattr_maps : (attr : Option Attr) → W → Outcome W
  bpf_prog_load_xattr_maps none w = faults
  bpf_prog_load_xattr_maps (some a) w = with_file a a.file w
