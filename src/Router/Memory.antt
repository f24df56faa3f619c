-- ===== src/Router/Memory.antt =====
-- A frame in the XDP program of xdp/newip_router: its bytes, the metadata in front of it and the
-- program's statistics, with accesses that fail out of bounds.
use new_ip_linux.Common.{ℕ, ◌+◌, ◌-◌, Option, none, some, ◌&&◌, ltb, leb, ◌==◌, if◌then◌else◌}
use new_ip_linux.Wire
use new_ip_linux.Wire.{Mem, u64}

-- `struct meta_info`: the interface and the contract's two delays; `contract_type` is not written.
pub record Meta : Type 0 where
  pub ifindex : ℕ
  pub max_allowed_delay : ℕ
  pub delay_exp : ℕ

-- `sizeof(struct meta_info)`
abbrev pub meta_size : ℕ
meta_size = 12

-- `struct datarec`
pub record Datarec : Type 0 where
  pub rx_packets : ℕ
  pub rx_bytes : ℕ

pub record Frame : Type 0 where
  pub len : ℕ
  pub bytes : Mem
  pub info : Meta
  pub stats : ℕ → Option Datarec

abbrev pub Cmd : Type 0 → Type 0
Cmd A = Frame → Option (A × Frame)

abbrev pub pure : {A : Type 0} → A → Cmd A
pure a f = some (a, f)

abbrev pub and_then : {A B : Type 0} → Option (A × Frame) → (A → Cmd B) → Option (B × Frame)
and_then none k = none
and_then (some (a, f)) k = k a f

infixl 5 ◌>>=◌ ◌>>◌
abbrev pub ◌>>=◌ : {A B : Type 0} → Cmd A → (A → Cmd B) → Cmd B
◌>>=◌ m k f = and_then (m f) k

abbrev pub ◌>>◌ : {B : Type 0} → Cmd (Unit {0}) → Cmd B → Cmd B
m >> k = m >>= λ _. k

-- A read or write of `size` bytes at `o` is in bounds.
unfoldable pub fetch8 : ℕ → Cmd ℕ
fetch8 o f = if ltb o f.len then some (Wire.load8 f.bytes o, f) else none

unfoldable pub fetch16 : ℕ → Cmd ℕ
fetch16 o f = if ltb (o + 1) f.len then some (Wire.load16 f.bytes o, f) else none

unfoldable pub put16 : ℕ → ℕ → Cmd (Unit {0})
put16 o v f =
    if ltb (o + 1) f.len then some (tt, record f { bytes = Wire.store16 f.bytes o v }) else none

-- `size` bytes of `src` in place of those from `o` on.
unfoldable pub overlay : Mem → (o size : ℕ) → (src : Mem) → Mem
overlay m o size src i = if leb o i && ltb i (o + size) then src (i - o) else m i

-- `memcpy(data + o, src, size)`
unfoldable pub copy : (o size : ℕ) → (src : Mem) → Cmd (Unit {0})
copy o size src f =
    if leb (o + size) f.len
    then some (tt, record f { bytes = overlay f.bytes o size src })
    else none

-- Writes of the metadata, of which `room` bytes lie before `ctx->data`, and that are in bounds: the
-- interface is the bytes 0 to 3, the delays of the contract are the bytes 6 to 9.
unfoldable pub set_ifindex : (room : ℕ) → ℕ → Cmd (Unit {0})
set_ifindex room i f =
    if leb 4 room then some (tt, record f { info = record (f.info) { ifindex = i } }) else none

unfoldable pub set_contract : (room : ℕ) → (max_allowed_delay delay_exp : ℕ) → Cmd (Unit {0})
set_contract room m d f =
    if leb 10 room
    then some (tt, record f { info = record (f.info) { max_allowed_delay = m; delay_exp = d } })
    else none

-- `enum xdp_action` and `XDP_ACTION_MAX`
abbrev pub xdp_aborted : ℕ
xdp_aborted = 0

abbrev pub xdp_drop : ℕ
xdp_drop = 1

abbrev pub xdp_pass : ℕ
xdp_pass = 2

abbrev pub xdp_action_max : ℕ
xdp_action_max = 5

-- The record of an action, with one more frame of `len` bytes.
abbrev pub count_frame : (len : ℕ) → Datarec → Datarec
count_frame len r = record {
  rx_packets = u64 (r.rx_packets + 1);
  rx_bytes = u64 (r.rx_bytes + len);
}

-- `xdp_stats_record_action`
unfoldable pub record_action : (action : ℕ) → Cmd ℕ
record_action action f =
    if leb xdp_action_max action then some (xdp_aborted, f) else elim (f.stats action) [
      | none ↦ some (xdp_aborted, f)
      | some r ↦ some (
        action,
        record f { stats = λ a. if a == action then some (count_frame f.len r) else f.stats a },
      )
    ]
