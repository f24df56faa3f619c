-- ===== src/Wire.antt =====
-- Packet memory and byte order, for the 16-bit fields of xdp/newip_router/newip.h.
-- The host is little-endian, as the x86 machines of the README are: a `__u16` field is loaded from
-- its bytes with the low one first, and `htons` and `ntohs` exchange the two bytes.
pub mod NewipOffset
pub mod ShippingSpec
pub mod MaxDelay
pub mod Ping
pub mod Latency
pub mod Order
use new_ip_linux.Common.{ℕ, ◌+◌, ◌*◌, ◌/◌, ◌%◌, ◌^◌, ◌==◌, if◌then◌else◌}

-- `ETH_P_NEWIP`
abbrev pub eth_p_newip : ℕ
eth_p_newip = 0x88b6

-- Bytes by their offset from a base pointer.
abbrev pub Mem : Type 0
Mem = ℕ → ℕ

abbrev pub u8 : ℕ → ℕ
u8 n = n % 2 ^ 8

abbrev pub u16 : ℕ → ℕ
u16 n = n % 2 ^ 16

abbrev pub u32 : ℕ → ℕ
u32 n = n % 2 ^ 32

abbrev pub u64 : ℕ → ℕ
u64 n = n % 2 ^ 64

-- `*(__u8 *)(base + o)`
abbrev pub load8 : Mem → ℕ → ℕ
load8 m o = m o % 256

-- `*(__u16 *)(base + o)`
unfoldable pub load16 : Mem → ℕ → ℕ
load16 m o = load8 m o + 256 * load8 m (o + 1)

-- `*(__u16 *)(base + o) = v`
unfoldable pub store16 : Mem → ℕ → ℕ → Mem
store16 m o v i = if i == o then v % 256 else if i == o + 1 then v / 256 % 256 else m i

-- `htons` and `ntohs` on a little-endian host.
unfoldable pub swap16 : ℕ → ℕ
swap16 v = v % 256 * 256 + v / 256 % 256

abbrev pub htons : ℕ → ℕ
htons v = swap16 v

abbrev pub ntohs : ℕ → ℕ
ntohs v = swap16 v
