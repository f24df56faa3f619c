-- ===== src/Parsing.antt =====
-- The header cursor of xdp/common/parsing_helpers.h. The data of a frame are the bytes up to
-- `data_end`; pointers are offsets into them. A read past `data_end` is `none`, so that the safety of
-- the functions is a theorem.
pub mod Reads
pub mod Bounds
mod Tests
use new_ip_linux.Common.{
  ℕ, zero, suc, ◌+◌, ◌*◌, ◌-◌, ◌/◌, ◌%◌, Bool, true, false, Option, none, some, List, [], ◌∷◌, ◌||◌,
  ltb, leb, ◌==◌, if◌then◌else◌,
}
use new_ip_linux.Common.Int.{ℤ, pos, minus_one}
use new_ip_linux.Wire.{load8, load16, htons, ntohs, swap16}
use new_ip_linux.Parsing.Reads.{Data, fetch8, fetch16, ◌>>=◌}

-- What a function leaves: its result, the cursor, and the header it points to, if it sets it.
pub record Parsed : Type 0 where
  pub code : ℤ
  pub cursor : ℕ
  pub header : Option ℕ

abbrev pub refuse : (cursor : ℕ) → Parsed
refuse cursor = record { code = minus_one; cursor = cursor; header = none }

abbrev pub accept : (code cursor header : ℕ) → Parsed
accept code cursor header = record { code = pos code; cursor = cursor; header = some header }

-- `ETH_P_8021Q` and `ETH_P_8021AD`
abbrev pub eth_p_8021q : ℕ
eth_p_8021q = 33024

abbrev pub eth_p_8021ad : ℕ
eth_p_8021ad = 34984

unfoldable pub proto_is_vlan : ℕ → Bool
unfolding swap16
proto_is_vlan h_proto = h_proto == htons eth_p_8021q || h_proto == htons eth_p_8021ad

-- `VLAN_MAX_DEPTH`, `VLAN_VID_MASK` + 1 and `sizeof(struct vlan_hdr)`
abbrev pub vlan_max_depth : ℕ
vlan_max_depth = 2

abbrev pub vlan_vids : ℕ
vlan_vids = 4096

abbrev pub vlan_size : ℕ
vlan_size = 4

-- What the loop over VLAN tags ends with: the protocol, the cursor and the identifiers.
pub record Tags : Type 0 where
  pub h_proto : ℕ
  pub vlh : ℕ
  pub ids : List ℕ

-- The identifiers are collected only if the caller asks for them: its `vlans` is NULL where `collect`
-- is false.
unfoldable pub read_tci : Data → (collect : Bool) → (vlh : ℕ) → Option ℕ
read_tci d collect vlh = if collect then fetch16 d vlh else some 0

unfoldable pub store_id : (collect : Bool) → (tci : ℕ) → Tags → Tags
unfolding swap16
store_id true tci t = record t { ids = ntohs tci % vlan_vids ∷ t.ids }
store_id false tci t = t

-- The loop, with the rounds that are left.
unfoldable pub skip_vlans : Data → (collect : Bool) → (rounds h_proto vlh : ℕ) → Option Tags
skip_vlans d collect zero h_proto vlh = some (record { h_proto = h_proto; vlh = vlh; ids = [] })
skip_vlans d collect (suc k) h_proto vlh =
    if proto_is_vlan h_proto
    then (if ltb d.len (vlh + vlan_size)
        then some (record { h_proto = h_proto; vlh = vlh; ids = [] })
        else (do
          next ← fetch16 d (vlh + 2)
          tci ← read_tci d collect vlh
          tags ← skip_vlans d collect k next (vlh + vlan_size)
          some (store_id collect tci tags)))
    else some (record { h_proto = h_proto; vlh = vlh; ids = [] })

-- The result, and the identifiers stored in `vlans`. The protocol is in the order of the network.
unfoldable pub parse_ethhdr_vlan : Data → (collect : Bool) → (cursor : ℕ) → Option (Parsed × List ℕ)
parse_ethhdr_vlan d collect cursor =
    if ltb d.len (cursor + 14) then some (refuse cursor, []) else (do
      h_proto ← fetch16 d (cursor + 12)
      tags ← skip_vlans d collect vlan_max_depth h_proto (cursor + 14)
      some (accept tags.h_proto tags.vlh cursor, tags.ids))

unfoldable pub parse_ethhdr : Data → (cursor : ℕ) → Option Parsed
parse_ethhdr d cursor = do r ← parse_ethhdr_vlan d false cursor; some (r.0)

-- A header of `size` bytes whose byte at `type` is the result.
unfoldable pub parse_fixed : (size type : ℕ) → Data → (cursor : ℕ) → Option Parsed
parse_fixed size type d cursor =
    if ltb d.len (cursor + size)
    then some (refuse cursor)
    else (do t ← fetch8 d (cursor + type); some (accept t (cursor + size) cursor))

abbrev pub parse_ip6hdr : Data → (cursor : ℕ) → Option Parsed
parse_ip6hdr = parse_fixed 40 6

abbrev pub parse_icmp6hdr : Data → (cursor : ℕ) → Option Parsed
parse_icmp6hdr = parse_fixed 8 0

abbrev pub parse_icmphdr : Data → (cursor : ℕ) → Option Parsed
parse_icmphdr = parse_fixed 8 0

abbrev pub parse_icmphdr_common : Data → (cursor : ℕ) → Option Parsed
parse_icmphdr_common = parse_fixed 4 0

-- `sizeof(iph)` and `sizeof(h)` of the tests are the size of a pointer.
abbrev pub pointer_size : ℕ
pointer_size = 8

-- `ihl` is the low half of the first byte.
unfoldable pub parse_iphdr : Data → (cursor : ℕ) → Option Parsed
parse_iphdr d cursor = if ltb d.len (cursor + 20) then some (refuse cursor) else (do
  first ← fetch8 d cursor
  let hdrsize = first % 16 * 4
  if ltb hdrsize pointer_size || ltb d.len (cursor + hdrsize)
      then some (refuse cursor)
      else (do protocol ← fetch8 d (cursor + 9); some (accept protocol (cursor + hdrsize) cursor)))

-- The length of the payload. A length that is too small is found when the cursor has moved.
unfoldable pub parse_udphdr : Data → (cursor : ℕ) → Option Parsed
unfolding swap16
parse_udphdr d cursor = if ltb d.len (cursor + 8) then some (refuse cursor) else (do
  raw ← fetch16 d (cursor + 4)
  some (
      if ltb (ntohs raw) 8
      then record { code = minus_one; cursor = cursor + 8; header = some cursor }
      else accept (ntohs raw - 8) (cursor + 8) cursor))

-- `doff` is the high half of the byte at 12.
unfoldable pub parse_tcphdr : Data → (cursor : ℕ) → Option Parsed
parse_tcphdr d cursor = if ltb d.len (cursor + 20) then some (refuse cursor) else (do
  b ← fetch8 d (cursor + 12)
  let len = b / 16 * 4
  some (
      if ltb len pointer_size || ltb d.len (cursor + len)
      then refuse cursor
      else accept len (cursor + len) cursor))
