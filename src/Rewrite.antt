-- ===== src/Rewrite.antt =====
-- xdp/common/rewrite_helpers.h: a VLAN tag is pushed behind the Ethernet header or popped, and
-- addresses are exchanged. The data of a frame are those of the module Parsing; an access past their
-- end is `none`. `bpf_xdp_adjust_head` is a parameter, `none` where it fails.
pub mod Tags
pub mod Swaps
mod Tests
use new_ip_linux.Common.{
  ℕ, ◌+◌, ◌-◌, Bool, true, false, Option, none, some, ◌&&◌, ltb, leb, if◌then◌else◌,
}
use new_ip_linux.Common.Int.{ℤ, pos, negsuc, minus_one}
use new_ip_linux.Wire.{Mem, u16, load16, store16, htons, ntohs, swap16}
use new_ip_linux.Router.Memory.{overlay}
use new_ip_linux.Parsing.{proto_is_vlan, eth_p_8021q, vlan_size}
use new_ip_linux.Parsing.Reads.{Data, fetch16, ◌>>=◌}

-- A copy of `size` bytes from `o` on, and its way back.
unfoldable pub copy_out : Data → (o size : ℕ) → Option Mem
copy_out d o size = if ltb d.len (o + size) then none else some (λ i. d.bytes (o + i))

unfoldable pub copy_in : Data → (o size : ℕ) → Mem → Option Data
copy_in d o size src =
    if ltb d.len (o + size) then none else some (record d { bytes = overlay d.bytes o size src })

unfoldable pub put16 : Data → (o v : ℕ) → Option Data
put16 d o v = if ltb (o + 1) d.len then some (record d { bytes = store16 d.bytes o v }) else none

module _ (adjust_head : ℤ → Data → Option Data) where
  -- The part of `vlan_tag_pop` behind the adjustment.
  unfoldable pub finish_pop : (cpy : Mem) (vlid h_proto : ℕ) → Data → Option (ℤ × Data)
  finish_pop cpy vlid h_proto d =
      if ltb d.len 14
      then some (minus_one, d)
      else (do copied ← copy_in d 0 14 cpy; done ← put16 copied 12 h_proto; some (pos vlid, done))

  abbrev pub after_pop : (cpy : Mem) (vlid h_proto : ℕ) → Data → Option Data → Option (ℤ × Data)
  after_pop cpy vlid h_proto d none = some (minus_one, d)
  after_pop cpy vlid h_proto d (some shorter) = finish_pop cpy vlid h_proto shorter

  -- The result is the whole tag, with its priority bits.
  unfoldable pub vlan_tag_pop : Data → (eth : ℕ) → Option (ℤ × Data)
  vlan_tag_pop d eth = do
    h_proto ← fetch16 d (eth + 12)
    if proto_is_vlan h_proto
        then (if ltb d.len (eth + 14 + vlan_size) then some (minus_one, d) else (do
          tci ← fetch16 d (eth + 14)
          next ← fetch16 d (eth + 16)
          cpy ← copy_out d eth 14
          after_pop cpy (ntohs tci) next d (adjust_head (pos 4) d)))
        else some (minus_one, d)

  -- The part of `vlan_tag_push` behind the adjustment.
  unfoldable pub finish_push : (cpy : Mem) (vlid : ℕ) → Data → Option (ℤ × Data)
  finish_push cpy vlid d = if ltb d.len 14 then some (minus_one, d) else (do
    copied ← copy_in d 0 14 cpy
    if ltb d.len 18 then some (minus_one, copied) else (do
      tagged ← put16 copied 14 (htons (u16 vlid))
      h_proto ← fetch16 tagged 12
      inner ← put16 tagged 16 h_proto
      done ← put16 inner 12 (htons eth_p_8021q)
      some (pos 0, done)))

  abbrev pub after_push : (cpy : Mem) (vlid : ℕ) → Data → Option Data → Option (ℤ × Data)
  after_push cpy vlid d none = some (minus_one, d)
  after_push cpy vlid d (some longer) = finish_push cpy vlid longer

  unfoldable pub vlan_tag_push : Data → (eth vlid : ℕ) → Option (ℤ × Data)
  vlan_tag_push d eth vlid = do
    cpy ← copy_out d eth 14
    after_push cpy vlid d (adjust_head (negsuc 3) d)

-- Two fields of `size` bytes, at `a` and at `b`, are exchanged through a copy of the first.
unfoldable pub swap_fields : (size a b : ℕ) → Mem → Mem
swap_fields size a b m =
    let moved : Mem = overlay m a size (λ i. m (b + i)) in overlay moved b size (λ i. m (a + i))

-- The source addresses are at 6, 8 and 12, the destinations at 0, 24 and 16.
abbrev pub swap_src_dst_mac : (eth : ℕ) → Mem → Mem
swap_src_dst_mac eth = swap_fields 6 (eth + 6) eth

abbrev pub swap_src_dst_ipv6 : (ipv6 : ℕ) → Mem → Mem
swap_src_dst_ipv6 ipv6 = swap_fields 16 (ipv6 + 8) (ipv6 + 24)

abbrev pub swap_src_dst_ipv4 : (iphdr : ℕ) → Mem → Mem
swap_src_dst_ipv4 iphdr = swap_fields 4 (iphdr + 12) (iphdr + 16)
