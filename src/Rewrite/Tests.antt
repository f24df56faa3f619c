-- ===== src/Rewrite/Tests.antt =====
-- Runs of the rewriting of headers, with a head of the data that moves over zeros.
use mathlib.Core.Path.{subst}
use new_ip_linux.Common.{
  ℕ, ◌+◌, ◌-◌, ◌≡◌, ◌%◌, ◌^◌, refl, Option, none, some, arith, ltb, ◌==◌, if◌then◌else◌,
}
use new_ip_linux.Common.Int.{ℤ, pos, negsuc}
use new_ip_linux.Wire.{Mem, load8}
use new_ip_linux.Parsing.Reads.{Data}
use new_ip_linux.Rewrite.{
  vlan_tag_pop, vlan_tag_push, swap_src_dst_mac, swap_src_dst_ipv6, swap_src_dst_ipv4,
}
use new_ip_linux.Rewrite.Tags.{MovesHead, vlan_tag_pop-vlan_tag_push}
use new_ip_linux.Rewrite.Swaps.{Swapped, swaps_lem}

abbrev move : ℤ → Data → Option Data
move (pos n) d =
    if n == 4 then some (record { bytes = λ i. d.bytes (i + 4); len = d.len - 4 }) else none
move (negsuc n) d =
    if n == 3
    then some (record { bytes = λ i. if ltb i 4 then 0 else d.bytes (i - 4); len = d.len + 4 })
    else none

abbrev Longer : Data → Option Data → Type 0
Longer d none = Unit
Longer d (some d') = (d'.len ≡ d.len + 4) × ((i : ℕ) → d'.bytes (i + 4) ≡ d.bytes i)

same_byte : (m : Mem) (i : ℕ) → (if ltb (i + 4) 4 then 0 else m (i + 4 - 4)) ≡ m i
same_byte m i = let back : i + 4 - 4 ≡ i = omega arith in rw back (ground arith)

move-MovesHead : MovesHead move
move-MovesHead = record {
  longer = λ d d' e. subst (Longer d) e (refl, λ i. same_byte d.bytes i);
  shorter = λ d room. (_, refl, omega arith, λ i. refl);
}

abbrev count_up : Mem
count_up i = i

abbrev plain : Data
plain = record { bytes = count_up; len = 60 }

abbrev longer : Data
longer = record { bytes = λ i. if ltb i 4 then 0 else i - 4; len = 64 }

vlan_tag_pop-vlan_tag_push_example :
    (d2 : Data) × (d3 : Data) × (vlan_tag_push move plain 0 7 ≡ some (pos 0, d2))
    × (vlan_tag_pop move d2 0 ≡ some (pos (7 % 2 ^ 16), d3))
    × (d3.len ≡ 60)
    × ((i : ℕ) → load8 d3.bytes i ≡ load8 count_up i)
vlan_tag_pop-vlan_tag_push_example =
    vlan_tag_pop-vlan_tag_push move move-MovesHead plain 7 (omega arith) longer refl

swaps_lem_example :
    Swapped 6 (14 + 6) 14 count_up (swap_src_dst_mac 14 count_up)
    × Swapped 16 (14 + 8) (14 + 24) count_up (swap_src_dst_ipv6 14 count_up)
    × Swapped 4 (14 + 12) (14 + 16) count_up (swap_src_dst_ipv4 14 count_up)
swaps_lem_example = swaps_lem 14 count_up
