-- ===== src/Parsing/Tests.antt =====
-- Runs of the header cursor.
use new_ip_linux.Common.{ℕ, ◌-◌, ◌<◌, ◌≡◌, true, some, List, [], ◌∷◌, arith, ◌==◌, if◌then◌else◌}
use new_ip_linux.Common.Int.{pos}
use new_ip_linux.Wire.{Mem}
use new_ip_linux.Parsing.Reads.{Data}
use new_ip_linux.Parsing.{
  Parsed, parse_ethhdr_vlan, parse_ethhdr, parse_ip6hdr, parse_iphdr, parse_icmp6hdr, parse_icmphdr,
  parse_icmphdr_common, parse_udphdr, parse_tcphdr,
}
use new_ip_linux.Parsing.Bounds.{
  Stays, Within, parse_ethhdr_vlan-Within, parsers_inside, parse_iphdr_short,
}

abbrev bytes : List ℕ → Mem
bytes [] i = 0
bytes (b ∷ bs) i = if i == 0 then b else bytes bs (i - 1)

-- An Ethernet header with one VLAN tag, and room for two more.
abbrev tagged : Data
tagged = record {
  bytes = bytes (0 ∷ 0 ∷ 0 ∷ 0 ∷ 0 ∷ 0 ∷ 0 ∷ 0 ∷ 0 ∷ 0 ∷ 0 ∷ 0 ∷ 129 ∷ 0 ∷ 0 ∷ 7 ∷ 136 ∷ 182 ∷ []);
  len = 26;
}

parse_ethhdr_vlan-Within_example : Within tagged 0 (parse_ethhdr_vlan tagged true 0)
parse_ethhdr_vlan-Within_example = parse_ethhdr_vlan-Within tagged 0 (omega arith) true

-- An IPv4 header that claims to have two words.
abbrev short : Data
short = record { bytes = bytes (66 ∷ 0 ∷ 0 ∷ 0 ∷ 0 ∷ 0 ∷ 0 ∷ 0 ∷ 64 ∷ 17 ∷ []); len = 40 }

parsers_inside_example :
    Stays short 0 (parse_ethhdr short 0)
    × Stays short 0 (parse_ip6hdr short 0)
    × Stays short 0 (parse_iphdr short 0)
    × Stays short 0 (parse_icmp6hdr short 0)
    × Stays short 0 (parse_icmphdr short 0)
    × Stays short 0 (parse_icmphdr_common short 0)
    × Stays short 0 (parse_udphdr short 0)
    × Stays short 0 (parse_tcphdr short 0)
parsers_inside_example = parsers_inside short 0 (omega arith)

parse_iphdr_short_example :
    (r : Parsed) × (parse_iphdr short 0 ≡ some r)
    × (r.header ≡ some 0)
    × (r.code ≡ pos 17)
    × (r.cursor < 20)
parse_iphdr_short_example = parse_iphdr_short short 0 (omega arith) (omega arith) (omega arith)
