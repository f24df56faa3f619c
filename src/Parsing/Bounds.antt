-- ===== src/Parsing/Bounds.antt =====
-- The functions of xdp/common/parsing_helpers.h stay inside the data.
use new_ip_linux.Common.{
  ℕ, zero, suc, ◌+◌, ◌*◌, ◌%◌, ◌/◌, ◌≤◌, ◌<◌, ◌≡◌, refl, inl, inr, ◌⊎◌, Bool, Bool-cases, true,
  false, Option, some, List, ◌||◌, arith, ltb, length,
}
use new_ip_linux.Common.Int.{pos, minus_one}
use new_ip_linux.Wire.{load8, load16, ntohs}
use new_ip_linux.Parsing.Reads.{Data, fetch8-ok, fetch16-ok}
use new_ip_linux.Parsing.{
  Parsed, Tags, proto_is_vlan, vlan_max_depth, read_tci, store_id, skip_vlans, parse_ethhdr_vlan,
  parse_ethhdr, parse_fixed, parse_ip6hdr, parse_icmp6hdr, parse_icmphdr, parse_icmphdr_common,
  parse_iphdr, parse_udphdr, parse_tcphdr,
}

-- A result with no read past the end of the data: a refusal, or a header at the old cursor. The
-- cursor does not go back, and is not moved past the end.
abbrev pub Inside : Data → (cursor : ℕ) → Parsed → Type 0
Inside d cursor r =
    (cursor ≤ r.cursor) × (r.cursor ≤ d.len) × ((r.code ≡ minus_one) ⊎ (r.header ≡ some cursor))

abbrev pub Stays : Data → (cursor : ℕ) → Option Parsed → Type 0
Stays d cursor o = (r : Parsed) × (o ≡ some r) × Inside d cursor r

-- The same of Ethernet, with at most as many identifiers as `struct collect_vlans` has room for.
abbrev pub Within : Data → (cursor : ℕ) → Option (Parsed × List ℕ) → Type 0
Within d cursor o =
    (r : Parsed) × (ids : List ℕ) × (o ≡ some (r, ids))
    × Inside d cursor r
    × (length ids ≤ vlan_max_depth)

read_tci-ok :
    (d : Data) (collect : Bool) (vlh : ℕ)
    → vlh + 4 ≤ d.len
    → (tci : ℕ) × (read_tci d collect vlh ≡ some tci)
unfolding read_tci
read_tci-ok d true vlh room = (_, fetch16-ok d vlh (omega arith))
read_tci-ok d false vlh room = (_, refl)

store_id-one :
    (collect : Bool) (tci : ℕ) (t : Tags)
    → ((store_id collect tci t).vlh ≡ t.vlh)
      × (length (store_id collect tci t).ids ≤ length t.ids + 1)
unfolding store_id
store_id-one true tci t = (refl, omega arith)
store_id-one false tci t = (refl, omega arith)

module _ (d : Data) (cursor : ℕ) (start : cursor ≤ d.len) where
  parse_fixed-Stays :
      (size type : ℕ) → type < size → Stays d cursor (parse_fixed size type d cursor)
  unfolding parse_fixed
  parse_fixed-Stays size type inside = elim (Bool-cases (ltb d.len (cursor + size))) [
    | inl short ↦ rw short (_, refl, (omega arith, start, inl refl))
    | inr long ↦
        let room : cursor + size ≤ d.len = ground arith in
        rw (long, fetch8-ok d (cursor + type) (omega arith))
          (_, refl, (omega arith, room, inr refl))
  ]

  parse_iphdr-Stays : Stays d cursor (parse_iphdr d cursor)
  unfolding parse_iphdr
  parse_iphdr-Stays = elim (Bool-cases (ltb d.len (cursor + 20))) [
    | inl short ↦ rw short (_, refl, (omega arith, start, inl refl))
    | inr long ↦
        let room : cursor + 20 ≤ d.len = ground arith in
        let size : ℕ = load8 d.bytes cursor % 16 * 4 in
        rw (long, fetch8-ok d cursor (omega arith))
          (elim (Bool-cases (ltb size 8 || ltb d.len (cursor + size))) [
            | inl bad ↦ rw bad (_, refl, (omega arith, start, inl refl))
            | inr good ↦
                let fits : cursor + size ≤ d.len = ground arith in
                rw (good, fetch8-ok d (cursor + 9) (omega arith))
                  (_, refl, (omega arith, fits, inr refl))
          ])
  ]

  parse_udphdr-Stays : Stays d cursor (parse_udphdr d cursor)
  unfolding parse_udphdr
  parse_udphdr-Stays = elim (Bool-cases (ltb d.len (cursor + 8))) [
    | inl short ↦ rw short (_, refl, (omega arith, start, inl refl))
    | inr long ↦
        let room : cursor + 8 ≤ d.len = ground arith in
        rw (long, fetch16-ok d (cursor + 4) (omega arith))
          (elim (Bool-cases (ltb (ntohs (load16 d.bytes (cursor + 4))) 8)) [
            | inl bad ↦ rw bad (_, refl, (omega arith, room, inl refl))
            | inr good ↦ rw good (_, refl, (omega arith, room, inr refl))
          ])
  ]

  parse_tcphdr-Stays : Stays d cursor (parse_tcphdr d cursor)
  unfolding parse_tcphdr
  parse_tcphdr-Stays = elim (Bool-cases (ltb d.len (cursor + 20))) [
    | inl short ↦ rw short (_, refl, (omega arith, start, inl refl))
    | inr long ↦
        let room : cursor + 20 ≤ d.len = ground arith in
        let len : ℕ = load8 d.bytes (cursor + 12) / 16 * 4 in
        rw (long, fetch8-ok d (cursor + 12) (omega arith))
          (elim (Bool-cases (ltb len 8 || ltb d.len (cursor + len))) [
            | inl bad ↦ rw bad (_, refl, (omega arith, start, inl refl))
            | inr good ↦
                let fits : cursor + len ≤ d.len = ground arith in
                rw good (_, refl, (omega arith, fits, inr refl))
          ])
  ]

  -- Where the loop over VLAN tags ends, and how many identifiers it stores.
  abbrev Skipped : (rounds vlh : ℕ) → Option Tags → Type 0
  Skipped k vlh o = (t : Tags) × (o ≡ some t) × (vlh ≤ t.vlh) × (t.vlh ≤ d.len) × (length t.ids ≤ k)

  skip_vlans-Skipped :
      (collect : Bool) (k h_proto vlh : ℕ)
      → vlh ≤ d.len
      → Skipped k vlh (skip_vlans d collect k h_proto vlh)
  unfolding skip_vlans
  skip_vlans-Skipped collect zero h_proto vlh inside = (_, refl, omega arith, inside, omega arith)
  skip_vlans-Skipped collect (suc k) h_proto vlh inside =
      elim (Bool-cases (proto_is_vlan h_proto)) [
        | inr last ↦ rw last (_, refl, omega arith, inside, omega arith)
        | inl more ↦ elim (Bool-cases (ltb d.len (vlh + 4))) [
          | inl short ↦ rw (more, short) (_, refl, omega arith, inside, omega arith)
          | inr long ↦
              let room : vlh + 4 ≤ d.len = ground arith in
              let (t, e, on, far, few) =
                skip_vlans-Skipped collect k (load16 d.bytes (vlh + 2)) (vlh + 4) room in
              let (tci, read) = read_tci-ok d collect vlh room in
              let (same, one) = store_id-one collect tci t in
              rw (more, long, fetch16-ok d (vlh + 2) (omega arith), read, e)
                (_, refl, omega (arith, same), omega (arith, same), omega (arith, one))
        ]
      ]

  -- From a cursor that is not past the end of the data, `parse_ethhdr_vlan` reads nothing past the
  -- end, refuses the data or points to the header at the old cursor, moves the cursor forward and not
  -- past the end, and stores at most two VLAN identifiers.
  pub parse_ethhdr_vlan-Within :
      (collect : Bool) → Within d cursor (parse_ethhdr_vlan d collect cursor)
  unfolding parse_ethhdr_vlan
  parse_ethhdr_vlan-Within collect = elim (Bool-cases (ltb d.len (cursor + 14))) [
    | inl short ↦ rw short (_, _, refl, (omega arith, start, inl refl), omega arith)
    | inr long ↦
        let room : cursor + 14 ≤ d.len = ground arith in
        let (t, e, on, far, few) =
          skip_vlans-Skipped collect 2 (load16 d.bytes (cursor + 12)) (cursor + 14) room in
        rw (long, fetch16-ok d (cursor + 12) (omega arith), e)
          (_, _, refl, (omega arith, far, inr refl), few)
  ]

  parse_ethhdr-Stays : Stays d cursor (parse_ethhdr d cursor)
  unfolding parse_ethhdr
  parse_ethhdr-Stays =
      let (r, ids, e, inside, few) = parse_ethhdr_vlan-Within false in rw e (r, refl, inside)

  -- From a cursor that is not past the end of the data, the functions for the headers of Ethernet,
  -- IPv6, IPv4, ICMPv6, ICMP, both forms of ICMP, UDP and TCP read nothing past the end; each refuses
  -- the data or points to the header at the old cursor, and moves the cursor forward and not past
  -- the end.
  pub parsers_inside :
      Stays d cursor (parse_ethhdr d cursor)
      × Stays d cursor (parse_ip6hdr d cursor)
      × Stays d cursor (parse_iphdr d cursor)
      × Stays d cursor (parse_icmp6hdr d cursor)
      × Stays d cursor (parse_icmphdr d cursor)
      × Stays d cursor (parse_icmphdr_common d cursor)
      × Stays d cursor (parse_udphdr d cursor)
      × Stays d cursor (parse_tcphdr d cursor)
  parsers_inside = (
    parse_ethhdr-Stays,
    parse_fixed-Stays 40 6 (omega arith),
    parse_iphdr-Stays,
    parse_fixed-Stays 8 0 (omega arith),
    parse_fixed-Stays 8 0 (omega arith),
    parse_fixed-Stays 4 0 (omega arith),
    parse_udphdr-Stays,
    parse_tcphdr-Stays,
  )

module _ (d : Data) (cursor : ℕ) where
  -- An IPv4 header whose length field is 2, 3 or 4 words, which is less than the 20 bytes that such a
  -- header has, is accepted, and the cursor is left inside those 20 bytes.
  pub parse_iphdr_short :
      cursor + 20 ≤ d.len
      → 2 ≤ load8 d.bytes cursor % 16
      → load8 d.bytes cursor % 16 < 5
      → (r : Parsed) × (parse_iphdr d cursor ≡ some r)
        × (r.header ≡ some cursor)
        × (r.code ≡ pos (load8 d.bytes (cursor + 9)))
        × (r.cursor < cursor + 20)
  unfolding parse_iphdr
  parse_iphdr_short room lo hi =
      let size : ℕ = load8 d.bytes cursor % 16 * 4 in
      let long : ltb d.len (cursor + 20) ≡ false = ground arith in
      let good : (ltb size 8 || ltb d.len (cursor + size)) ≡ false = ground arith in
      rw (long, fetch8-ok d cursor (omega arith), good, fetch8-ok d (cursor + 9) (omega arith))
        (_, refl, refl, refl, omega arith)
