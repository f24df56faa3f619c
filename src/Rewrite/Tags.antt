-- ===== src/Rewrite/Tags.antt =====
-- Pushing and popping a VLAN tag, of xdp/common/rewrite_helpers.h.
use new_ip_linux.Common.{
  ◌∙◌, ℕ, ◌+◌, ◌^◌, ◌%◌, ◌≤◌, ◌<◌, ◌≡◌, refl, true, false, Option, some, arith, ltb,
}
use new_ip_linux.Common.Int.{ℤ, pos, negsuc}
use new_ip_linux.Wire.{Mem, u16, load8, load16, store16, htons, ntohs, swap16}
use new_ip_linux.Wire.Order.{swap16-lt, swap16-swap16, load16-store16, load16-store16_ne}
use new_ip_linux.Router.Memory.{overlay}
use new_ip_linux.Parsing.{proto_is_vlan, eth_p_8021q}
use new_ip_linux.Parsing.Reads.{Data, fetch16-ok}
use new_ip_linux.Rewrite.{
  copy_out, copy_in, put16, finish_pop, vlan_tag_pop, finish_push, vlan_tag_push,
}

module _ (d : Data) where
  put16-ok :
      (o v : ℕ) → o + 1 < d.len → put16 d o v ≡ some (record d { bytes = store16 d.bytes o v })
  unfolding put16
  put16-ok o v h = ground arith

  copy_in-ok :
      (size : ℕ) (src : Mem)
      → size ≤ d.len
      → copy_in d 0 size src ≡ some (record d { bytes = overlay d.bytes 0 size src })
  unfolding copy_in
  copy_in-ok size src h = ground arith

  copy_out-ok : (size : ℕ) → size ≤ d.len → copy_out d 0 size ≡ some (λ i. d.bytes (0 + i))
  unfolding copy_out
  copy_out-ok size h = ground arith

pushed_proto : proto_is_vlan (u16 (htons eth_p_8021q)) ≡ true
unfolding proto_is_vlan swap16
pushed_proto = refl

popped_tci : (v : ℕ) → ntohs (u16 (htons (u16 v))) ≡ v % 2 ^ 16
popped_tci v =
    let raw : ℕ = htons (u16 v) in
    let whole : u16 raw ≡ raw = omega (arith, swap16-lt (u16 v)) in
    rw whole (omega (arith, swap16-swap16 (u16 v)))

-- The bytes behind the tag, with the first header and the inner type in front of them.
restored :
    (s g m : Mem) (v : ℕ)
    → ((i : ℕ) → i < 12 → g i ≡ m i)
    → ((i : ℕ) → 14 ≤ i → s i ≡ m i)
    → v ≡ u16 (load16 m 12)
    → (i : ℕ) → load8 (store16 (overlay s 0 14 (λ i. g (0 + i))) 12 v) i ≡ load8 m i
unfolding store16 overlay load16
restored s g m v front back is i = ground (arith, front i, back i, is)

-- What the kernel documents of `bpf_xdp_adjust_head`: by -4 it puts four bytes before the data, and
-- by 4 it takes four bytes off data that are longer than an Ethernet header and these.
pub record MovesHead (adjust_head : ℤ → Data → Option Data) : Type 0 where
  pub longer :
      (d d' : Data)
      → adjust_head (negsuc 3) d ≡ some d'
      → (d'.len ≡ d.len + 4) × ((i : ℕ) → d'.bytes (i + 4) ≡ d.bytes i)
  pub shorter :
      (d : Data)
      → 18 ≤ d.len
      → (d' : Data) × (adjust_head (pos 4) d ≡ some d')
        × (d'.len + 4 ≡ d.len)
        × ((i : ℕ) → d'.bytes i ≡ d.bytes (i + 4))

module _ (adjust_head : ℤ → Data → Option Data) (law : MovesHead adjust_head) (d : Data) (vlid : ℕ)
    (room : 14 ≤ d.len) (d1 : Data) (grown : adjust_head (negsuc 3) d ≡ some d1) where
  abbrev copied : Mem
  copied = overlay d1.bytes 0 14 (λ i. d.bytes (0 + i))

  abbrev tagged : Mem
  tagged = store16 copied 14 (htons (u16 vlid))

  -- The bytes of the tagged frame.
  abbrev tagged_bytes : Mem
  tagged_bytes = store16 (store16 tagged 16 (load16 tagged 12)) 12 (htons eth_p_8021q)

  vlan_tag_push-bytes :
      vlan_tag_push adjust_head d 0 vlid ≡ some (pos 0, record d1 { bytes = tagged_bytes })
  unfolding vlan_tag_push finish_push
  vlan_tag_push-bytes =
      let long : d1.len ≡ d.len + 4 = (law.longer d d1 grown).0 in
      let a : ltb d1.len 14 ≡ false = ground arith in
      let b : ltb d1.len 18 ≡ false = ground arith in
      let c1 : Data = record d1 { bytes = copied } in
      let c2 : Data = record d1 { bytes = tagged } in
      let c3 : Data = record d1 { bytes = store16 tagged 16 (load16 tagged 12) } in
      rw (copy_out-ok d 14 room) (
        simp grown (
          rw
            (
              a,
              copy_in-ok d1 14 (λ i. d.bytes (0 + i)) (omega arith),
              b,
              put16-ok c1 14 (htons (u16 vlid)) (omega arith),
              fetch16-ok c2 12 (omega arith),
              put16-ok c2 16 (load16 tagged 12) (omega arith),
              put16-ok c3 12 (htons eth_p_8021q) (omega arith),
            )
            refl))

  tagged_bytes-front : (i : ℕ) → i < 12 → tagged_bytes i ≡ d.bytes i
  unfolding store16 overlay
  tagged_bytes-front i h = ground arith

  tagged_bytes-back : (i : ℕ) → 18 ≤ i → tagged_bytes i ≡ d1.bytes i
  unfolding store16 overlay
  tagged_bytes-back i h = ground arith

  tagged_bytes-type : load16 tagged_bytes 12 ≡ u16 (htons eth_p_8021q)
  tagged_bytes-type = load16-store16 (store16 tagged 16 (load16 tagged 12)) 12 (htons eth_p_8021q)

  tagged_bytes-tci : load16 tagged_bytes 14 ≡ u16 (htons (u16 vlid))
  tagged_bytes-tci =
      rw
        (
          load16-store16_ne (store16 tagged 16 (load16 tagged 12)) 12 (htons eth_p_8021q) 14
              (omega arith) (omega arith) (omega arith),
          load16-store16_ne tagged 16 (load16 tagged 12) 14 (omega arith) (omega arith)
              (omega arith),
        )
        (load16-store16 copied 14 (htons (u16 vlid)))

  copied-type : load16 copied 12 ≡ load16 d.bytes 12
  unfolding load16 overlay
  copied-type = refl

  tagged_bytes-inner : load16 tagged_bytes 16 ≡ u16 (load16 d.bytes 12)
  tagged_bytes-inner =
      rw
        (
          load16-store16_ne (store16 tagged 16 (load16 tagged 12)) 12 (htons eth_p_8021q) 16
              (omega arith) (omega arith) (omega arith),
          load16-store16 tagged 16 (load16 tagged 12),
          load16-store16_ne copied 14 (htons (u16 vlid)) 12 (omega arith) (omega arith)
              (omega arith),
          copied-type,
        )
        refl

  -- After a tag has been pushed, with the head of the data moved as the kernel documents it, popping
  -- a tag returns the low 16 bits of the identifier that was pushed, and leaves data of the old
  -- length with the old bytes.
  pub vlan_tag_pop-vlan_tag_push :
      (d2 : Data) × (d3 : Data) × (vlan_tag_push adjust_head d 0 vlid ≡ some (pos 0, d2))
      × (vlan_tag_pop adjust_head d2 0 ≡ some (pos (vlid % 2 ^ 16), d3))
      × (d3.len ≡ d.len)
      × ((i : ℕ) → load8 d3.bytes i ≡ load8 d.bytes i)
  unfolding vlan_tag_pop finish_pop
  vlan_tag_pop-vlan_tag_push =
      let moved = law.longer d d1 grown in
      let grew : d1.len ≡ d.len + 4 = moved.0 in
      let d2 : Data = record d1 { bytes = tagged_bytes } in
      let (s, shrunk, len, at) = law.shorter d2 (omega arith) in
      let inner : ℕ = load16 d2.bytes 16 in
      let back : Mem = overlay s.bytes 0 14 (λ i. tagged_bytes (0 + i)) in
      let c : Data = record s { bytes = back } in
      let is_vlan : proto_is_vlan (load16 tagged_bytes 12) ≡ true =
        rw tagged_bytes-type pushed_proto in
      let long : ltb d1.len 18 ≡ false = ground arith in
      let room2 : ltb s.len 14 ≡ false = ground arith in
      (
        d2,
        record s { bytes = store16 back 12 inner },
        vlan_tag_push-bytes,
        rw
            (
              fetch16-ok d2 12 (omega arith),
              is_vlan,
              long,
              fetch16-ok d2 14 (omega arith),
              fetch16-ok d2 16 (omega arith),
              copy_out-ok d2 14 (omega arith),
            )
            (simp shrunk (
              rw
                (
                  room2,
                  copy_in-ok s 14 (λ i. tagged_bytes (0 + i)) (omega arith),
                  put16-ok c 12 inner (omega arith),
                  tagged_bytes-tci,
                  popped_tci vlid,
                )
                refl)),
        omega arith,
        restored s.bytes tagged_bytes d.bytes inner tagged_bytes-front
            (λ i far. at i ∙ tagged_bytes-back (i + 4) (omega arith) ∙ moved.1 i)
            tagged_bytes-inner,
      )
