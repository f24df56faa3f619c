-- ===== src/Rewrite/Swaps.antt =====
-- The exchanges of addresses of xdp/common/rewrite_helpers.h.
use new_ip_linux.Common.{ℕ, ◌+◌, ◌-◌, ◌≤◌, ◌<◌, ◌≡◌, ◌⊎◌, inl, inr, arith}
use new_ip_linux.Wire.{Mem}
use new_ip_linux.Router.Memory.{overlay}
use new_ip_linux.Rewrite.{swap_fields, swap_src_dst_mac, swap_src_dst_ipv6, swap_src_dst_ipv4}

-- The exchange of two fields of `size` bytes that do not overlap.
abbrev pub Swapped : (size a b : ℕ) → (m g : Mem) → Type 0
Swapped size a b m g =
    ((i : ℕ) → i < size → (g (a + i) ≡ m (b + i)) × (g (b + i) ≡ m (a + i)))
    × ((i : ℕ) → (i < a) ⊎ (a + size ≤ i) → (i < b) ⊎ (b + size ≤ i) → g i ≡ m i)

swap_fields-Swapped :
    (size a b : ℕ) (m : Mem)
    → (a + size ≤ b) ⊎ (b + size ≤ a)
    → Swapped size a b m (swap_fields size a b m)
unfolding swap_fields overlay
swap_fields-Swapped size a b m apart = (
  (λ i small.
      let from_a : a + i - a ≡ i = omega arith in
      let from_b : b + i - b ≡ i = omega arith in rw (from_a, from_b) (ground arith, ground arith)),
  λ i out_a out_b. ground arith,
)

-- Each of the three functions exchanges the source and the destination address, and leaves every
-- byte outside them.
pub swaps_lem :
    (o : ℕ) (m : Mem)
    → Swapped 6 (o + 6) o m (swap_src_dst_mac o m)
      × Swapped 16 (o + 8) (o + 24) m (swap_src_dst_ipv6 o m)
      × Swapped 4 (o + 12) (o + 16) m (swap_src_dst_ipv4 o m)
swaps_lem o m = (
  swap_fields-Swapped 6 (o + 6) o m (inr (omega arith)),
  swap_fields-Swapped 16 (o + 8) (o + 24) m (inl (omega arith)),
  swap_fields-Swapped 4 (o + 12) (o + 16) m (inl (omega arith)),
)
