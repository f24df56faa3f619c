-- ===== src/Lbf/Enqueue/Hops.antt =====
-- The hops of a latency contract in `lbf_enqueue` of lbf/src/linux/sch_lbf.c.
use new_ip_linux.Common.{ℕ, ◌+◌, ◌%◌, ◌^◌, ◌<◌, ◌≡◌, ◌≢◌, arith}
use new_ip_linux.Wire.{swap16, ntohs}
use new_ip_linux.Lbf.Enqueue.{less_hop}

module _ (raw : ℕ) (small : raw < 2 ^ 16) where
  -- Hops that are no multiple of 256 are one less after the packet has been enqueued.
  pub less_hop-decrements : ntohs raw % 256 ≢ 0 → ntohs (less_hop raw) + 1 ≡ ntohs raw
  unfolding less_hop swap16
  less_hop-decrements ne = omega arith

  -- Hops that are a multiple of 256 grow by 255, since the subtraction is one of numbers whose bytes
  -- are in the order of the network.
  pub less_hop-grows : ntohs raw % 256 ≡ 0 → ntohs (less_hop raw) ≡ ntohs raw + 255
  unfolding less_hop swap16
  less_hop-grows e = omega arith
