-- ===== src/Stats/Sums.antt =====
-- The counters of all processors together.
use new_ip_linux.Common.{ℕ, ◌+◌, List, [], ◌∷◌}
use new_ip_linux.Wire.{u64}
use new_ip_linux.Router.Memory.{Datarec}

-- The sums without a bound.
abbrev pub packets_of : List Datarec → ℕ
packets_of [] = 0
packets_of (v ∷ vs) = v.rx_packets + packets_of vs

abbrev pub bytes_of : List Datarec → ℕ
bytes_of [] = 0
bytes_of (v ∷ vs) = v.rx_bytes + bytes_of vs

-- The sums, cut to 64 bits.
abbrev pub total_of : List Datarec → Datarec
total_of vs = record { rx_packets = u64 (packets_of vs); rx_bytes = u64 (bytes_of vs) }
