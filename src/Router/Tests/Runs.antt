-- ===== src/Router/Tests/Runs.antt =====
-- The theorems on the XDP program at small frames, and runs of it.
use new_ip_linux.Common.{ℕ, ◌+◌, ◌-◌, ◌%◌, ◌^◌, ◌≡◌, refl, true, some, arith}
use new_ip_linux.Wire.{load16, swap16, ntohs}
use new_ip_linux.Router.{process_contract}
use new_ip_linux.Router.Memory.{Frame}
use new_ip_linux.Router.Lands.{Lands, hop_at, NotHop}
use new_ip_linux.Router.Contract.{HasContract, process_contract-ping}
use new_ip_linux.Router.Tests.Frames
use new_ip_linux.Router.Tests.Frames.{helpers}

ping-HasContract : HasContract Frames.ping 3 16
unfolding load16 swap16
ping-HasContract = record {
  offsets = omega arith;
  type = refl;
  inside = omega arith;
  header = omega arith;
}

process_contract-ping_example :
    (f' : Frame) × (process_contract helpers Frames.ping ≡ some (true, f'))
    × (ntohs (load16 f'.bytes (hop_at Frames.ping))
        ≡ (ntohs (load16 (Frames.ping).bytes (hop_at Frames.ping)) + 2 ^ 16 - 1) % 2 ^ 16)
    × (f'.info ≡ (Frames.ping).info)
    × (f'.len ≡ (Frames.ping).len)
    × (f'.stats ≡ (Frames.ping).stats)
    × ((i : ℕ) → NotHop Frames.ping i → f'.bytes i ≡ (Frames.ping).bytes i)
process_contract-ping_example = process_contract-ping helpers Frames.ping ping-HasContract
