-- ===== src/Lbf/Tests/Times.antt =====
-- Runs that compute and use the times of a packet.
use new_ip_linux.Common.{◌+◌, ◌≡◌, refl, arith}
use new_ip_linux.Wire.{load16, swap16, ntohs}
use new_ip_linux.Lbf.Store.{Ptr, Skb, State, ok, fault, At}
use new_ip_linux.Lbf.Enqueue.{less_hop, has_contract}
use new_ip_linux.Lbf.Enqueue.Hops.{less_hop-grows}
use new_ip_linux.Lbf.Enqueue.Windows.{InTime, Fits, window-InTime}
use new_ip_linux.Lbf.Dequeue.{dequeue, dequeue_plain}
use new_ip_linux.Lbf.Dequeue.Orphan.{dequeue-orphan}
use new_ip_linux.Lbf.Dequeue.Plain.{HasMaxDelay, Forwarded, taken, dequeue_plain-Forwarded}
use new_ip_linux.Lbf.Tests.Data
use new_ip_linux.Lbf.Tests.Data.{kernel, store, second-At}

-- 256 hops, as they are stored.
less_hop-grows_example : ntohs (less_hop 1) ≡ ntohs 1 + 255
less_hop-grows_example = less_hop-grows 1 (omega arith) (unfold swap16 in refl)

in_time-InTime : InTime Data.in_time 8
unfolding load16 swap16
in_time-InTime = record {
  hops = omega arith;
  limit = omega arith;
  fits_max = omega arith;
  fits_todelay = omega arith;
  ordered = omega arith;
  in_time = omega arith;
}

window-InTime_example : Fits Data.in_time 8
window-InTime_example = window-InTime Data.in_time 8 in_time-InTime

abbrev max_delay_skb : Skb
max_delay_skb = record {
  h_proto = 46728;
  len = 64;
  network = Data.max_delay;
  val = 65;
  enqueue_time = 95;
}

max_delay-HasMaxDelay : HasMaxDelay max_delay_skb
unfolding has_contract load16 swap16
max_delay-HasMaxDelay = record {
  proto = refl;
  contract = refl;
  inside = omega arith;
  header = omega arith;
  type = refl;
}

max_delay-At : At (store Data.max_delay).skbs 30 max_delay_skb
max_delay-At = record { ne_null = omega arith; holds = refl }

dequeue_plain-Forwarded_example :
    (r : Ptr) × (s' : State) × (dequeue_plain kernel (store Data.max_delay) ≡ ok r s')
    × Forwarded (taken kernel (store Data.max_delay) max_delay_skb) 30 8 5 max_delay_skb r s'
dequeue_plain-Forwarded_example =
    dequeue_plain-Forwarded kernel (store Data.max_delay) max_delay_skb max_delay-At refl
      max_delay-HasMaxDelay (omega arith) (omega arith)

-- The watchdog waits for the second packet of the queue.
abbrev overtaken : State
overtaken =
    let s : State = store Data.no_contract in
    record s { sched = record (s.sched) { next_pnode = 3 } }

dequeue-orphan_example : dequeue kernel 4 overtaken ≡ fault
dequeue-orphan_example = dequeue-orphan kernel 4 overtaken refl second-At refl (omega arith)
