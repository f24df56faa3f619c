-- ===== src/Lbf/Tests/Whole.antt =====
-- Runs of `lbf_enqueue` and `lbf_dequeue` on a small discipline.
use new_ip_linux.Common.{
  ◌≡◌, true, refl, inl, inr, none, some, [], ◌∷◌, ◌++◌, arith, ◌==◌, if◌then◌else◌,
}
use new_ip_linux.Wire.{swap16, load16, store16}
use new_ip_linux.Lbf.Store.{null, Skb, Call, Calls, State, At, ◌>>=◌}
use new_ip_linux.Lbf.Store.Returns.{Returns}
use new_ip_linux.Lbf.Stock.{Stock}
use new_ip_linux.Lbf.Stock.Valid.{Fits, IsValid}
use new_ip_linux.Lbf.Enqueue.{has_contract, window, update_delays, enqueue}
use new_ip_linux.Lbf.Enqueue.Room.{IsWhole}
use new_ip_linux.Lbf.Enqueue.Serve.{IsFresh, HasList}
use new_ip_linux.Lbf.Enqueue.Contracted.{arriving, joins, Arrived}
use new_ip_linux.Lbf.Enqueue.Arrive.{enqueue-Arrived}
use new_ip_linux.Lbf.Dequeue.{dequeue}
use new_ip_linux.Lbf.Dequeue.Finish.{HasPlain}
use new_ip_linux.Lbf.Dequeue.Ready.{Departed, dequeue-IsReady}
use new_ip_linux.Lbf.First.{Steady, Outcome, dequeue-enqueue}
use new_ip_linux.Lbf.Tests.Data
use new_ip_linux.Lbf.Tests.Data.{
  kernel, store, hnode, list, first_packet, second_packet, packets-Chain, store-HasHnodes,
}

abbrev buffer : Skb
buffer = record { h_proto = 46728; len = 64; network = Data.in_time; val = 65; enqueue_time = 95 }

-- The buffers of 30, 31 and 32 are live, the first with a contract.
abbrev discipline : State
discipline = record (store Data.in_time) {
  skbs = λ a.
      if a == 30
      then some buffer
      else if a == 31
      then some buffer
      else if a == 32
      then some buffer
      else none;
}

abbrev stock : Stock
stock = record { at = 1; hnode = hnode; packets = (2, first_packet) ∷ (3, second_packet) ∷ [] } ∷ []

whole : IsWhole buffer
whole = record { header = omega arith; contract = inr (omega arith) }

buffer_30 : At discipline.skbs 30 buffer
buffer_30 = record { ne_null = omega arith; holds = refl }

buffer_31 : At discipline.skbs 31 buffer
buffer_31 = record { ne_null = omega arith; holds = refl }

buffer_32 : At discipline.skbs 32 buffer
buffer_32 = record { ne_null = omega arith; holds = refl }

stock-IsValid : IsValid discipline list stock
stock-IsValid = record {
  here = refl;
  stocked = record {
    line = store-HasHnodes.line;
    filled = ((refl, packets-Chain), tt);
    apart = (tt, tt);
  };
  ranges = store-HasHnodes.sorted;
  queues = omega arith;
  live = (((buffer, buffer_31, whole), ((buffer, buffer_32, whole), tt)), tt);
}

stock-Fits : Fits 4 stock
stock-Fits = record { queues = omega arith; hnodes = omega arith }

kernel-IsFresh : IsFresh kernel discipline
kernel-IsFresh cs = inr (omega arith, refl, refl)

kernel-HasPlain : HasPlain kernel discipline stock
kernel-HasPlain = record {
  head = λ cs. inr (buffer, buffer_30, whole);
  apart = λ cs. ((refl, (refl, tt)), tt);
}

kernel-HasList : HasList kernel (Call.psched_get_time ∷ Call.psched_get_time ∷ []) discipline
kernel-HasList e = omega arith

enqueue-Arrived_example :
    Returns
      (Arrived kernel discipline stock 30 buffer (joins kernel discipline buffer))
      (enqueue kernel 4 30 discipline)
enqueue-Arrived_example =
    enqueue-Arrived kernel 4 discipline stock 30 buffer (inr (list, stock-IsValid)) stock-Fits
      kernel-IsFresh kernel-HasList buffer_30 whole

dequeue-IsReady_example : Returns (Departed kernel discipline stock) (dequeue kernel 4 discipline)
dequeue-IsReady_example =
    dequeue-IsReady kernel 4 discipline stock (inr (list, stock-IsValid)) stock-Fits kernel-HasPlain
      (inr (first_packet, inl ((3, second_packet) ∷ [], refl), inl (omega arith)))

-- As `lbf_init` leaves a discipline.
abbrev fresh_discipline : State
fresh_discipline = record discipline {
  sched = record (discipline.sched) { hnode_list = none; next_pnode = null };
}

fresh-Steady : Steady kernel fresh_discipline 31
fresh-Steady = record {
  fresh = kernel-IsFresh;
  got = λ cs. omega arith;
  plain = λ cs. inr ((buffer, buffer_30, whole), refl);
}

buffer-joins : joins kernel fresh_discipline buffer ≡ true
unfolding swap16 has_contract load16 window update_delays store16
buffer-joins = refl

dequeue-enqueue_example :
    Returns
      (λ r s'.
        (arrival : Calls) × (now : Calls) × Outcome kernel [] now
          (arriving kernel (arrival ++ []) 31 buffer)
          r)
      ((enqueue kernel 2 31 >>= λ code. dequeue kernel 2) fresh_discipline)
dequeue-enqueue_example =
    dequeue-enqueue kernel 2 fresh_discipline 31 buffer refl refl (omega arith) fresh-Steady
      buffer_31 whole buffer-joins
