-- ===== src/Lbf/Tests/Data.antt =====
-- A kernel, and a store with one hnode whose queue holds two packets.
use new_ip_linux.Common.{
  ℕ, ◌-◌, refl, true, Option, none, some, List, [], ◌∷◌, arith, ◌==◌, if◌then◌else◌,
}
use new_ip_linux.Common.Int.{pos}
use new_ip_linux.Wire.{Mem}
use new_ip_linux.Lbf.Store.{Ptr, null, Hnode, HnodeHead, Skb, Kernel, State, At}
use new_ip_linux.Lbf.Queue.Chain.{Packet, node, Chain}
use new_ip_linux.Lbf.Ranges.Line
use new_ip_linux.Lbf.Ranges.Get.{HasHnodes}

abbrev pub kernel : Kernel
kernel = record {
  get_time = λ _. 100;
  ticks2ns = λ t. t;
  alloc = λ _. 9;
  qdisc_qlen = λ _. 2;
  drop_status = λ _. pos 1;
  tail_status = λ _. pos 0;
  head_skb = λ _. 30;
  watchdog_of_sch = λ _. true;
}

abbrev pub first_packet : Packet
first_packet = record { tmin_nsec = 50; tmax_nsec = 180; trcv = 0; realpkt = 31 }

abbrev pub second_packet : Packet
second_packet = record { tmin_nsec = 70; tmax_nsec = 190; trcv = 0; realpkt = 32 }

abbrev pub hnode : Hnode
hnode = record {
  next_hnode = 0;
  queue = 2;
  prev_hnode = 0;
  hnode_num = 0;
  range_start = 20;
  range_end = 29;
}

abbrev pub list : HnodeHead
list = record { head = 1; tail = 0; len = 1 }

abbrev pub skbs : Mem → Ptr → Option Skb
skbs m a =
    if a == 30
    then some (record { h_proto = 46728; len = 64; network = m; val = 65; enqueue_time = 95 })
    else none

-- The packet of address 30 has the network header `m`.
abbrev pub store : Mem → State
store m = record {
  sched = record {
    hnode_list = some list;
    next_pnode = 2;
    hops_left = 512;
    delay = 0;
    overlimit = 0;
  };
  limit = 1000;
  hnodes = λ a. if a == 1 then some hnode else none;
  pnodes = λ a.
      if a == 2
      then some (node first_packet 3 1)
      else if a == 3
      then some (node second_packet 0 0)
      else none;
  skbs = skbs m;
  calls = [];
}

abbrev pub no_contract : Mem
no_contract i = 0

pub hnode-At : At (store no_contract).hnodes 1 hnode
hnode-At = record { ne_null = omega arith; holds = refl }

pub first-At : At (store no_contract).pnodes 2 (node first_packet 3 1)
first-At = record { ne_null = omega arith; holds = refl }

pub second-At : At (store no_contract).pnodes 3 (node second_packet 0 0)
second-At = record { ne_null = omega arith; holds = refl }

pub second-Chain : Chain (store no_contract).pnodes null 3 ((3, second_packet) ∷ [])
second-Chain = Chain.cons {v = second_packet} second-At refl Chain.nil

pub packets-Chain :
    Chain (store no_contract).pnodes 1 2 ((2, first_packet) ∷ (3, second_packet) ∷ [])
packets-Chain = Chain.cons {v = first_packet} first-At refl second-Chain

pub store-HasHnodes : HasHnodes (store no_contract) list ((1, hnode) ∷ [])
store-HasHnodes = record {
  here = refl;
  line = Line.cons {v = hnode} hnode-At refl Line.nil;
  sorted = (record { aligned = refl; closed = refl }, tt, tt);
}

abbrev pub bytes : List ℕ → Mem
bytes [] i = 0
bytes (b ∷ bs) i = if i == 0 then b else bytes bs (i - 1)

-- A packet with a latency contract of at least 10 and at most 50 units of time over 2 hops, behind
-- a delay of 3 and before an expected delay of 10.
abbrev pub in_time : Mem
in_time =
    bytes (3 ∷ 8 ∷ 20 ∷ 0 ∷ 0 ∷ 0 ∷ 0 ∷ 0 ∷ 0 ∷ 2 ∷ 0 ∷ 1 ∷ 0 ∷ 5 ∷ 0 ∷ 3 ∷ 0 ∷ 1 ∷ 0 ∷ 2 ∷ [])

-- The same with a maximum of 10, behind a delay of 30.
abbrev pub late : Mem
late = bytes (3 ∷ 8 ∷ 20 ∷ 0 ∷ 0 ∷ 0 ∷ 0 ∷ 0 ∷ 0 ∷ 2 ∷ 0 ∷ 1 ∷ 0 ∷ 1 ∷ 0 ∷ 30 ∷ 0 ∷ 1 ∷ 0 ∷ 2 ∷ [])

-- A packet with a max-delay contract of 50, behind a delay of 10.
abbrev pub max_delay : Mem
max_delay = bytes (3 ∷ 8 ∷ 14 ∷ 0 ∷ 0 ∷ 0 ∷ 0 ∷ 0 ∷ 0 ∷ 1 ∷ 0 ∷ 50 ∷ 0 ∷ 10 ∷ [])
