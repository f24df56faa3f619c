-- ===== src/Lbf/Tests/Queues.antt =====
-- Runs that walk over the queues.
use new_ip_linux.Common.{◌≡◌, refl, [], ◌∷◌, arith}
use new_ip_linux.Lbf.Store.{State, Call, Kernel, null}
use new_ip_linux.Lbf.Store.Returns.{Returns}
use new_ip_linux.Lbf.Queue.{pnode_queue_add, remove_pnode}
use new_ip_linux.Lbf.Queue.Add.{Enqueued, pnode_queue_add-insert}
use new_ip_linux.Lbf.Queue.Remove.{Removed, remove_pnode-first}
use new_ip_linux.Lbf.Ranges.{get_hnode}
use new_ip_linux.Lbf.Ranges.Get.{Serves, Allocates, get_hnode-Serves, get_hnode_last}
use new_ip_linux.Lbf.Search.Expired.{kept}
use new_ip_linux.Lbf.Search.Soonest.{WalkedOn, search_next_pnode-WalkedOn}
use new_ip_linux.Lbf.Stock.{Shelf, Stocked}
use new_ip_linux.Lbf.Search.Walk.{Walked, sent, search_now_pnode-Walked}
use new_ip_linux.Lbf.Search.{search_now_pnode, search_next_pnode, ullong_max}
use new_ip_linux.Lbf.Tests.Data.{
  kernel, store, no_contract, hnode, list, first_packet, second_packet, hnode-At, first-At,
  second-Chain, packets-Chain, store-HasHnodes,
}

abbrev s : State
s = store no_contract

pnode_queue_add-insert_example :
    Returns
      (Enqueued kernel s 1 hnode
        (record { tmin_nsec = 60; tmax_nsec = 90; trcv = 0; realpkt = 33 })
        ((2, first_packet) ∷ (3, second_packet) ∷ []))
      (pnode_queue_add kernel 3 1 33 60 90 0 s)
pnode_queue_add-insert_example =
    pnode_queue_add-insert kernel s 33 60 90 0 3 hnode-At packets-Chain (omega arith) (omega arith)
      refl (omega arith)

remove_pnode-first_example :
    Returns (Removed s 1 hnode (2, first_packet) ((3, second_packet) ∷ [])) (remove_pnode 2 s)
remove_pnode-first_example = remove_pnode-first s hnode hnode-At refl first-At refl second-Chain

get_hnode-Serves_example :
    Returns (Serves kernel 24 s list ((1, hnode) ∷ [])) (get_hnode kernel 2 24 s)
get_hnode-Serves_example =
    get_hnode-Serves kernel 24 2 store-HasHnodes (omega arith) refl (omega arith)

get_hnode_last_example :
    Returns (Allocates kernel 29 s list ((1, hnode) ∷ [])) (get_hnode kernel 2 29 s)
get_hnode_last_example =
    get_hnode_last kernel 29 2 store-HasHnodes (omega arith) refl (omega arith) refl

-- On the last hop at the time 185 the first packet has expired, and the second may be sent.
abbrev last_hop : State
last_hop = record s { sched = record (s.sched) { hops_left = 0 } }

abbrev late_kernel : Kernel
late_kernel = record kernel { get_time = λ _. 185 }

abbrev shelf : Shelf
shelf = record { at = 1; hnode = hnode; packets = (2, first_packet) ∷ (3, second_packet) ∷ [] }

second_sent : sent 185 0 (shelf ∷ []) ≡ 3
unfolding kept
second_sent = refl

shelf-Stocked : Stocked s.hnodes s.pnodes 1 (shelf ∷ [])
shelf-Stocked = record {
  line = store-HasHnodes.line;
  filled = ((refl, packets-Chain), tt);
  apart = (tt, tt);
}

search_now_pnode-Walked_example :
    Returns
      (Walked (record last_hop { calls = Call.psched_get_time ∷ [] }) 185 1 (shelf ∷ []))
      (search_now_pnode late_kernel 3 last_hop)
search_now_pnode-Walked_example =
    search_now_pnode-Walked late_kernel last_hop list (shelf ∷ []) 3 refl shelf-Stocked
      (omega arith, tt) (omega arith)

search_next_pnode-WalkedOn_example :
    Returns
      (WalkedOn
        (record last_hop { calls = Call.psched_get_time ∷ [] })
        185
        ullong_max
        null
        1
        (shelf ∷ []))
      (search_next_pnode late_kernel 3 last_hop)
search_next_pnode-WalkedOn_example =
    search_next_pnode-WalkedOn late_kernel last_hop list (shelf ∷ []) 3 refl shelf-Stocked
      (omega arith, tt) (omega arith)
