-- ===== src/Stats/Tests.antt =====
-- The statistics of a system whose state is the time: the map is replaced at the time 2.
use new_ip_linux.Common.{
  ℕ, suc, ◌≡◌, refl, none, some, List, [], ◌∷◌, ◌==◌, ltb, if◌then◌else◌, arith, ◌*◌,
}
use new_ip_linux.Common.Int.{pos}
use new_ip_linux.Pinned.{MapInfo, Maps, open_bpf_map_file}
use new_ip_linux.Router.Memory.{Datarec, count_frame}
use new_ip_linux.Stats.{
  Counters, map_collect, collect_from, stats_collect, stats_print, print_lines, calc_period,
  gettime, map_get_value_percpu_array, map_get_value_array, sum_percpu,
}
use new_ip_linux.Stats.Loop.{returned, poll_rounds, stats_poll}
use new_ip_linux.Stats.Poll.{HasEnded, Replaced, stats_poll-HasEnded}

abbrev info_at : ℕ → MapInfo
info_at t = record {
  type = 6;
  id = if ltb t 2 then 12 else 13;
  key_size = 4;
  value_size = 16;
  max_entries = 5;
}

abbrev stats_maps : Maps ℕ
stats_maps = record {
  obj_get = λ path t. (pos 9, t);
  info_by_fd = λ fd t. (pos 0, info_at t);
  close = λ fd t. t;
}

-- Two processors.
abbrev values_at : ℕ → List Datarec
values_at t =
    record { rx_packets = t; rx_bytes = 60 * t } ∷ record { rx_packets = 1; rx_bytes = 100 } ∷ []

abbrev stats_counters : Counters ℕ
stats_counters = record {
  clock = λ t. (some (t, 0), t);
  lookup = λ fd key t. none;
  lookup_percpu = λ fd key t. some (values_at t);
  sleep = λ t. suc t;
}

abbrev junk : Datarec
junk = record { rx_packets = 77; rx_bytes = 77 }

-- The first round reports five actions, the second sees another map.
reports :
    stats_poll stats_maps stats_counters [] 3 (pos 9) 12 6 junk 0
    ≡ returned 0
        ((record {
          action = 0;
          total_packets = 2;
          packets = 1;
          total_kbytes = 0;
          bits = 480;
          period = 1000000000;
        }
            ∷ record {
              action = 1;
              total_packets = 2;
              packets = 1;
              total_kbytes = 0;
              bits = 480;
              period = 1000000000;
            }
            ∷ record {
              action = 2;
              total_packets = 2;
              packets = 1;
              total_kbytes = 0;
              bits = 480;
              period = 1000000000;
            }
            ∷ record {
              action = 3;
              total_packets = 2;
              packets = 1;
              total_kbytes = 0;
              bits = 480;
              period = 1000000000;
            }
            ∷ record {
              action = 4;
              total_packets = 2;
              packets = 1;
              total_kbytes = 0;
              bits = 480;
              period = 1000000000;
            }
            ∷ [])
          ∷ [])
        2
unfolding stats_poll poll_rounds open_bpf_map_file stats_collect collect_from map_collect
    stats_print print_lines calc_period gettime map_get_value_percpu_array sum_percpu
reports = refl

-- A failed lookup reports what stood on the stack.
stale_value : map_get_value_array stats_counters (pos 9) 0 junk 0 ≡ junk
unfolding map_get_value_array
stale_value = refl

map_at_two-Replaced : Replaced stats_maps stats_counters [] (λ t. t) 12 2
unfolding open_bpf_map_file
map_at_two-Replaced = record {
  sleep_later = λ t. omega arith;
  clock_later = λ t. omega arith;
  close_later = λ fd t. omega arith;
  open_later = λ i t. omega arith;
  is_replaced = λ i t h. ground arith;
}

stats_poll-HasEnded_example :
    HasEnded (stats_poll stats_maps stats_counters [] 3 (pos 9) 12 6 junk 0)
stats_poll-HasEnded_example =
    stats_poll-HasEnded stats_maps stats_counters [] (λ t. t) 12 2 map_at_two-Replaced 3 6 junk
      (pos 9) 0 (omega arith)

-- One frame of 60 bytes more on the first processor.
abbrev counted : Counters ℕ
counted = record stats_counters {
  lookup_percpu = λ fd key t. some (
      (if t == 0 then junk else count_frame 60 junk)
      ∷ record { rx_packets = 1; rx_bytes = 2 }
      ∷ []);
}
