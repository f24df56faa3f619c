-- ===== src/Stats/Loop.antt =====
-- xdp/loader/xdp_stats.c: the loop that reads and reports the counters, and `main`. A loop takes fuel,
-- one unit for each round.
use new_ip_linux.Common.{
  ℕ, suc, zero, Option, none, some, List, [], ◌∷◌, ◌==◌, not, if◌then◌else◌, Str, ◌++◌, ◌⊎◌, inl,
  inr,
}
use new_ip_linux.Common.Int.{ℤ, pos, negsuc}
use new_ip_linux.Params.{Config, name_of, is_unset, exit_fail_option, exit_fail_bpf}
use new_ip_linux.Params.Table
use new_ip_linux.Params.Table.{CommandLine}
use new_ip_linux.Pinned.{MapInfo, Maps, open_bpf_map_file, path_in, check_map_fd_info}
use new_ip_linux.Router.Memory.{Datarec, xdp_action_max}
use new_ip_linux.Stats.{
  Record, StatsRecord, Line, Counters, Run, ran, exited, stats_collect, stats_print,
}

-- "xdp_stats_map"
abbrev pub stats_map : Str
stats_map = 120 ∷ 100 ∷ 112 ∷ 95 ∷ 115 ∷ 116 ∷ 97 ∷ 116 ∷ 115 ∷ 95 ∷ 109 ∷ 97 ∷ 112 ∷ []

-- "/sys/fs/bpf"
abbrev pub pin_basedir : Str
pin_basedir = 47 ∷ 115 ∷ 121 ∷ 115 ∷ 47 ∷ 102 ∷ 115 ∷ 47 ∷ 98 ∷ 112 ∷ 102 ∷ []

abbrev pub no_info : MapInfo
no_info = record { type = 0; id = 0; key_size = 0; value_size = 0; max_entries = 0 }

abbrev pub no_stats : StatsRecord
no_stats =
    let r : Record = record { timestamp = 0; total = record { rx_packets = 0; rx_bytes = 0 } } in
    r ∷ r ∷ r ∷ r ∷ r ∷ []

-- A status, with the reports that were printed; the end of the program; or no more fuel.
pub data Polled (W : Type 0) : Type 0 where
  returned : (status : ℕ) → (reports : List (List Line)) → W → Polled W
  ended : (status : ℕ) → Polled W
  out_of_fuel : Polled W

abbrev pub after_report : {W : Type 0} → List Line → Polled W → Polled W
after_report ls (returned status reports w) = returned status (ls ∷ reports) w
after_report ls (ended status) = ended status
after_report ls out_of_fuel = out_of_fuel

-- The contents of `info` after a call that was given its address.
abbrev pub answer_or : MapInfo → Option MapInfo → MapInfo
answer_or i none = i
answer_or i (some answer) = answer

abbrev pub with_reports : {W : Type 0} → List (List Line) → Polled W → Polled W
with_reports ls (returned status reports w) = returned status (ls ++ reports) w
with_reports ls (ended status) = ended status
with_reports ls out_of_fuel = out_of_fuel

module _ {W : Type 0} (maps : Maps W) (counters : Counters W) (pin_dir : Str) where
  -- One round: what follows is under `next`.
  abbrev pub report :
      (fd : ℤ) → (prev : StatsRecord) → Run W StatsRecord → (StatsRecord → W → Polled W) → Polled W
  report fd prev (exited status) next = ended status
  report fd prev (ran recs w) next =
      after_report (stats_print recs prev) (next recs (counters.sleep (maps.close fd w)))

  abbrev pub after_opening :
      (id map_type : ℕ)
      → (stale : Datarec) → (info : MapInfo) → (prev : StatsRecord) → (ℤ × Option MapInfo) × W
      → (MapInfo → StatsRecord → W → Polled W)
      → Polled W
  after_opening id type stale i prev ((negsuc e, answer), w) next = returned exit_fail_bpf [] w
  after_opening id type stale i prev ((pos fd, answer), w) next =
      if not (id == (answer_or i answer).id)
      then returned 0 [] (maps.close (pos fd) w)
      else report (pos fd) prev (stats_collect counters (pos fd) type stale prev w)
          (next (answer_or i answer))

  unfoldable pub poll_rounds :
      (fuel : ℕ) → (id map_type : ℕ) → (stale : Datarec) → MapInfo → StatsRecord → W → Polled W
  poll_rounds zero id type stale i recs w = out_of_fuel
  poll_rounds (suc n) id type stale i recs w =
      after_opening id type stale i recs (open_bpf_map_file maps pin_dir stats_map (some i) w)
        (poll_rounds n id type stale)

  abbrev pub after_first :
      (fuel : ℕ) → (id map_type : ℕ) → (stale : Datarec) → Run W StatsRecord → Polled W
  after_first n id type stale (exited status) = ended status
  after_first n id type stale (ran recs w) =
      poll_rounds n id type stale no_info recs (counters.sleep w)

  unfoldable pub stats_poll :
      (fuel : ℕ) → (map_fd : ℤ) → (id map_type : ℕ) → (stale : Datarec) → W → Polled W
  stats_poll n fd id type stale w =
      after_first n id type stale (stats_collect counters fd type stale no_stats w)

  abbrev pub map_expect : MapInfo
  map_expect = record {
    type = 0;
    id = 0;
    key_size = 4;
    value_size = 16;
    max_entries = xdp_action_max;
  }

  -- The next round of `main`. No status of `stats_poll` is below 0, which would end it.
  abbrev pub after_poll : (map_fd : ℤ) → Polled W → (W → Polled W) → Polled W
  after_poll fd (returned status reports w) next = with_reports reports (next (maps.close fd w))
  after_poll fd (ended status) next = ended status
  after_poll fd out_of_fuel next = out_of_fuel

  abbrev pub after_check :
      (fuel : ℕ)
      → (stale : Datarec) → (map_fd : ℤ) → (err : ℕ) → MapInfo
      → W
      → (MapInfo → W → Polled W)
      → Polled W
  after_check n stale fd err i w next =
      if err == 0
      then after_poll fd (stats_poll n fd i.id i.type stale w) (next i)
      else returned err [] (maps.close fd w)

  abbrev pub after_main_opening :
      (fuel : ℕ)
      → (stale : Datarec) → (info : MapInfo) → (ℤ × Option MapInfo) × W
      → (MapInfo → W → Polled W)
      → Polled W
  after_main_opening n stale i ((negsuc e, answer), w) next = returned exit_fail_bpf [] w
  after_main_opening n stale i ((pos fd, answer), w) next =
      after_check n stale (pos fd) (check_map_fd_info (answer_or i answer) map_expect)
        (answer_or i answer) w next

  unfoldable pub main_rounds : (fuel : ℕ) → (stale : Datarec) → (info : MapInfo) → W → Polled W
  main_rounds zero stale i w = out_of_fuel
  main_rounds (suc n) stale i w =
      after_main_opening n stale i (open_bpf_map_file maps pin_dir stats_map (some i) w)
        (main_rounds n stale)

-- `main` of xdp_stats.c, from what the command line gave: its result, or the end by the options.
module _ {W : Type 0} (maps : Maps W) (counters : Counters W) where
  unfoldable pub main_with : (fuel : ℕ) → (stale : Datarec) → Config → W → Polled W
  main_with n stale c w =
      if is_unset c.ifindex
      then returned exit_fail_option [] w
      else main_rounds maps counters (path_in pin_basedir (name_of c.ifname c.ifname_buf)) n stale
          no_info w

  unfoldable pub stats_main :
      (fuel : ℕ) → (stale : Datarec) → CommandLine → W → Polled W ⊎ CommandLine
  stats_main n stale (Table.returns c verbose) w = inl (main_with n stale c w)
  stats_main n stale (Table.exits status printed) w = inr (Table.exits status printed)
  stats_main n stale Table.faults w = inr Table.faults
