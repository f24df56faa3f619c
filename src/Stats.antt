-- ===== src/Stats.antt =====
-- xdp/loader/xdp_stats.c: reading the counters that the XDP program keeps, and reporting them. The
-- clock, the maps and the number of processors are parameters. Counters and times have 64 bits.
pub mod Sums
pub mod Loop
pub mod Poll
mod Tests
use new_ip_linux.Common.{
  ℕ, ◌+◌, ◌-◌, ◌*◌, ◌/◌, ◌%◌, ◌^◌, Bool, true, false, Option, none, some, List, [], ◌∷◌, ◌==◌, ltb,
  if◌then◌else◌, Str,
}
use new_ip_linux.Common.Int.{ℤ, pos, negsuc}
use new_ip_linux.Wire.{u64}
use new_ip_linux.Router.Memory.{Datarec, xdp_action_max}

-- `NANOSEC_PER_SEC`
abbrev pub nanosec_per_sec : ℕ
nanosec_per_sec = 1000000000

-- `(__u64) t.tv_sec * NANOSEC_PER_SEC + t.tv_nsec`, for a clock that can be read.
unfoldable pub gettime : (tv_sec tv_nsec : ℕ) → ℕ
gettime sec nsec = u64 (sec * nanosec_per_sec + nsec)

-- `struct record`
pub record Record : Type 0 where
  pub timestamp : ℕ
  pub total : Datarec

-- `a - b` of 64 bits.
abbrev pub minus64 : (a b : ℕ) → ℕ
minus64 a b = u64 (a + 2 ^ 64 - b)

-- The period in nanoseconds; the source has it in seconds, as a number with a fraction.
unfoldable pub calc_period : (r p : Record) → ℕ
calc_period r p = minus64 r.timestamp p.timestamp

-- A line of the report, with each rate as a fraction: packets in the period, and bits, of 64 bits.
pub record Line : Type 0 where
  pub action : ℕ
  pub total_packets : ℕ
  pub packets : ℕ
  pub total_kbytes : ℕ
  pub bits : ℕ
  pub period : ℕ

-- The line of an action.
abbrev pub line_of : (action : ℕ) → (rec prev : Record) → Line
line_of action r p = record {
  action = action;
  total_packets = (r.total).rx_packets;
  packets = minus64 (r.total).rx_packets (p.total).rx_packets;
  total_kbytes = (r.total).rx_bytes / 1000;
  bits = u64 (minus64 (r.total).rx_bytes (p.total).rx_bytes * 8);
  period = calc_period r p;
}

-- The lines of some actions; an action whose period is 0 ends the report.
unfoldable pub print_lines : (action : ℕ) → (recs : List (Record × Record)) → List Line
print_lines action [] = []
print_lines action (r ∷ rs) =
    let rest = print_lines (action + 1) rs in
    if calc_period (r.0) (r.1) == 0 then [] else line_of action (r.0) (r.1) ∷ rest

-- `struct stats_record`: a record for each action.
abbrev pub StatsRecord : Type 0
StatsRecord = List Record

abbrev pub zip : StatsRecord → StatsRecord → List (Record × Record)
zip [] qs = []
zip (r ∷ rs) [] = []
zip (r ∷ rs) (q ∷ qs) = (r, q) ∷ zip rs qs

unfoldable pub stats_print : (stats_rec stats_prev : StatsRecord) → List Line
stats_print rec prev = print_lines 0 (zip rec prev)

-- What the program reads: the clock, none where it cannot be read; the counters of a key for all
-- processors, and for each of them; and what passes while it sleeps.
pub record Counters (W : Type 0) : Type 0 where
  pub clock : W → Option (ℕ × ℕ) × W
  pub lookup : (fd : ℤ) → (key : ℕ) → W → Option Datarec
  pub lookup_percpu : (fd : ℤ) → (key : ℕ) → W → Option (List Datarec)
  pub sleep : W → W

-- A result, or the end of the program.
pub data Run (W A : Type 0) : Type 0 where
  ran : A → W → Run W A
  exited : (status : ℕ) → Run W A

abbrev pub and_run : {W A B : Type 0} → Run W A → (A → W → Run W B) → Run W B
and_run (ran a w) k = k a w
and_run (exited status) k = exited status

-- BPF_MAP_TYPE_ARRAY and BPF_MAP_TYPE_PERCPU_ARRAY
abbrev pub map_type_array : ℕ
map_type_array = 2

abbrev pub map_type_percpu_array : ℕ
map_type_percpu_array = 6

-- The sums over the processors, each addition of 64 bits.
unfoldable pub sum_percpu : List Datarec → (sum_pkts sum_bytes : ℕ) → Datarec
sum_percpu [] pkts bytes = record { rx_packets = pkts; rx_bytes = bytes }
sum_percpu (v ∷ vs) pkts bytes =
    sum_percpu vs (u64 (pkts + v.rx_packets)) (u64 (bytes + v.rx_bytes))

-- The new contents of `value`; a failed lookup leaves them.
abbrev pub found_value : Option Datarec → (value : Datarec) → Datarec
found_value none value = value
found_value (some v) value = v

abbrev pub found_values : Option (List Datarec) → (value : Datarec) → Datarec
found_values none value = value
found_values (some vs) value = sum_percpu vs 0 0

module _ {W : Type 0} (counters : Counters W) where
  unfoldable pub map_get_value_array : (fd : ℤ) → (key : ℕ) → (value : Datarec) → W → Datarec
  map_get_value_array fd key value w = found_value (counters.lookup fd key w) value

  unfoldable pub map_get_value_percpu_array : (fd : ℤ) → (key : ℕ) → (value : Datarec) → W → Datarec
  map_get_value_percpu_array fd key value w = found_values (counters.lookup_percpu fd key w) value

  -- `stale` is what stands in the variable that the source does not set before.
  abbrev pub with_value :
      (fd : ℤ) → (map_type key : ℕ) → (stale : Datarec) → Record → W → Run W (Bool × Record)
  with_value fd type key stale r w =
      if type == map_type_array
      then ran (true, record r { total = map_get_value_array fd key stale w }) w
      else if type == map_type_percpu_array
      then ran (true, record r { total = map_get_value_percpu_array fd key stale w }) w
      else ran (false, r) w

  abbrev pub at_time :
      Option (ℕ × ℕ) × W
      → (fd : ℤ) → (map_type key : ℕ) → (stale : Datarec) → Record
      → Run W (Bool × Record)
  at_time (none, w) fd type key stale r = exited 1
  at_time (some t, w) fd type key stale r =
      with_value fd type key stale (record r { timestamp = gettime (t.0) (t.1) }) w

  unfoldable pub map_collect :
      (fd : ℤ) → (map_type key : ℕ) → (stale : Datarec) → Record → W → Run W (Bool × Record)
  map_collect fd type key stale r w = at_time (counters.clock w) fd type key stale r

  -- The loop over the keys from `key` on, one for each record.
  unfoldable pub collect_from :
      (fd : ℤ) → (map_type key : ℕ) → (stale : Datarec) → StatsRecord → W → Run W StatsRecord
  collect_from fd type key stale [] w = ran [] w
  collect_from fd type key stale (r ∷ rs) w =
      and_run (map_collect fd type key stale r w)
        λ b w. and_run (collect_from fd type (key + 1) stale rs w) λ rest w. ran (b.1 ∷ rest) w

  unfoldable pub stats_collect :
      (fd : ℤ) → (map_type : ℕ) → (stale : Datarec) → StatsRecord → W → Run W StatsRecord
  stats_collect fd type stale recs w = collect_from fd type 0 stale recs w
