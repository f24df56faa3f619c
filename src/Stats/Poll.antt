-- ===== src/Stats/Poll.antt =====
-- The loop over the counters ends once the map has been replaced.
use new_ip_linux.Common.{
  ℕ, suc, zero, ◌+◌, ◌<◌, ◌≤◌, ◌≡◌, refl, ◌⊎◌, inl, inr, false, Option, none, some, List, [], ◌∷◌,
  ◌==◌, Str, arith, Bool-cases, leb, leb→le, ◌-◌,
}
use new_ip_linux.Common.Int.{ℤ, pos, negsuc}
use new_ip_linux.Params.{exit_fail_bpf}
use new_ip_linux.Pinned.{MapInfo, Maps, open_bpf_map_file}
use new_ip_linux.Router.Memory.{Datarec}
use new_ip_linux.Stats.{
  Record, StatsRecord, Line, Counters, Run, ran, exited, and_run, at_time, with_value, map_collect,
  collect_from, stats_collect, stats_print, map_type_array, map_type_percpu_array,
}
use new_ip_linux.Stats.Loop.{
  Polled, returned, ended, out_of_fuel, after_report, report, after_opening, poll_rounds,
  stats_poll, after_first, stats_map, answer_or, no_info, no_stats,
}

-- The loop has ended: with the status 0 for a map that was replaced, 40 for one that cannot be
-- opened, or 1 for a clock that cannot be read.
abbrev pub HasEnded : {W : Type 0} → Polled W → Type 0
HasEnded (returned status reports w) = (status ≡ 0) ⊎ (status ≡ exit_fail_bpf)
HasEnded (ended status) = status ≡ 1
HasEnded out_of_fuel = ⊥

-- The map cannot be opened, or its number is not `id`.
abbrev pub IsReplaced : {W : Type 0} → (id : ℕ) → MapInfo → (ℤ × Option MapInfo) × W → Type 0
IsReplaced id i ((negsuc e, answer), w) = Unit
IsReplaced id i ((pos fd, answer), w) = (id == (answer_or i answer).id) ≡ false

-- The time passes while the program sleeps, and is not turned back by a call. From the time `until`
-- on, opening the map fails or gives another number than `id`.
pub record Replaced {W : Type 0} (maps : Maps W) (counters : Counters W) (pin_dir : Str)
    (time : W → ℕ) (id until : ℕ) : Type 0 where
  pub sleep_later : (w : W) → time w < time (counters.sleep w)
  pub clock_later : (w : W) → time w ≤ time ((counters.clock w).1)
  pub close_later : (fd : ℤ) (w : W) → time w ≤ time (maps.close fd w)
  pub open_later :
      (i : MapInfo) (w : W)
      → time w ≤ time ((open_bpf_map_file maps pin_dir stats_map (some i) w).1)
  pub is_replaced :
      (i : MapInfo) (w : W)
      → until ≤ time w
      → IsReplaced id i (open_bpf_map_file maps pin_dir stats_map (some i) w)

module _ {W : Type 0} (maps : Maps W) (counters : Counters W) (pin_dir : Str) (time : W → ℕ)
    (id until : ℕ) (r : Replaced maps counters pin_dir time id until) where
  -- The end of a run is not before the time t.
  abbrev Later : {A : Type 0} → ℕ → Run W A → Type 0
  Later t (ran a w) = t ≤ time w
  Later t (exited status) = status ≡ 1

  with_value-Later :
      (fd : ℤ) (type key t : ℕ) (stale : Datarec) (rec : Record) (w : W)
      → t ≤ time w
      → Later t (with_value counters fd type key stale rec w)
  with_value-Later fd type key t stale rec w h = elim (Bool-cases (type == map_type_array)) [
    | inl y ↦ rw y h
    | inr n ↦
        rw n (elim (Bool-cases (type == map_type_percpu_array)) [ inl y ↦ rw y h | inr m ↦ rw m h ])
  ]

  at_time-Later :
      (fd : ℤ) (type key t : ℕ) (stale : Datarec) (rec : Record) (c : Option (ℕ × ℕ) × W)
      → t ≤ time (c.1)
      → Later t (at_time counters c fd type key stale rec)
  at_time-Later fd type key t stale rec (none, w) h = refl
  at_time-Later fd type key t stale rec (some c, w) h = with_value-Later fd type key t stale _ w h

  map_collect-Later :
      (fd : ℤ) (type key t : ℕ) (stale : Datarec) (rec : Record) (w : W)
      → t ≤ time w
      → Later t (map_collect counters fd type key stale rec w)
  unfolding map_collect
  map_collect-Later fd type key t stale rec w h =
      at_time-Later fd type key t stale rec (counters.clock w) (omega (arith, r.clock_later w))

  and_run-Later :
      {A B : Type 0} (t : ℕ) (m : Run W A) (k : A → W → Run W B)
      → Later t m
      → ((a : A) (w : W) → t ≤ time w → Later t (k a w))
      → Later t (and_run m k)
  and_run-Later t (ran a w) k h f = f a w h
  and_run-Later t (exited status) k h f = h

  collect_from-Later :
      (fd : ℤ) (type key t : ℕ) (stale : Datarec) (recs : StatsRecord) (w : W)
      → t ≤ time w
      → Later t (collect_from counters fd type key stale recs w)
  unfolding collect_from
  collect_from-Later fd type key t stale [] w h = h
  collect_from-Later fd type key t stale (c ∷ cs) w h =
      and_run-Later t (map_collect counters fd type key stale c w) _
        (map_collect-Later fd type key t stale c w h)
        (λ b w₁ h₁.
          and_run-Later t (collect_from counters fd type (key + 1) stale cs w₁) _
            (collect_from-Later fd type (key + 1) t stale cs w₁ h₁) (λ rest w₂ h₂. h₂))

  stats_collect-Later :
      (fd : ℤ) (type t : ℕ) (stale : Datarec) (recs : StatsRecord) (w : W)
      → t ≤ time w
      → Later t (stats_collect counters fd type stale recs w)
  unfolding stats_collect
  stats_collect-Later fd type t stale recs w h = collect_from-Later fd type 0 t stale recs w h

  after_report-HasEnded :
      (ls : List Line) (p : Polled W) → HasEnded p → HasEnded (after_report ls p)
  after_report-HasEnded ls (returned status reports w) h = h
  after_report-HasEnded ls (ended status) h = h
  after_report-HasEnded ls out_of_fuel h = h

  -- After a round the time is later than before it.
  report-HasEnded :
      (fd : ℤ) (prev : StatsRecord) (t : ℕ) (m : Run W StatsRecord)
      (next : StatsRecord → W → Polled W)
      → Later t m
      → ((recs : StatsRecord) (w : W) → t < time w → HasEnded (next recs w))
      → HasEnded (report maps counters pin_dir fd prev m next)
  report-HasEnded fd prev t (exited status) next h f = h
  report-HasEnded fd prev t (ran recs w) next h f =
      after_report-HasEnded (stats_print recs prev) (next recs (counters.sleep (maps.close fd w))) (
        f recs (counters.sleep (maps.close fd w))
          (omega (arith, r.close_later fd w, r.sleep_later (maps.close fd w))))

  after_opening-HasEnded :
      (type t : ℕ) (stale : Datarec) (i : MapInfo) (prev : StatsRecord)
      (o : (ℤ × Option MapInfo) × W) (next : MapInfo → StatsRecord → W → Polled W)
      → t ≤ time (o.1)
      → (IsReplaced id i o
          ⊎ ((j : MapInfo) (recs : StatsRecord) (w : W) → t < time w → HasEnded (next j recs w)))
      → HasEnded (after_opening maps counters pin_dir id type stale i prev o next)
  after_opening-HasEnded type t stale i prev ((negsuc e, answer), w) next h c = inr refl
  after_opening-HasEnded type t stale i prev ((pos fd, answer), w) next h (inl d) = rw d (inl refl)
  after_opening-HasEnded type t stale i prev ((pos fd, answer), w) next h (inr f) =
      elim (Bool-cases (id == (answer_or i answer).id)) [
        | inl y ↦ rw y (
            report-HasEnded (pos fd) prev t (stats_collect counters (pos fd) type stale prev w)
              (next (answer_or i answer)) (stats_collect-Later (pos fd) type t stale prev w h)
              (f (answer_or i answer)))
        | inr d ↦ rw d (inl refl)
      ]

  poll_rounds-HasEnded :
      (n type : ℕ) (stale : Datarec) (i : MapInfo) (recs : StatsRecord) (w : W)
      → until - time w < n
      → HasEnded (poll_rounds maps counters pin_dir n id type stale i recs w)
  unfolding poll_rounds
  poll_rounds-HasEnded zero type stale i recs w h = absurd (omega arith)
  poll_rounds-HasEnded (suc n) type stale i recs w h =
      after_opening-HasEnded type (time w) stale i recs
        (open_bpf_map_file maps pin_dir stats_map (some i) w)
        (poll_rounds maps counters pin_dir n id type stale) (r.open_later i w)
        (elim (Bool-cases (leb until (time w))) [
          | inl y ↦ inl (r.is_replaced i w (leb→le until (time w) y))
          | inr m ↦
              inr (λ j recs' w' later. poll_rounds-HasEnded n type stale j recs' w' (ground arith))
        ])

  first-HasEnded :
      (n type t : ℕ) (stale : Datarec) (m : Run W StatsRecord)
      → until - t < n
      → Later t m
      → HasEnded (after_first maps counters pin_dir n id type stale m)
  first-HasEnded n type t stale (exited status) h l = l
  first-HasEnded n type t stale (ran recs w) h l =
      poll_rounds-HasEnded n type stale no_info recs (counters.sleep w)
        (omega (arith, r.sleep_later w))

  -- If sleeping takes time, no call turns the time back, and from some time on opening the map fails
  -- or gives another number than the one that is polled, then the polling ends, with fuel for one
  -- round more than the time that is left until then: with the status 0 or 40, or with the end of
  -- the program, of status 1.
  pub stats_poll-HasEnded :
      (n type : ℕ) (stale : Datarec) (fd : ℤ) (w : W)
      → until - time w < n
      → HasEnded (stats_poll maps counters pin_dir n fd id type stale w)
  unfolding stats_poll
  stats_poll-HasEnded n type stale fd w h =
      first-HasEnded n type (time w) stale (stats_collect counters fd type stale no_stats w) h
        (stats_collect-Later fd type (time w) stale no_stats w (omega arith))
