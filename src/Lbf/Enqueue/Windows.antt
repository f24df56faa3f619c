-- ===== src/Lbf/Enqueue/Windows.antt =====
-- The window that `lbf_enqueue` of lbf/src/linux/sch_lbf.c gives a packet, from the bytes of its
-- contract.
use mathlib.Core.Path.{◌∙◌}
use new_ip_linux.Common.{ℕ, ◌+◌, ◌*◌, ◌-◌, ◌^◌, ◌<◌, ◌≤◌, ◌≡◌, arith, false}
use new_ip_linux.Wire.{Mem, load16, store16, swap16, htons, ntohs, u16}
use new_ip_linux.Wire.Latency
use new_ip_linux.Lbf.Delay.Bounds.{
  get_max_delay_budget, get_max_delay-le, get_min_delay_budget, get_min_delay-le-get_max_delay,
}
use new_ip_linux.Lbf.Enqueue.{update_delays, window, budget, is_late}

u16-small : (v : ℕ) → v < 2 ^ 16 → u16 v ≡ v
u16-small v small = omega arith

-- A field of the contract at `c`, as a number.
abbrev pub field : Mem → (c o : ℕ) → ℕ
field m c o = ntohs (load16 m (c + o))

store-back :
    (m : Mem) (o i : ℕ)
    → ((i : ℕ) → m i < 256)
    → store16 m o (htons (u16 (ntohs (load16 m o) + 0))) i ≡ m i
unfolding store16 load16 swap16
store-back m o i bytes = ground (arith, bytes o, bytes (o + 1))

store-back0 :
    (m : Mem) (o i : ℕ)
    → ((i : ℕ) → m i < 256)
    → store16 m o (htons (u16 (ntohs (load16 m o) + 2 ^ 16 - 0))) i ≡ m i
unfolding store16 load16 swap16
store-back0 m o i bytes = ground (arith, bytes o, bytes (o + 1))

-- The delay of this hop is 0, so rewriting the delays changes no byte of the packet.
pub update_delays-same : (m : Mem) (c i : ℕ) → ((i : ℕ) → m i < 256) → update_delays m c i ≡ m i
unfolding update_delays
update_delays-same m c i bytes =
    let m' : Mem =
      store16 m (c + Latency.experienced_delay)
        (htons (u16 (ntohs (load16 m (c + Latency.experienced_delay)) + 0))) in
    let same : (j : ℕ) → m' j ≡ m j = λ j. store-back m (c + Latency.experienced_delay) j bytes in
    store-back0 m' (c + Latency.fib_todelay) i (λ j. rw (same j) (bytes j)) ∙ same i

-- A contract whose times, in units of 10^-4 s, fit in 16 bits, which has hops left and is in time.
pub record InTime (m : Mem) (c : ℕ) : Type 0 where
  pub hops : 0 < field m c Latency.fib_tohops
  pub limit : 0 < field m c Latency.max_delay
  pub fits_max : field m c Latency.max_delay * 10 < 2 ^ 16
  pub fits_todelay : field m c Latency.fib_todelay * 10 < 2 ^ 16
  pub ordered : field m c Latency.min_delay ≤ field m c Latency.max_delay
  pub in_time :
      field m c Latency.experienced_delay + field m c Latency.fib_todelay * 10
      ≤ field m c Latency.max_delay * 10

module _ (m : Mem) (c : ℕ) where
  abbrev hops_left : ℕ
  hops_left = field m c Latency.fib_tohops

  abbrev spent : ℕ
  spent = field m c Latency.experienced_delay + field m c Latency.fib_todelay * 10

  -- What the window of a packet promises.
  abbrev pub Fits : Type 0
  Fits =
      (is_late (window m c) ≡ false)
      × ((window m c).lqmin ≤ (window m c).lqmax)
      × (budget (window m c) ≡ (window m c).lqmax - (window m c).lqmin)
      × (spent + hops_left * (window m c).lqmax ≤ field m c Latency.max_delay * 10)
      × (field m c Latency.max_delay * 10 < spent + hops_left * (window m c).lqmax + hops_left)
      × (field m c Latency.min_delay * 10 < spent + hops_left * (window m c).lqmin + hops_left)

module _ (m : Mem) (c : ℕ) (e : InTime m c) where
  -- Let a contract have hops left and a maximum that is not 0 and not below its minimum; let ten times
  -- the maximum, and ten times the delay expected to the destination, fit in 16 bits; and let the delay
  -- experienced and ten times the one expected be together no more than ten times the maximum. Then
  -- the packet is not late by the test of the early discard. Its window is not empty,
  -- and its queue is that of the length of the window. If each hop that is left keeps the packet to
  -- the end of its window, then what it has spent, what it is expected to spend and these waits
  -- together stay within the maximum of the contract, and fall short of it by less than one unit a
  -- hop; if each keeps it to the start, they fall short of the minimum by less than that.
  pub window-InTime : Fits m c
  unfolding window
  window-InTime =
      let ordered = e.ordered in
      let fits = e.fits_max in
      let limit = e.limit in
      let late = e.in_time in
      let e0 : ℕ = field m c Latency.experienced_delay in
      let lo : ℕ = field m c Latency.min_delay * 10 in
      let hi : ℕ = field m c Latency.max_delay * 10 in
      let to : ℕ = field m c Latency.fib_todelay * 10 in
      let n : ℕ = field m c Latency.fib_tohops in
      let some_limit : 0 < hi = omega arith in
      let small : lo < 2 ^ 16 = omega arith in
      let max_lem = get_max_delay_budget e0 hi to n e.hops some_limit fits late in
      let min_lem = get_min_delay_budget e0 hi to n e.hops lo small in
      let le =
        get_min_delay-le-get_max_delay e0 hi to n e.hops lo (omega arith) some_limit fits late in
      rw (u16-small hi fits, u16-small to e.fits_todelay, u16-small lo small)
        (
          ground arith,
          le,
          ground (arith, get_max_delay-le e0 hi to n e.hops some_limit fits late),
          max_lem.0,
          max_lem.1,
          min_lem.0,
        )
