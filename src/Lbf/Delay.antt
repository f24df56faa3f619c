-- ===== src/Lbf/Delay.antt =====
-- `lbf_get_min_delay` and `lbf_get_max_delay` of lbf/src/linux/sch_lbf.c: the part of a contract's
-- budget that this hop may take, in units of 10^-4 s. All arguments are `__u16`; the sums of two of
-- them are taken in `int` and do not wrap, what is stored in a `__u16` does.
pub mod Bounds
use new_ip_linux.Common.{ℕ, ◌+◌, ◌-◌, ◌/◌, ◌^◌, ltb, ◌==◌, if◌then◌else◌}
use new_ip_linux.Wire.{u16}

-- `DMAX_BESTEFFORT`
abbrev pub dmax_besteffort : ℕ
dmax_besteffort = 10000

-- `LQB_BESTEFFORT`
abbrev pub lqb_besteffort : ℕ
lqb_besteffort = 64000

unfoldable pub get_min_delay : (e_delay_new min_delay fib_todelay fib_tohops : ℕ) → ℕ
get_min_delay e_delay_new min_delay fib_todelay fib_tohops =
    let qmin : ℕ =
      if ltb (e_delay_new + fib_todelay) min_delay
      then u16 (min_delay - (e_delay_new + fib_todelay))
      else 0 in
    if fib_tohops == 0 then 0 else u16 (qmin / fib_tohops)

-- `qmax` wraps where the delay already spent exceeds `max_delay`.
unfoldable pub get_max_delay : (e_delay_new max_delay fib_todelay fib_tohops : ℕ) → ℕ
get_max_delay e_delay_new max_delay fib_todelay fib_tohops =
    let qmax : ℕ =
      if ltb 0 max_delay then u16 (max_delay + 2 ^ 32 - (e_delay_new + fib_todelay)) else 0 in
    if fib_tohops == 0
    then 0
    else u16 (if max_delay == 0 then dmax_besteffort else qmax / fib_tohops)
