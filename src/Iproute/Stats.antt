-- ===== src/Iproute/Stats.antt =====
-- The report of statistics reads what was received and nothing else.
use new_ip_linux.Common.{ℕ, ◌<◌, ◌≡◌, refl, some, arith}
use new_ip_linux.Wire.{Mem}
use new_ip_linux.Iproute.{widen, print_xstats}

module _ (a b : Mem) (size : ℕ) (same : (i : ℕ) → i < size → a i ≡ b i) where
  widen-same :
      (i : ℕ)
      → i < 8
      → widen (record { bytes = a; size = size }) i ≡ widen (record { bytes = b; size = size }) i
  unfolding widen
  widen-same i inside = ground (arith, same i)

  -- Two messages of one size that agree in all their bytes are reported alike, whatever lies in the
  -- memory behind them.
  pub print_xstats-cong :
      print_xstats (some (record { bytes = a; size = size }))
      ≡ print_xstats (some (record { bytes = b; size = size }))
  unfolding print_xstats
  print_xstats-cong =
      rw
        (
          widen-same 0 (omega arith),
          widen-same 1 (omega arith),
          widen-same 2 (omega arith),
          widen-same 3 (omega arith),
          widen-same 4 (omega arith),
          widen-same 5 (omega arith),
          widen-same 6 (omega arith),
          widen-same 7 (omega arith),
        )
        refl
