-- ===== src/Iproute/Tests.antt =====
-- A run of the options.
use new_ip_linux.Common.{Str, ltb, if◌then◌else◌, ℕ, ◌-◌, ◌≡◌, refl, Option, none, some, [], ◌∷◌}
use new_ip_linux.Wire.{Mem}
use new_ip_linux.Iproute.{print_xstats, widen}

-- Numbers of one digit.
abbrev digit : Str → Option ℕ
digit (d ∷ []) = some (d - 48)
digit _ = none

-- Four bytes of statistics, and what lies behind them.
abbrev ones_then : Mem
ones_then i = if ltb i 4 then 1 else 2

short_stats : print_xstats (some (record { bytes = ones_then; size = 4 })) ≡ some (16843009, 0)
unfolding print_xstats widen
short_stats = refl
