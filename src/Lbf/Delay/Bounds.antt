-- ===== src/Lbf/Delay/Bounds.antt =====
-- What the two bounds of a hop promise: together with what the packet has spent they keep it inside
-- its contract.
use native.Mathlib.Nat.{div-le_self, div-add-mod, mod-lt, div-mul-le_self, le-div_iff_mul-le}
use new_ip_linux.Common.{ℕ, ◌+◌, ◌-◌, ◌*◌, ◌/◌, ◌^◌, ◌≤◌, ◌<◌, ◌≡◌, arith}
use new_ip_linux.Lbf.Delay.{get_min_delay, get_max_delay}

le-div : (a b n : ℕ) → 0 < n → a ≤ b → a / n ≤ b / n
le-div a b n p h = (le-div_iff_mul-le p).1 (omega (arith, div-mul-le_self a n))

-- A share of a delay, `n` times, is the delay less a remainder below `n`.
share_bounds : (a n : ℕ) → 0 < n → (n * (a / n) ≤ a) × (a < n * (a / n) + n)
share_bounds a n p = omega (arith, div-add-mod a n, mod-lt a p)

module _ (e hi todelay tohops : ℕ) (pos_hops : 0 < tohops) where
  get_max_delay-eq :
      0 < hi
      → hi < 2 ^ 16
      → e + todelay ≤ hi
      → get_max_delay e hi todelay tohops ≡ (hi - (e + todelay)) / tohops
  unfolding get_max_delay
  get_max_delay-eq some_limit small in_time =
      ground (arith, div-le_self (hi - (e + todelay)) tohops)

  pub get_max_delay-le :
      0 < hi → hi < 2 ^ 16 → e + todelay ≤ hi → get_max_delay e hi todelay tohops ≤ hi
  get_max_delay-le a b c =
      omega (arith, get_max_delay-eq a b c, div-le_self (hi - (e + todelay)) tohops)

  get_min_delay-eq :
      (lo : ℕ) → lo < 2 ^ 16 → get_min_delay e lo todelay tohops ≡ (lo - (e + todelay)) / tohops
  unfolding get_min_delay
  get_min_delay-eq lo small = ground (arith, div-le_self (lo - (e + todelay)) tohops)

  -- If the delay spent and still expected is within `max_delay`, then the latest departure on each
  -- of the hops that are left stays within it, and falls short of it by less than one unit a hop.
  pub get_max_delay_budget :
      0 < hi
      → hi < 2 ^ 16
      → e + todelay ≤ hi
      → (e + todelay + tohops * get_max_delay e hi todelay tohops ≤ hi)
        × (hi < e + todelay + tohops * get_max_delay e hi todelay tohops + tohops)
  get_max_delay_budget a b c =
      rw (get_max_delay-eq a b c) (omega (arith, share_bounds (hi - (e + todelay)) tohops pos_hops))

  -- Waiting the least time on each of the hops that are left falls short of `min_delay` by less
  -- than one unit a hop, and does not pass `min_delay` unless the delay already does.
  pub get_min_delay_budget :
      (lo : ℕ)
      → lo < 2 ^ 16
      → (lo < e + todelay + tohops * get_min_delay e lo todelay tohops + tohops)
        × (e + todelay ≤ lo → e + todelay + tohops * get_min_delay e lo todelay tohops ≤ lo)
  get_min_delay_budget lo small =
      rw (get_min_delay-eq lo small)
        (omega (arith, share_bounds (lo - (e + todelay)) tohops pos_hops))

  -- The window of a hop is not empty: its start is not behind its end.
  pub get_min_delay-le-get_max_delay :
      (lo : ℕ)
      → lo ≤ hi
      → 0 < hi
      → hi < 2 ^ 16
      → e + todelay ≤ hi
      → get_min_delay e lo todelay tohops ≤ get_max_delay e hi todelay tohops
  get_min_delay-le-get_max_delay lo le a b c = omega (
    arith,
    get_max_delay-eq a b c,
    get_min_delay-eq lo (omega arith),
    le-div (lo - (e + todelay)) (hi - (e + todelay)) tohops pos_hops (omega arith),
  )
