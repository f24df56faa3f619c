-- ===== src/Router/Safety.antt =====
-- The XDP program as a whole: safe accesses, an unchanged payload and the statistics.
use new_ip_linux.Common.{ℕ, ◌≡◌, ◌⊎◌, if◌then◌else◌, ◌==◌, some}
use new_ip_linux.Router.Memory.{Frame, Datarec, count_frame, xdp_aborted}
use new_ip_linux.Router.Lands.{Lands, Fixed}

-- The statistics after the action `a`: one more frame in its record, or no change and the action
-- is XDP_ABORTED.
abbrev pub Counted : Frame → (a : ℕ) → Frame → Type 0
Counted f a f' =
    (a ≡ xdp_aborted) × (f'.stats ≡ f.stats)
    ⊎ ((r : Datarec) × (f.stats a ≡ some r)
        × ((b : ℕ) → f'.stats b ≡ (if b == a then some (count_frame f.len r) else f.stats b)))

-- What the program leaves of the frame, beside the action that it returns.
abbrev pub Outcome : Frame → ℕ → Frame → Type 0
Outcome f a f' = (f'.len ≡ f.len) × ((i : ℕ) → Fixed f i → f'.bytes i ≡ f.bytes i) × Counted f a f'
