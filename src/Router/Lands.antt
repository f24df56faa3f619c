-- ===== src/Router/Lands.antt =====
-- What a run of the XDP program keeps of a frame, and its accesses inside the bounds.
use new_ip_linux.Common.{ℕ, ◌+◌, ◌≤◌, ◌<◌, ◌≡◌, ◌≢◌, Option, none, some, arith}
use new_ip_linux.Wire
use new_ip_linux.Wire.{Mem, ntohs}
use new_ip_linux.Router.Memory.{
  Frame, Cmd, and_then, fetch8, fetch16, put16, copy, set_ifindex, set_contract, overlay,
}

-- A run that makes no access out of bounds, and a postcondition.
abbrev pub Lands : {A : Type 0} → (A → Frame → Type 0) → Option (A × Frame) → Type 0
Lands P none = ⊥
Lands P (some (a, f)) = P a f

-- A run that leaves the length and the statistics of a frame, and the bytes at the offsets `keep`.
abbrev pub Kept : {A : Type 0} → (keep : ℕ → Type 0) → Frame → A → Frame → Type 0
Kept keep f _ f' =
    (f'.len ≡ f.len) × (f'.stats ≡ f.stats) × ((i : ℕ) → keep i → f'.bytes i ≡ f.bytes i)

-- The offset of the hops of a ping contract.
abbrev pub hop_at : Frame → ℕ
hop_at f = 14 + Wire.load8 f.bytes 15 + 4

-- Offsets outside the hops, and those behind the two addresses of the Ethernet header too.
abbrev pub NotHop : Frame → ℕ → Type 0
NotHop f i = (i ≢ hop_at f) × (i ≢ hop_at f + 1)

abbrev pub Fixed : Frame → ℕ → Type 0
Fixed f i = (12 ≤ i) × NotHop f i

pub bind-Lands :
    {A B : Type 0} (P : A → Frame → Type 0) (Q : B → Frame → Type 0) (r : Option (A × Frame))
    (k : A → Cmd B)
    → Lands P r
    → ((a : A) (f : Frame) → P a f → Lands Q (k a f))
    → Lands Q (and_then r k)
bind-Lands P Q none k h next = h
bind-Lands P Q (some (a, f)) k h next = next a f h

pub mono-Lands :
    {A : Type 0} (P Q : A → Frame → Type 0) (r : Option (A × Frame))
    → Lands P r
    → ((a : A) (f : Frame) → P a f → Q a f)
    → Lands Q r
mono-Lands P Q none h weaken = h
mono-Lands P Q (some (a, f)) h weaken = weaken a f h

module _ (f : Frame) (o : ℕ) where
  pub fetch8-ok : o < f.len → fetch8 o f ≡ some (Wire.load8 f.bytes o, f)
  unfolding fetch8
  fetch8-ok h = ground arith

  pub fetch16-ok : o + 1 < f.len → fetch16 o f ≡ some (Wire.load16 f.bytes o, f)
  unfolding fetch16
  fetch16-ok h = ground arith

  pub put16-ok :
      (v : ℕ)
      → o + 1 < f.len
      → put16 o v f ≡ some (tt, record f { bytes = Wire.store16 f.bytes o v })
  unfolding put16
  put16-ok v h = ground arith

  pub copy-ok :
      (n : ℕ) (src : Mem)
      → o + n ≤ f.len
      → copy o n src f ≡ some (tt, record f { bytes = overlay f.bytes o n src })
  unfolding copy
  copy-ok n src h = ground arith

module _ (f : Frame) where
  pub set_ifindex-ok :
      (room i : ℕ)
      → 12 ≤ room
      → set_ifindex room i f ≡ some (tt, record f { info = record (f.info) { ifindex = i } })
  unfolding set_ifindex
  set_ifindex-ok room i h = ground arith

  pub set_contract-ok :
      (room m d : ℕ)
      → 12 ≤ room
      → set_contract room m d f
        ≡ some (tt, record f { info = record (f.info) { max_allowed_delay = m; delay_exp = d } })
  unfolding set_contract
  set_contract-ok room m d h = ground arith
