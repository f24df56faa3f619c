-- ===== src/Router/Contract.antt =====
-- The contracts that the XDP program of xdp/newip_router reads and rewrites.
use new_ip_linux.Common.{ℕ, ◌+◌, ◌-◌, ◌%◌, ◌^◌, ◌≤◌, ◌<◌, ◌≡◌, refl, some, arith, ltb, true, false}
use new_ip_linux.Wire.{load8, load16, store16, ntohs, u16}
use new_ip_linux.Wire.Order.{swap16-lt, swap16-swap16, load16-store16}
use new_ip_linux.Router.{Helpers, ping_hop, process_ping, process_contract}
use new_ip_linux.Router.Memory.{Frame}
use new_ip_linux.Router.Lands.{hop_at, NotHop, fetch8-ok, fetch16-ok, put16-ok}

-- The offset of the contract.
abbrev pub contract_of : Frame → ℕ
contract_of f = 14 + load8 f.bytes 15

-- The frame holds a contract of type `t`, whose structure takes `size` bytes.
pub record HasContract (f : Frame) (t size : ℕ) : Type 0 where
  pub offsets : load8 f.bytes 15 < load8 f.bytes 16
  pub type : ntohs (load16 f.bytes (contract_of f)) ≡ t
  pub inside : contract_of f + size ≤ f.len
  pub header : 17 ≤ f.len

-- The hops as a number: one less, and 65535 after 0.
ping_hop-less : (h : Helpers) (raw : ℕ) → ntohs (ping_hop h raw) ≡ (ntohs raw + 2 ^ 16 - 1) % 2 ^ 16
unfolding ping_hop
ping_hop-less h raw = omega (arith, swap16-swap16 (u16 (ntohs raw + 2 ^ 16 - 1)))

ping_hop-u16 : (h : Helpers) (raw : ℕ) → u16 (ping_hop h raw) ≡ ping_hop h raw
unfolding ping_hop
ping_hop-u16 h raw = omega (arith, swap16-lt (u16 (ntohs raw + 2 ^ 16 - 1)))

module _ (h : Helpers) (f : Frame) where
  -- In a frame with a ping contract that lies inside it, processing the contract goes on, takes one
  -- hop off it modulo 2^16, and leaves the frame's length, its statistics, its metadata and its other
  -- bytes.
  pub process_contract-ping :
      HasContract f 3 16
      → (f' : Frame) × (process_contract h f ≡ some (true, f'))
        × (ntohs (load16 f'.bytes (hop_at f))
            ≡ (ntohs (load16 f.bytes (hop_at f)) + 2 ^ 16 - 1) % 2 ^ 16)
        × (f'.info ≡ f.info)
        × (f'.len ≡ f.len)
        × (f'.stats ≡ f.stats)
        × ((i : ℕ) → NotHop f i → f'.bytes i ≡ f.bytes i)
  unfolding process_contract process_ping store16
  process_contract-ping e =
      let c : ℕ = contract_of f in
      let header = e.header in
      let inside = e.inside in
      let there : ltb (load8 f.bytes 15) (load8 f.bytes 16) ≡ true = ground (arith, e.offsets) in
      let long : ltb f.len (c + 2) ≡ false = ground arith in
      let whole : ltb f.len (c + 16) ≡ false = ground arith in
      let hops : ℕ = load16 f.bytes (c + 4) in
      (
        record f { bytes = store16 f.bytes (c + 4) (ping_hop h hops) },
        rw (
          fetch8-ok f 15 (omega arith),
          fetch8-ok f 16 (omega arith),
          there,
          long,
          fetch16-ok f c (omega arith),
          e.type,
          whole,
          fetch16-ok f (c + 4) (omega arith),
          put16-ok f (c + 4) (ping_hop h hops) (omega arith),
        ),
        rw (load16-store16 f.bytes (c + 4) (ping_hop h hops), ping_hop-u16 h hops)
            (ping_hop-less h hops),
        refl,
        refl,
        refl,
        λ i out. ground arith,
      )
