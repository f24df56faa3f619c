-- ===== src/Router.antt =====
-- `xdp_router_func` of xdp/newip_router/xdp_prog_kern.c with `xdp_stats_record_action` of
-- xdp/common/xdp_stats_kern.h. A frame is the bytes from `ctx->data` on, of which `len` lie before
-- `ctx->data_end`; pointers into it are offsets. Every access is checked against `len`, and one that
-- is out of bounds is `none`; the same holds of the metadata and its room, so that the bounds tests of the source are tests of the model and the
-- safety of its accesses is a theorem.
pub mod Memory
pub mod Lands
pub mod Steps
pub mod Contract
pub mod Safety
pub mod Tests
use new_ip_linux.Common.{
  ℕ, ◌+◌, ◌-◌, ◌%◌, ◌^◌, Bool, true, false, Option, none, some, ◌||◌, ltb, leb, ◌==◌, if◌then◌else◌,
}
use new_ip_linux.Wire.{Mem, eth_p_newip, u16, htons, ntohs, swap16}
use new_ip_linux.Wire.NewipOffset
use new_ip_linux.Wire.ShippingSpec
use new_ip_linux.Wire.MaxDelay
use new_ip_linux.Wire.Ping
use new_ip_linux.Router.Memory.{
  Meta, Frame, Cmd, pure, ◌>>=◌, ◌>>◌, fetch8, fetch16, put16, copy, set_ifindex, set_contract,
  record_action, meta_size, xdp_aborted, xdp_drop, xdp_pass,
}

-- `sizeof(struct ethhdr)`, and its field `h_proto`.
abbrev pub eth_size : ℕ
eth_size = 14

abbrev pub eth_h_proto : ℕ
eth_h_proto = 12

-- `NEWIP_T_IPv4`, `NEWIP_T_IPv6`, `NEWIP_T_8b`
abbrev pub newip_t_ipv4 : ℕ
newip_t_ipv4 = 0

abbrev pub newip_t_ipv6 : ℕ
newip_t_ipv6 = 1

abbrev pub newip_t_8b : ℕ
newip_t_8b = 2

-- The fields of `struct bpf_fib_lookup` that the program reads or writes. The union of destination
-- addresses is the bytes written to it.
pub record FibParams : Type 0 where
  pub family : ℕ
  pub dst : Mem
  pub ifindex : ℕ
  pub smac : Mem
  pub dmac : Mem

-- What the program gets from outside: the value of AF_INET and AF_INET6 in its build, whether
-- `bpf_xdp_adjust_meta` fails, the distance from `ctx->data_meta` to `ctx->data` after it, the map
-- `static_redirect_8b`, and `bpf_fib_lookup`, whose `int` result is given by its 32-bit pattern.
pub record Helpers : Type 0 where
  pub af_inet : ℕ
  pub af_inet6 : ℕ
  pub adjust_meta_fails : Bool
  pub meta_room : ℕ
  pub static_redirect_8b : ℕ → Option ℕ
  pub fib_lookup : FibParams → ℕ × FibParams

-- How the program ends: at `out` with an action, or by `return XDP_ABORTED` past the statistics.
pub data Verdict : Type 0 where
  out : ℕ → Verdict
  aborted : Verdict

-- What the destination's type decides: an end, a lookup to make, or an interface that is set.
pub data Destination : Type 0 where
  stop : Verdict → Destination
  by_fib : FibParams → Destination
  by_map : Destination

-- The bytes of an address in the header, by its type.
abbrev pub addr_size : ℕ → ℕ
addr_size t =
    if t == newip_t_ipv4
    then 4
    else if t == newip_t_ipv6
    then 16
    else if t == newip_t_8b
    then 1
    else 0

-- The bytes of the frame from `o` on.
unfoldable pub bytes_at : ℕ → (size : ℕ) → Cmd Mem
bytes_at o size f = if leb (o + size) f.len then some ((λ i. f.bytes (o + i)), f) else none

module _ (h : Helpers) where
  -- `fib_params = {}` with the destination and family set.
  abbrev pub fib_for : (family : ℕ) → (dst : Mem) → FibParams
  fib_for family dst = record {
    family = family;
    dst = dst;
    ifindex = 0;
    smac = λ _. 0;
    dmac = λ _. 0;
  }

  -- The branches on `type_dst`, with the destination's offset.
  unfoldable pub destination : (type_dst dst : ℕ) → Cmd Destination
  destination type_dst dst f =
      if type_dst == newip_t_ipv4
      then (if ltb f.len (dst + 4)
            then pure (stop (out xdp_drop))
            else (do a ← bytes_at dst 4; pure (by_fib (fib_for h.af_inet a))))
          f
      else if type_dst == newip_t_ipv6
      then (if ltb f.len (dst + 16)
            then pure (stop (out xdp_drop))
            else (do a ← bytes_at dst 16; pure (by_fib (fib_for h.af_inet6 a))))
          f
      else if type_dst == newip_t_8b
      then (if ltb f.len (dst + 1) then pure (stop (out xdp_drop)) else (do
        key ← fetch8 dst
        elim (h.static_redirect_8b key) [
          | none ↦ pure (stop aborted)
          | some ifindex ↦ (do set_ifindex h.meta_room ifindex; pure by_map)
        ]))
          f
      else pure (stop (out xdp_drop)) f

  -- `ping->hops`, less one.
  unfoldable pub ping_hop : ℕ → ℕ
  unfolding swap16
  ping_hop raw = htons (u16 (ntohs raw + 2 ^ 16 - 1))

  -- A ping contract at `c`; `false` is a drop.
  unfoldable pub process_ping : (c : ℕ) → Cmd Bool
  process_ping c f =
      (if ltb f.len (c + Ping.size)
          then pure false
          else do hops ← fetch16 (c + Ping.hops); put16 (c + Ping.hops) (ping_hop hops); pure true)
        f

  -- A max-delay contract at `c`; `false` is a drop.
  unfoldable pub process_max_delay : (c : ℕ) → Cmd Bool
  process_max_delay c f =
      (if ltb f.len (c + MaxDelay.size) then pure false else do
        max_allowed_delay ← fetch16 (c + MaxDelay.max_allowed_delay)
        delay_exp ← fetch16 (c + MaxDelay.delay_exp)
        set_contract h.meta_room max_allowed_delay delay_exp
        pure true)
        f

  -- The contract; `false` is a drop.
  unfoldable pub process_contract : Cmd Bool
  process_contract f =
      (do
        contract_offset ← fetch8 (eth_size + NewipOffset.contract_offset)
        payload_offset ← fetch8 (eth_size + NewipOffset.payload_offset)
        if ltb contract_offset payload_offset
            then (if ltb f.len (eth_size + contract_offset + 2) then pure false else do
              raw ← fetch16 (eth_size + contract_offset)
              if ntohs raw == 3
                  then process_ping (eth_size + contract_offset)
                  else (if ntohs raw == 1
                      then process_max_delay (eth_size + contract_offset)
                      else pure true))
            else pure true)
        f

  -- The `switch` on the result of the lookup: 0 is success, 1 to 3 are destinations that must not be
  -- reached, and the rest leave the action as it is.
  unfoldable pub apply_fib : ℕ × FibParams → Cmd Verdict
  apply_fib (rc, fib) =
      if rc == 0
      then (do
        copy 0 6 fib.dmac
        copy 6 6 fib.smac
        set_ifindex h.meta_room fib.ifindex
        pure (out xdp_pass))
      else if rc == 1 || rc == 2 || rc == 3
      then pure (out xdp_drop)
      else pure (out xdp_pass)

  -- The lookup, unless the contract made the frame be dropped.
  unfoldable pub look_up : (ingress_ifindex : ℕ) → FibParams → (going : Bool) → Cmd Verdict
  look_up ingress_ifindex fib true =
      apply_fib (h.fib_lookup (record fib { ifindex = ingress_ifindex }))
  look_up ingress_ifindex fib false = pure (out xdp_drop)

  -- What follows the destination: the contract, then the lookup.
  unfoldable pub forward : (ingress_ifindex : ℕ) → Destination → Cmd Verdict
  forward ingress_ifindex (stop v) = pure v
  forward ingress_ifindex by_map = do
    going ← process_contract
    pure (out (if going then xdp_pass else xdp_drop))
  forward ingress_ifindex (by_fib fib) = process_contract >>= look_up ingress_ifindex fib

  -- The branch of a New IP frame. The shipping specification is found by its offset, the addresses
  -- at a fixed distance from the Ethernet header.
  unfoldable pub route_newip : (ingress_ifindex : ℕ) → Cmd Verdict
  route_newip ingress_ifindex f =
      if ltb f.len (eth_size + NewipOffset.size)
      then pure (out xdp_drop) f
      else (do
        shipping_offset ← fetch8 (eth_size + NewipOffset.shipping_offset)
        let spec = eth_size + shipping_offset
        if ltb f.len (spec + ShippingSpec.size)
            then pure (out xdp_drop)
            else (if ltb h.meta_room meta_size then pure aborted else (do
              type_src ← fetch8 (spec + ShippingSpec.src_addr_type)
              type_dst ← fetch8 (spec + ShippingSpec.dst_addr_type)
              d ←
                  destination type_dst
                    (eth_size + ShippingSpec.size + NewipOffset.size + addr_size type_src)
              forward ingress_ifindex d)))
          f

  -- The test for a New IP frame.
  unfoldable pub route_frame : (ingress_ifindex : ℕ) → Cmd Verdict
  route_frame ingress_ifindex f =
      if ltb f.len eth_size
      then pure (out xdp_drop) f
      else (do
        h_proto ← fetch16 eth_h_proto
        if h_proto == htons eth_p_newip then route_newip ingress_ifindex else pure (out xdp_pass))
          f

  unfoldable pub route : (ingress_ifindex : ℕ) → Cmd Verdict
  route ingress_ifindex = if h.adjust_meta_fails then pure aborted else route_frame ingress_ifindex

  -- The action that the program returns.
  unfoldable pub finish : Verdict → Cmd ℕ
  finish aborted = pure xdp_aborted
  finish (out action) = record_action action

  unfoldable pub xdp_router : (ingress_ifindex : ℕ) → Cmd ℕ
  xdp_router ingress_ifindex = do v ← route ingress_ifindex; finish v
