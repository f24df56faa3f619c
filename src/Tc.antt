-- ===== src/Tc.antt =====
-- `tc_router_func` of xdp/newip_router/tc_prog_kern.c, which sends a New IP frame out of the
-- interface that `xdp_router_func` left in the frame's metadata.
pub mod Route
mod Tests
use new_ip_linux.Common.{ℕ, ◌+◌, ltb, ◌==◌, if◌then◌else◌}
use new_ip_linux.Common.Int.{ℤ, pos, minus_one}
use new_ip_linux.Wire.{Mem, eth_p_newip, load16, htons, swap16}
use new_ip_linux.Router.{eth_size, eth_h_proto}
use new_ip_linux.Router.Memory.{Meta, meta_size}

-- What the program reads of its context: the length of the data, the bytes, the distance from
-- `ctx->data_meta` to `ctx->data`, and the metadata.
pub record Context : Type 0 where
  pub len : ℕ
  pub bytes : Mem
  pub meta_room : ℕ
  pub info : Meta

-- The action, and the `val` of the packet's control block.
pub record Result : Type 0 where
  pub action : ℤ
  pub val : ℕ

-- `TC_ACT_UNSPEC` and `TC_ACT_SHOT`
abbrev pub tc_act_unspec : ℤ
tc_act_unspec = minus_one

abbrev pub tc_act_shot : ℤ
tc_act_shot = pos 2

-- `bpf_redirect` is a parameter, by the interface; its flags are 0.
unfoldable pub tc_action : (redirect : ℕ → ℤ) → Context → ℤ
unfolding load16 swap16
tc_action redirect ctx =
    if ltb ctx.len eth_size
    then tc_act_shot
    else if load16 ctx.bytes eth_h_proto == htons eth_p_newip
    then (if ltb ctx.meta_room meta_size then tc_act_unspec else redirect (ctx.info).ifindex)
    else tc_act_unspec

unfoldable pub tc_router : (redirect : ℕ → ℤ) → Context → Result
tc_router redirect ctx = record { action = tc_action redirect ctx; val = 65 }
