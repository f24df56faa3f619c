-- ===== src/Tc/Tests.antt =====
-- The two programs on a frame to an 8-bit address.
use new_ip_linux.Common.{◌≡◌, refl, some, arith}
use new_ip_linux.Common.Int.{pos}
use new_ip_linux.Wire.{load16, swap16}
use new_ip_linux.Router.{xdp_router}
use new_ip_linux.Router.Memory.{Frame, count_frame}
use new_ip_linux.Router.Tests.Frames.{helpers, to_8b, no_frames}
use new_ip_linux.Tc.{tc_router}
use new_ip_linux.Tc.Route.{To8b, context, xdp_router-tc_router, xdp_router-missing}

known-To8b : To8b helpers (to_8b 5) 21
unfolding load16 swap16
known-To8b = record {
  room = refl;
  meta_room = omega arith;
  proto = refl;
  spec = omega arith;
  type_dst = refl;
  at = refl;
  inside = omega arith;
  no_contract = omega arith;
}

xdp_router-tc_router_example :
    (f' : Frame) × (xdp_router helpers 1 (to_8b 5) ≡ some (2, f'))
    × (f'.bytes ≡ (to_8b 5).bytes)
    × (f'.stats 2 ≡ some (count_frame 46 no_frames))
    × ((tc_router pos (context helpers f')).action ≡ pos 7)
xdp_router-tc_router_example =
    xdp_router-tc_router helpers (to_8b 5) 21 known-To8b 7 refl 1 pos no_frames refl

unknown-To8b : To8b helpers (to_8b 6) 21
unfolding load16 swap16
unknown-To8b = record {
  room = refl;
  meta_room = omega arith;
  proto = refl;
  spec = omega arith;
  type_dst = refl;
  at = refl;
  inside = omega arith;
  no_contract = omega arith;
}

xdp_router-missing_example : xdp_router helpers 1 (to_8b 6) ≡ some (0, to_8b 6)
xdp_router-missing_example = xdp_router-missing helpers (to_8b 6) 21 unknown-To8b refl 1
