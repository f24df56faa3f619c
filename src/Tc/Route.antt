-- ===== src/Tc/Route.antt =====
-- The two programs of xdp/newip_router together.
use new_ip_linux.Common.{
  if◌then◌else◌, ℕ, ◌+◌, ◌≤◌, ◌<◌, ◌≡◌, refl, none, some, arith, ltb, ◌==◌, true, false,
}
use new_ip_linux.Common.Int.{ℤ}
use new_ip_linux.Wire.{eth_p_newip, load8, load16, swap16}
use new_ip_linux.Router.{
  Helpers, stop, out, aborted, by_map, addr_size, destination, forward, route_newip, route_frame,
  route, finish, process_contract, xdp_router,
}
use new_ip_linux.Router.Memory.{Frame, Datarec, count_frame, record_action}
use new_ip_linux.Router.Lands.{fetch8-ok, fetch16-ok, set_ifindex-ok}
use new_ip_linux.Tc.{Context, tc_action, tc_router}

-- A frame as the second program finds it behind the first.
abbrev pub context : Helpers → Frame → Context
context h f = record { len = f.len; bytes = f.bytes; meta_room = h.meta_room; info = f.info }

-- A New IP frame with room for its metadata, to an 8-bit address at offset `dst`, and no contract.
pub record To8b (h : Helpers) (f : Frame) (dst : ℕ) : Type 0 where
  pub room : h.adjust_meta_fails ≡ false
  pub meta_room : 12 ≤ h.meta_room
  pub proto : load16 f.bytes 12 ≡ swap16 eth_p_newip
  pub spec : 14 + load8 f.bytes 14 + 3 ≤ f.len
  pub type_dst : load8 f.bytes (14 + load8 f.bytes 14 + 1) ≡ 2
  pub at : dst ≡ 14 + 3 + 3 + addr_size (load8 f.bytes (14 + load8 f.bytes 14 + 0))
  pub inside : dst < f.len
  pub no_contract : load8 f.bytes 16 ≤ load8 f.bytes 15

-- The frame with another interface in its metadata.
abbrev pub with_ifindex : Frame → ℕ → Frame
with_ifindex f i = record f { info = record (f.info) { ifindex = i } }

module _ (h : Helpers) (f : Frame) (dst : ℕ) (e : To8b h f dst) where
  by_map-pass : (n i : ℕ) → forward h n by_map (with_ifindex f i) ≡ some (out 2, with_ifindex f i)
  unfolding forward process_contract
  by_map-pass n i =
      let inside = e.inside in
      let spec = e.spec in
      let absent : ltb (load8 f.bytes 15) (load8 f.bytes 16) ≡ false =
        ground (arith, e.no_contract) in
      rw (
        fetch8-ok (with_ifindex f i) 15 (omega arith),
        fetch8-ok (with_ifindex f i) 16 (omega arith),
        absent,
      )

  -- The map has an entry for the address.
  module _ (i : ℕ) (entry : h.static_redirect_8b (load8 f.bytes dst) ≡ some i) where
    destination-map : destination h 2 dst f ≡ some (by_map, with_ifindex f i)
    unfolding destination
    destination-map =
        let inside = e.inside in
        let long : ltb f.len (dst + 1) ≡ false = ground arith in
        rw (long, fetch8-ok f dst (omega arith))
          (simp (entry, set_ifindex-ok f h.meta_room i e.meta_room))

    route_newip-map : (n : ℕ) → route_newip h n f ≡ some (out 2, with_ifindex f i)
    unfolding route_newip
    route_newip-map n =
        let s : ℕ = 14 + load8 f.bytes 14 in
        let spec = e.spec in
        let long : ltb f.len 17 ≡ false = ground arith in
        let room : ltb f.len (s + 3) ≡ false = ground arith in
        let meta : ltb h.meta_room 12 ≡ false = ground (arith, e.meta_room) in
        rw
          (
            long,
            fetch8-ok f 14 (omega arith),
            room,
            meta,
            fetch8-ok f (s + 0) (omega arith),
            fetch8-ok f (s + 1) (omega arith),
            e.type_dst,
            ← e.at,
            destination-map,
          )
          (by_map-pass n i)

    route-map : (n : ℕ) → route h n f ≡ some (out 2, with_ifindex f i)
    unfolding route route_frame
    route-map n =
        let spec = e.spec in
        let long : ltb f.len 14 ≡ false = ground arith in
        let newip : (load16 f.bytes 12 == swap16 eth_p_newip) ≡ true = ground (arith, e.proto) in
        simp (e.room) (rw (long, fetch16-ok f 12 (omega arith), newip) (route_newip-map n))

    -- A New IP frame to an 8-bit address, with no contract and room for its metadata, whose address
    -- has an entry in the static map, is passed unchanged by the first program, which counts it once
    -- in the record of passed frames, if there is that record; and the second program redirects it to
    -- the interface of the entry.
    pub xdp_router-tc_router :
        (n : ℕ) (redirect : ℕ → ℤ) (r : Datarec)
        → f.stats 2 ≡ some r
        → (f' : Frame) × (xdp_router h n f ≡ some (2, f'))
          × (f'.bytes ≡ f.bytes)
          × (f'.stats 2 ≡ some (count_frame f.len r))
          × ((tc_router redirect (context h f')).action ≡ redirect i)
    unfolding xdp_router finish record_action tc_router tc_action
    xdp_router-tc_router n redirect r counted =
        let spec = e.spec in
        let long : ltb f.len 14 ≡ false = ground arith in
        let newip : (load16 f.bytes 12 == swap16 eth_p_newip) ≡ true = ground (arith, e.proto) in
        let meta : ltb h.meta_room 12 ≡ false = ground (arith, e.meta_room) in
        (
          record (with_ifindex f i) {
            stats = λ a. if a == 2 then some (count_frame f.len r) else f.stats a;
          },
          rw (route-map n) (simp counted),
          refl,
          refl,
          rw (long, newip, meta),
        )

  -- The map has no entry.
  module _ (missing : h.static_redirect_8b (load8 f.bytes dst) ≡ none) where
    destination-missing : destination h 2 dst f ≡ some (stop aborted, f)
    unfolding destination
    destination-missing =
        let inside = e.inside in
        let long : ltb f.len (dst + 1) ≡ false = ground arith in
        rw (long, fetch8-ok f dst (omega arith)) (simp missing)

    -- For a New IP frame to an 8-bit address, with no contract and room for its metadata, whose address has no entry in the static map the first program returns
    -- XDP_ABORTED, and neither changes the frame nor counts it.
    pub xdp_router-missing : (n : ℕ) → xdp_router h n f ≡ some (0, f)
    unfolding xdp_router route route_frame route_newip forward finish
    xdp_router-missing n =
        let s : ℕ = 14 + load8 f.bytes 14 in
        let spec = e.spec in
        let long : ltb f.len 14 ≡ false = ground arith in
        let long' : ltb f.len 17 ≡ false = ground arith in
        let newip : (load16 f.bytes 12 == swap16 eth_p_newip) ≡ true = ground (arith, e.proto) in
        let room : ltb f.len (s + 3) ≡ false = ground arith in
        let meta : ltb h.meta_room 12 ≡ false = ground (arith, e.meta_room) in
        simp (e.room) (
          rw (
            long,
            fetch16-ok f 12 (omega arith),
            newip,
            long',
            fetch8-ok f 14 (omega arith),
            room,
            meta,
            fetch8-ok f (s + 0) (omega arith),
            fetch8-ok f (s + 1) (omega arith),
            e.type_dst,
            ← e.at,
            destination-missing,
          ))
