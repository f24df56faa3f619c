-- ===== src/Loading/Tests.antt =====
-- Loading on a system with one object: it has the program 4, with the descriptor 8, and two maps.
use new_ip_linux.Common.{◌≡◌, ◌↔◌, refl, true, false, none, some, [], ◌∷◌, text_of, strncpy, zeros}
use new_ip_linux.Common.Int.{pos}
use new_ip_linux.Host.{Objects}
use new_ip_linux.Params.{Config, buffer, null}
use new_ip_linux.Attach.{xdp_link_attach}
use new_ip_linux.Attach.Tests.{system, nothing_attached, in_driver_only}
use new_ip_linux.Loading.{
  returns, exits, load_bpf_and_xdp_attach, load_bpf_object_file, reuse_maps,
  load_bpf_object_file_reuse_maps, open_bpf_object, set_programs, set_maps, reuse_each, reuse_map,
}
use new_ip_linux.Loading.Reuse.{Reused, reuse_maps-Reused}

abbrev pub one_object : {W : Type 0} → Objects W
one_object = record {
  obj_open = λ file w. (some 1, w);
  prog_load = λ file i w. ((pos 0, 1), w);
  obj_load = λ obj w. (pos 0, w);
  obj_close = λ obj w. w;
  programs = λ obj w. 4 ∷ [];
  find_by_title = λ obj title w. none;
  set_type = λ p t w. w;
  set_program_ifindex = λ p i w. w;
  set_attach_type = λ p t w. w;
  title = λ p w. 120 ∷ [];
  program_fd = λ p w. pos 8;
  maps = λ obj w. 5 ∷ 6 ∷ [];
  map_name = λ m w. 109 ∷ [];
  is_offload_neutral = λ m w. false;
  set_map_ifindex = λ m i w. w;
  reuse_fd = λ m fd w. (pos 0, w);
  map_fd = λ m w. pos m;
  map_pin = λ m path w. (pos 0, w);
  obj_get = λ path w. (pos 9, w);
  unpin_maps = λ obj path w. (pos 0, w);
  pin_maps = λ obj path w. (pos 0, w);
  access = λ path w. false;
}

abbrev pub settings : Config
settings = record {
  xdp_flags = 5;
  ifindex = pos 3;
  ifname = buffer;
  ifname_buf = 101 ∷ zeros 15;
  redirect_ifindex = pos 0;
  redirect_ifname = null;
  redirect_ifname_buf = [];
  do_unload = false;
  reuse_maps = false;
  pin_dir = [];
  filename = [];
  progsec = [];
  src_mac = [];
  dest_mac = [];
  xsk_bind_flags = 0;
  xsk_if_queue = pos 0;
  xsk_poll_mode = false;
}

loads :
    load_bpf_and_xdp_attach one_object system settings nothing_attached
    ≡ returns 1 (record settings { progsec = 120 ∷ zeros 31 }) (in_driver_only 8)
unfolding load_bpf_and_xdp_attach load_bpf_object_file xdp_link_attach text_of strncpy
loads = refl

-- A section that no program has, with the pinned maps.
no_section :
    load_bpf_and_xdp_attach one_object system
      (record settings { progsec = 121 ∷ []; reuse_maps = true })
      nothing_attached
    ≡ exits 40 nothing_attached
unfolding load_bpf_and_xdp_attach load_bpf_object_file_reuse_maps open_bpf_object set_programs
    set_maps reuse_maps reuse_each reuse_map xdp_link_attach text_of strncpy
no_section = refl

reuse_maps-Reused_example :
    (reuse_maps one_object (some 1) (some (47 ∷ [])) tt ≡ (pos 0, tt))
    ↔ Reused one_object (47 ∷ []) (5 ∷ 6 ∷ []) tt tt
reuse_maps-Reused_example = reuse_maps-Reused one_object (47 ∷ []) 1 tt tt
