-- ===== src/Loader/Tests.antt =====
-- Runs of the loader on the system with one device and one object.
use new_ip_linux.Common.{◌≡◌, refl, true, text_of, strncpy}
use new_ip_linux.Params.{name_of}
use new_ip_linux.Params.Table
use new_ip_linux.Attach.{xdp_link_attach, xdp_link_detach}
use new_ip_linux.Attach.Tests.{system, nothing_attached, in_driver_only}
use new_ip_linux.Loading.{load_bpf_and_xdp_attach, load_bpf_object_file}
use new_ip_linux.Loading.Tests.{one_object, settings}
use new_ip_linux.Loader.{finished, main_with, loader_main, pin_maps_in_bpf_object, default_config}

loads :
    loader_main one_object system (Table.returns settings true) nothing_attached
    ≡ finished 0 (in_driver_only 8)
unfolding loader_main main_with load_bpf_and_xdp_attach load_bpf_object_file xdp_link_attach
    pin_maps_in_bpf_object text_of strncpy name_of
loads = refl

unloads :
    loader_main one_object system
      (Table.returns (record settings { do_unload = true }) true)
      (in_driver_only 7)
    ≡ finished 0 nothing_attached
unfolding loader_main main_with xdp_link_detach
unloads = refl

without_device :
    loader_main one_object system (Table.returns default_config true) (in_driver_only 7)
    ≡ finished 2 (in_driver_only 7)
unfolding loader_main main_with
without_device = refl
