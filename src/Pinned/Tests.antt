-- ===== src/Pinned/Tests.antt =====
-- The pinned maps of a system with one map, on which it tells nothing under the descriptor 9.
use new_ip_linux.Common.{ℕ, ◌≡◌, refl, ◌↔◌, none, some, [], ◌∷◌}
use new_ip_linux.Common.Int.{pos, negsuc}
use new_ip_linux.Pinned.{
  MapInfo, Maps, check_map_fd_info, open_bpf_map_file, action2str, xdp_redirect,
}
use new_ip_linux.Pinned.Info.{AgreesWith, check_map_fd_info-AgreesWith}

abbrev stats_info : MapInfo
stats_info = record { type = 6; id = 12; key_size = 4; value_size = 16; max_entries = 5 }

abbrev no_info : MapInfo
no_info = record { type = 0; id = 0; key_size = 0; value_size = 0; max_entries = 0 }

abbrev expected : MapInfo
expected = record { type = 0; id = 0; key_size = 4; value_size = 16; max_entries = 5 }

fits : check_map_fd_info stats_info expected ≡ 0
unfolding check_map_fd_info
fits = refl

too_small : check_map_fd_info (record stats_info { max_entries = 4 }) expected ≡ 1
unfolding check_map_fd_info
too_small = refl

redirect_name : action2str 4 ≡ some xdp_redirect
unfolding action2str
redirect_name = refl

no_name : action2str 6 ≡ none
unfolding action2str
no_name = refl

abbrev silent_map : Maps ℕ
silent_map = record {
  obj_get = λ path n. (pos 9, n);
  info_by_fd = λ fd n. (negsuc 0, no_info);
  close = λ fd n. n;
}

-- Without an answer the result is 40, as if it were a descriptor.
no_answer :
    open_bpf_map_file silent_map (47 ∷ []) (109 ∷ []) (some no_info) 0 ≡ ((pos 40, some no_info), 0)
unfolding open_bpf_map_file
no_answer = refl

check_map_fd_info-AgreesWith_example :
    (check_map_fd_info stats_info expected ≡ 0) ↔ AgreesWith expected stats_info
check_map_fd_info-AgreesWith_example = check_map_fd_info-AgreesWith stats_info expected
