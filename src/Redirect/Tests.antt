-- ===== src/Redirect/Tests.antt =====
-- Routes on a system whose state is the list of the updates so far; the address 9 cannot be set.
use new_ip_linux.Common.{
  ℕ, ◌<◌, ◌≡◌, refl, none, List, [], ◌∷◌, ◌++◌, ◌==◌, if◌then◌else◌, Str, Buf, text_of, arith,
}
use new_ip_linux.Common.Int.{pos, negsuc}
use new_ip_linux.Params.{exit_fail_option}
use new_ip_linux.Params.Table
use new_ip_linux.Pinned.{Maps}
use new_ip_linux.Redirect.{
  Updates, returned, beyond, by_options, entry_at, bytes_from, byte_at, strlen,
  static_redirect_non_ip, redirect_rounds, redirect_main,
}
use new_ip_linux.Redirect.Entries.{Route, IsRoute, route_text}
use new_ip_linux.Redirect.Runs.{
  update_all, HasEnded, redirect_rounds-update_all, redirect_rounds-HasEnded,
}

abbrev pub Log : Type 0
Log = List (ℕ × ℕ)

abbrev pub maps : Maps Log
maps = record {
  obj_get = λ path w. (negsuc 1, w);
  info_by_fd = λ fd w.
      (negsuc 1, record { type = 0; id = 0; key_size = 0; value_size = 0; max_entries = 0 });
  close = λ fd w. w;
}

abbrev pub updates : Updates Log
updates = record {
  update_elem = λ fd key value w. if key == 9 then (negsuc 0, w) else (pos 0, (key, value) ∷ w);
}

-- The index of an interface is the last byte of its name, if the name has five bytes.
abbrev pub index_of : Str → ℕ
index_of (a ∷ b ∷ c ∷ d ∷ e ∷ []) = e
index_of _ = 0

abbrev pub route : ℕ → ℕ → Route
route dst n = record { dst = dst; n₀ = 114; n₁ = 49; n₂ = 95; n₃ = 104; n₄ = n }

-- A stack that is clear, and one that is not, which spoils the names.
abbrev pub clear : Buf
clear = 0 ∷ 0 ∷ 0 ∷ 0 ∷ 0 ∷ []

two_updates :
    redirect_rounds maps updates index_of clear 3
      (route_text (route 1 50 ∷ route 2 51 ∷ []) ++ clear)
      (pos 7)
      0
      []
    ≡ returned 0 ((2, 51) ∷ (1, 50) ∷ [])
unfolding redirect_rounds static_redirect_non_ip entry_at bytes_from byte_at strlen text_of
two_updates = refl

spoilt_name :
    redirect_rounds maps updates index_of
      (65 ∷ clear)
      2
      (route_text (route 1 50 ∷ []) ++ clear)
      (pos 7)
      0
      []
    ≡ returned 0 ((1, 0) ∷ [])
unfolding redirect_rounds static_redirect_non_ip entry_at bytes_from byte_at strlen text_of
spoilt_name = refl

failing :
    redirect_rounds maps updates index_of clear 3
      (route_text (route 9 50 ∷ route 2 51 ∷ []) ++ clear)
      (pos 7)
      0
      []
    ≡ returned 1 []
unfolding redirect_rounds static_redirect_non_ip entry_at bytes_from byte_at strlen text_of
failing = refl

-- A text that stops inside a name, in a buffer that it fills.
cut_off : redirect_rounds maps updates index_of clear 2 (49 ∷ 95 ∷ 114 ∷ []) (pos 7) 0 [] ≡ beyond
unfolding redirect_rounds entry_at bytes_from byte_at strlen text_of
cut_off = refl

refused_options :
    redirect_main maps updates index_of clear 1 (Table.exits exit_fail_option none) []
    ≡ by_options (Table.exits exit_fail_option none)
unfolding redirect_main
refused_options = refl

pub route-IsRoute : (d n : ℕ) → d < 10 → 0 < n → IsRoute (route d n)
route-IsRoute d n h k =
    (h, (omega arith, (omega arith, (omega arith, (omega arith, (omega arith, tt))))))

redirect_rounds-update_all_example :
    redirect_rounds maps updates index_of clear 3
      (route_text (route 1 50 ∷ route 2 51 ∷ []) ++ 0 ∷ [])
      (pos 7)
      0
      []
    ≡ update_all maps updates index_of clear (pos 7) (route 1 50 ∷ route 2 51 ∷ []) []
redirect_rounds-update_all_example =
    redirect_rounds-update_all maps updates index_of clear 3 [] (pos 7)
      (route 1 50 ∷ route 2 51 ∷ []) []
      (
        route-IsRoute 1 50 (omega arith) (omega arith),
        (route-IsRoute 2 51 (omega arith) (omega arith), tt),
      )
      (omega arith)

-- A text that breaks off in its first entry, at the end of its buffer.
abbrev half_text : Buf
half_text = 49 ∷ 95 ∷ 114 ∷ 0 ∷ 0 ∷ 0 ∷ 0 ∷ 0 ∷ 0 ∷ []

redirect_rounds-HasEnded_example :
    HasEnded maps updates index_of clear
      (redirect_rounds maps updates index_of clear 4 half_text (pos 7) 0 [])
redirect_rounds-HasEnded_example =
    redirect_rounds-HasEnded maps updates index_of clear 4 0 3 half_text (pos 7) []
      (unfold strlen in refl) (omega arith) (omega arith)
