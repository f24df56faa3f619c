-- ===== src/Redirect/FrameTests.antt =====
-- A frame to the address 5 after the map was filled from a route.
use new_ip_linux.Common.{
  ℕ, ◌≡◌, ◌≢◌, refl, sym, inl, inr, Option, none, some, [], ◌∷◌, ◌++◌, ◌==◌, ==_iff, Bool-cases,
  if◌then◌else◌, text_of, arith,
}
use new_ip_linux.Common.Int.{pos}
use new_ip_linux.Wire.{load16, swap16}
use new_ip_linux.Router.{Helpers, xdp_router}
use new_ip_linux.Router.Memory.{Frame, count_frame}
use new_ip_linux.Router.Tests.Frames
use new_ip_linux.Router.Tests.Frames.{to_8b, no_frames}
use new_ip_linux.Tc.{tc_router}
use new_ip_linux.Tc.Route.{To8b, context}
use new_ip_linux.Redirect.{
  returned, redirect_rounds, static_redirect_non_ip, entry_at, bytes_from, byte_at, strlen,
}
use new_ip_linux.Redirect.Entries.{route_text}
use new_ip_linux.Redirect.Delivery.{UpdatesLaws, redirect_rounds-xdp_router}
use new_ip_linux.Redirect.Tests.{Log, maps, updates, index_of, clear, route, route-IsRoute}

-- The last update of an address counts.
abbrev table : Log → ℕ → Option ℕ
table [] d = none
table (u ∷ us) d = if u.0 == d then some (u.1) else table us d

table_other : (k v d : ℕ) (us : Log) → d ≢ k → table ((k, v) ∷ us) d ≡ table us d
table_other k v d us h = elim (Bool-cases (k == d)) [
  | inl y ↦ absurd (h (sym ((==_iff k d).0 y)))
  | inr n ↦ rw n refl
]

table_same : (k v : ℕ) (us : Log) → table ((k, v) ∷ us) k ≡ some v
table_same k v us = rw ((==_iff k k).1 refl) refl

updates-UpdatesLaws : UpdatesLaws table updates
updates-UpdatesLaws = record {
  update_law = λ fd k v us. elim (Bool-cases (k == 9)) [
    | inl y ↦ rw y (inr (refl, λ d. refl))
    | inr n ↦ rw n (inl (refl, table_same k v us, λ d h. table_other k v d us h))
  ];
}

-- The XDP program with the map that was left.
abbrev helpers : Helpers
helpers = record (Frames.helpers) { static_redirect_8b = table ((5, 55) ∷ []) }

frame-To8b : To8b helpers (to_8b 5) 21
unfolding load16 swap16
frame-To8b = record {
  room = refl;
  meta_room = omega arith;
  proto = refl;
  spec = omega arith;
  type_dst = refl;
  at = refl;
  inside = omega arith;
  no_contract = omega arith;
}

filled :
    redirect_rounds maps updates index_of clear 2
      (route_text (route 5 55 ∷ []) ++ 0 ∷ [])
      (pos 7)
      0
      []
    ≡ returned 0 ((5, 55) ∷ [])
unfolding redirect_rounds static_redirect_non_ip entry_at bytes_from byte_at strlen text_of
filled = refl

redirect_rounds-xdp_router_example :
    (f' : Frame) × (xdp_router helpers 1 (to_8b 5) ≡ some (2, f'))
    × (f'.bytes ≡ (to_8b 5).bytes)
    × (f'.stats 2 ≡ some (count_frame 46 no_frames))
    × ((tc_router pos (context helpers f')).action ≡ pos 55)
redirect_rounds-xdp_router_example =
    redirect_rounds-xdp_router table maps updates updates-UpdatesLaws index_of clear 2 [] (pos 7)
      (route 5 55 ∷ []) [] ((5, 55) ∷ []) helpers (to_8b 5) 21 55 1 pos no_frames
      (route-IsRoute 5 55 (omega arith) (omega arith), tt) (omega arith) filled (λ d. refl)
      frame-To8b (unfold text_of in refl) refl
