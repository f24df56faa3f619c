-- ===== src/Redirect/Delivery.antt =====
-- From the text of a route to the interface that a frame leaves by: the program in user space fills
-- the map that the XDP program reads.
use new_ip_linux.Common.{
  ℕ, ◌<◌, ◌≡◌, ◌≢◌, ◌∙◌, sym, ap, ◌⊎◌, inl, inr, true, false, Option, some, List, [], ◌∷◌, ◌++◌,
  ◌==◌, ==_iff, Bool-cases, if◌then◌else◌, length, Str, Buf, text_of, All, arith,
}
use mathlib.Core.Bool.{false≢true}
use new_ip_linux.Common.Int.{ℤ, pos, negsuc}
use new_ip_linux.Host.{is_negative}
use new_ip_linux.Pinned.{Maps}
use new_ip_linux.Wire.{load8}
use new_ip_linux.Router.{Helpers, xdp_router}
use new_ip_linux.Router.Memory.{Frame, Datarec, count_frame}
use new_ip_linux.Tc.{tc_router}
use new_ip_linux.Tc.Route.{To8b, context, xdp_router-tc_router}
use new_ip_linux.Redirect.{
  Updates, Finished, returned, beyond, by_options, out_of_fuel, redirect_rounds,
}
use new_ip_linux.Redirect.Entries.{Route, IsRoute, name_bytes, route_text}
use new_ip_linux.Redirect.Runs.{in_turn, update_all, redirect_rounds-update_all}

module _ {W : Type 0} (table : W → ℕ → Option ℕ) where
  -- An update sets the entry of its key, or fails and changes nothing.
  abbrev pub IsUpdate : (key value : ℕ) → W → ℤ × W → Type 0
  IsUpdate k v w (err, w') =
      ((is_negative err ≡ false)
        × (table w' k ≡ some v)
        × ((d : ℕ) → d ≢ k → table w' d ≡ table w d))
      ⊎ ((is_negative err ≡ true) × ((d : ℕ) → table w' d ≡ table w d))

  -- `bpf_map_update_elem` updates the map.
  pub record UpdatesLaws (updates : Updates W) : Type 0 where
    pub update_law :
        (fd : ℤ) (key value : ℕ) (w : W) → IsUpdate key value w (updates.update_elem fd key value w)

-- The interface of the last entry of an address, or what was in the map before.
abbrev pub interface_for :
    (if_nametoindex : Str → ℕ) → (stale : Buf) → List Route → (dst : ℕ) → Option ℕ → Option ℕ
interface_for index stale [] d o = o
interface_for index stale (e ∷ es) d o =
    interface_for index stale es d
      (if e.dst == d then some (index (text_of (name_bytes e ++ stale))) else o)

-- The status of a program that has returned; 2 stands for any other end.
abbrev status : {W : Type 0} → Finished W → ℕ
status (returned n w) = n
status beyond = 2
status (by_options c) = 2
status out_of_fuel = 2

-- The state in which a program has returned, or else the one that is given.
abbrev state_or : {W : Type 0} → W → Finished W → W
state_or w (returned n w') = w'
state_or w _ = w

module _ {W : Type 0} (table : W → ℕ → Option ℕ) (maps : Maps W) (updates : Updates W)
    (laws : UpdatesLaws table updates) (if_nametoindex : Str → ℕ) (stale : Buf) where
  entry_set :
      (k v d : ℕ) (w w₁ : W)
      → table w₁ k ≡ some v
      → ((d : ℕ) → d ≢ k → table w₁ d ≡ table w d)
      → table w₁ d ≡ (if k == d then some v else table w d)
  entry_set k v d w w₁ s o = elim (Bool-cases (k == d)) [
    | inl y ↦ rw y (ap (table w₁) (sym ((==_iff k d).0 y)) ∙ s)
    | inr n ↦ rw n (o d (λ e. false≢true (sym n ∙ (==_iff k d).1 (sym e))))
  ]

  in_turn-table :
      (k v d : ℕ) (es : List Route) (w w' : W) (r : ℤ × W) (rest : W → Finished W)
      → IsUpdate table k v w r
      → in_turn r rest ≡ returned 0 w'
      → ((w₁ : W)
          → rest w₁ ≡ returned 0 w'
          → table w' d ≡ interface_for if_nametoindex stale es d (table w₁ d))
      → table w' d ≡ interface_for if_nametoindex stale es d (if k == d then some v else table w d)
  in_turn-table k v d es w w' (pos n, w₁) rest (inl (p, s, o)) g h =
      h w₁ g ∙ ap (interface_for if_nametoindex stale es d) (entry_set k v d w w₁ s o)
  in_turn-table k v d es w w' (pos n, w₁) rest (inr (p, o)) g h = absurd (false≢true p)
  in_turn-table k v d es w w' (negsuc e, w₁) rest u g h =
      let one : 1 ≡ 0 = ap status g in absurd (omega (arith, one))

  update_all-table :
      (fd : ℤ) (es : List Route) (d : ℕ) (w w' : W)
      → update_all maps updates if_nametoindex stale fd es w ≡ returned 0 w'
      → table w' d ≡ interface_for if_nametoindex stale es d (table w d)
  update_all-table fd [] d w w' g = ap (λ x. table (state_or w x) d) (sym g)
  update_all-table fd (e ∷ es) d w w' g =
      in_turn-table e.dst (if_nametoindex (text_of (name_bytes e ++ stale))) d es w w'
        (updates.update_elem fd e.dst (if_nametoindex (text_of (name_bytes e ++ stale))) w)
        (update_all maps updates if_nametoindex stale fd es)
        (laws.update_law fd e.dst (if_nametoindex (text_of (name_bytes e ++ stale))) w) g
        (λ w₁ g₁. update_all-table fd es d w₁ w' g₁)

  -- Let an update set the entry of its key in the map, or fail and change nothing. If the program in
  -- user space ends with the status 0 on the text of a route, and the XDP program then reads the map
  -- that it left, a New IP frame with no contract and room for its metadata, to an 8-bit address for
  -- which the route has an interface (the last one, if there are several, or else the one that was in
  -- the map before), is passed unchanged and counted once; and the second program redirects it to
  -- this interface.
  pub redirect_rounds-xdp_router :
      (n : ℕ) (rest : Buf) (fd : ℤ) (es : List Route) (w w' : W) (h : Helpers) (f : Frame)
      (dst i m : ℕ) (redirect : ℕ → ℤ) (r : Datarec)
      → All IsRoute es
      → length es < n
      → redirect_rounds maps updates if_nametoindex stale n (route_text es ++ 0 ∷ rest) fd 0 w
        ≡ returned 0 w'
      → ((d : ℕ) → h.static_redirect_8b d ≡ table w' d)
      → To8b h f dst
      → interface_for if_nametoindex stale es (load8 f.bytes dst) (table w (load8 f.bytes dst))
        ≡ some i
      → f.stats 2 ≡ some r
      → (f' : Frame) × (xdp_router h m f ≡ some (2, f'))
        × (f'.bytes ≡ f.bytes)
        × (f'.stats 2 ≡ some (count_frame f.len r))
        × ((tc_router redirect (context h f')).action ≡ redirect i)
  redirect_rounds-xdp_router n rest fd es w w' h f dst i m redirect r t fuel g same e k counted =
      xdp_router-tc_router h f dst e i
        (same (load8 f.bytes dst)
          ∙ update_all-table fd es (load8 f.bytes dst) w w' (
              sym
                (redirect_rounds-update_all maps updates if_nametoindex stale n rest fd es w t fuel)
              ∙ g)
          ∙ k)
        m redirect r counted
