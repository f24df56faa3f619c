-- ===== src/Redirect/Runs.antt =====
-- The loop over a route performs its updates in order, and ends on every text.
use new_ip_linux.Common.{
  ℕ, zero, suc, ◌+◌, ◌-◌, ◌*◌, ◌<◌, ◌≤◌, ◌≡◌, refl, ◌∙◌, sym, ap, ◌⊎◌, inl, inr, true, false,
  Option, some, List, [], ◌∷◌, ◌++◌, length, length-append, Str, Buf, text_of, All, arith, ltb,
  Bool-cases,
}
use mathlib.Core.List.{append_assoc}
use new_ip_linux.Common.Int.{ℤ, pos, negsuc}
use new_ip_linux.Host.{is_negative}
use new_ip_linux.Pinned.{Maps}
use new_ip_linux.Redirect.{
  Updates, Finished, returned, beyond, by_options, out_of_fuel, entry_at, redirected,
  static_redirect_non_ip, interface_of, after_update, after_entry, redirect_rounds, strlen,
}
use new_ip_linux.Redirect.Entries.{
  Route, IsRoute, name_bytes, route_text, entry_at-route_text, length-route_text, entry_text,
  strlen-append, entry_at-inside, route_text-IsText,
}

-- An update that succeeds is followed by the rest; a failed one ends with the status 1.
abbrev pub in_turn : {W : Type 0} → ℤ × W → (W → Finished W) → Finished W
in_turn (pos n, w) rest = rest w
in_turn (negsuc e, w) rest = returned 1 w

module _ {W : Type 0} (maps : Maps W) (updates : Updates W) (if_nametoindex : Str → ℕ)
    (stale : Buf) where
  -- The updates of a route, one after the other.
  abbrev pub update_all : (map_fd : ℤ) → List Route → W → Finished W
  update_all fd [] w = returned 0 w
  update_all fd (e ∷ es) w =
      in_turn (updates.update_elem fd e.dst (if_nametoindex (text_of (name_bytes e ++ stale))) w)
        (update_all fd es)

  after_update-in_turn :
      (r : ℤ × W) (next rest : W → Finished W)
      → ((w : W) → next w ≡ rest w)
      → after_update maps updates if_nametoindex stale (redirected r) next ≡ in_turn r rest
  after_update-in_turn (pos n, w) next rest h = h w
  after_update-in_turn (negsuc e, w) next rest h = refl

  -- One round, at an entry that can be read.
  after_entry-in_turn :
      (fd : ℤ) (e : Route) (o : Option (ℕ × Str)) (w : W) (next rest : W → Finished W)
      → o ≡ some (e.dst, name_bytes e)
      → ((w : W) → next w ≡ rest w)
      → after_entry maps updates if_nametoindex stale fd o w next
        ≡ in_turn
            (updates.update_elem fd e.dst (if_nametoindex (text_of (name_bytes e ++ stale))) w)
            rest
  unfolding static_redirect_non_ip
  after_entry-in_turn fd e o w next rest h k = rw h (
      after_update-in_turn
        (updates.update_elem fd e.dst (if_nametoindex (text_of (name_bytes e ++ stale))) w) next
        rest k)

  rounds-update_all :
      (n cur : ℕ) (b pre tail : Buf) (fd : ℤ) (es : List Route) (w : W)
      → cur ≡ length pre
      → b ≡ pre ++ (route_text es ++ tail)
      → strlen b ≡ some (cur + 8 * length es)
      → length es < n
      → All IsRoute es
      → redirect_rounds maps updates if_nametoindex stale n b fd cur w ≡ update_all fd es w
  unfolding redirect_rounds
  rounds-update_all zero cur b pre tail fd es w c e l h t = absurd (omega arith)
  rounds-update_all (suc n) cur b pre tail fd [] w c e l h t =
      let at_end : ltb cur (cur + 8 * 0) ≡ false = ground arith in rw (l, at_end) refl
  rounds-update_all (suc n) cur b pre tail fd (x ∷ es) w c e l h t =
      let inside : ltb cur (cur + 8 * length (x ∷ es)) ≡ true = ground arith in
      rw (l, inside)
        (after_entry-in_turn fd x (entry_at b cur) w
          (redirect_rounds maps updates if_nametoindex stale n b fd (cur + 8)) (update_all fd es)
          (rw e (rw c (entry_at-route_text pre tail x es (t.0.0))))
          (λ w'.
            rounds-update_all n (cur + 8) b (pre ++ entry_text x) tail fd es w'
              (omega (arith, c, length-append pre (entry_text x)))
              (e ∙ sym (append_assoc pre (entry_text x) (route_text es ++ tail)))
              (l ∙ ap (λ m. some m) (omega arith)) (omega arith) (t.1)))

  -- If the file name is the text of a route, which has for each entry a digit, an underscore, five
  -- bytes of a name that are not zero and a dash, then the program makes exactly the updates of the
  -- route, in its order: the digit's address gets the index of the interface whose name is the five
  -- bytes and what stands behind them on the stack. It ends with the status 0, or with 1 at the
  -- first update that fails. Fuel for one round more than there are entries is enough.
  pub redirect_rounds-update_all :
      (n : ℕ) (rest : Buf) (fd : ℤ) (es : List Route) (w : W)
      → All IsRoute es
      → length es < n
      → redirect_rounds maps updates if_nametoindex stale n (route_text es ++ 0 ∷ rest) fd 0 w
        ≡ update_all fd es w
  redirect_rounds-update_all n rest fd es w t h =
      rounds-update_all n 0 (route_text es ++ 0 ∷ rest) [] (0 ∷ rest) fd es w refl refl
        (strlen-append (route_text es) rest (route_text-IsText es t)
          ∙ ap (λ m. some m) (omega (arith, length-route_text es)))
        h t

  -- The program has ended with the status 0 or 1.
  abbrev pub HasEnded : Finished W → Type 0
  HasEnded (returned status w) = (status ≡ 0) ⊎ (status ≡ 1)
  HasEnded beyond = ⊥
  HasEnded (by_options c) = ⊥
  HasEnded out_of_fuel = ⊥

  after_entry-HasEnded :
      (fd : ℤ) (e : ℕ × Str) (w : W) (next : W → Finished W)
      → ((w : W) → HasEnded (next w))
      → HasEnded (after_entry maps updates if_nametoindex stale fd (some e) w next)
  after_entry-HasEnded fd e w next h =
      elim (Bool-cases (
        is_negative (
          (static_redirect_non_ip maps updates if_nametoindex stale fd (e.0)
            (interface_of maps updates if_nametoindex stale (e.1)) w).0))) [
              | inl y ↦ rw y (inr refl)
              | inr n ↦ rw n (h _)
            ]

  -- If the file name is a string of `m` characters in a buffer with at least 6 bytes from its closing
  -- zero on, then, whatever the characters are, the loop over them reads nothing behind the buffer,
  -- and it ends with the status 0 or 1 when there is fuel for one round more than the characters
  -- that are left to read.
  pub redirect_rounds-HasEnded :
      (n cur m : ℕ) (b : Buf) (fd : ℤ) (w : W)
      → strlen b ≡ some m
      → m + 6 ≤ length b
      → m - cur < n
      → HasEnded (redirect_rounds maps updates if_nametoindex stale n b fd cur w)
  unfolding redirect_rounds
  redirect_rounds-HasEnded zero cur m b fd w l inside h = absurd (omega arith)
  redirect_rounds-HasEnded (suc n) cur m b fd w l inside h = elim (Bool-cases (ltb cur m)) [
    | inl y ↦
        let before : cur < m = ground (arith, y) in
        let (e, at) = entry_at-inside b cur (omega arith) in
        rw (l, y, at)
          (after_entry-HasEnded fd e w
            (redirect_rounds maps updates if_nametoindex stale n b fd (cur + 8))
            (λ w'. redirect_rounds-HasEnded n (cur + 8) m b fd w' l inside (omega arith)))
    | inr z ↦ rw (l, z) (inl refl)
  ]
