-- ===== src/Router/Steps.antt =====
-- The steps of the XDP program, up to the action: no access out of bounds, and what they keep.
use new_ip_linux.Common.{
  ℕ, ◌+◌, ◌≤◌, ◌≡◌, ◌≢◌, refl, Bool, true, false, ◌∙◌, inl, inr, Bool-cases, ltb, ◌==◌, ◌||◌, arith,
}
use new_ip_linux.Wire
use new_ip_linux.Wire.{Mem, ntohs}
use new_ip_linux.Wire.Order.{store16_ne}
use new_ip_linux.Router.{
  Helpers, Destination, stop, by_fib, by_map, FibParams, bytes_at, destination, process_ping,
  process_max_delay, process_contract, apply_fib, look_up, addr_size, forward, route_newip,
  route_frame, route,
}
use new_ip_linux.Router.Memory.{Frame, fetch8, set_ifindex, overlay}
use new_ip_linux.Router.Lands.{
  Lands, Kept, NotHop, Fixed, bind-Lands, mono-Lands, fetch8-ok, fetch16-ok, put16-ok, copy-ok,
  set_ifindex-ok, set_contract-ok,
}

module _ (h : Helpers) where
  destination-Lands :
      (t d : ℕ) (f : Frame)
      → 12 ≤ h.meta_room
      → Lands (Kept (λ _. Unit {0}) f) (destination h t d f)
  unfolding destination set_ifindex fetch8 bytes_at
  destination-Lands t d f room = ground (arith, room)

  process_ping-Lands :
      (c : ℕ) (f : Frame) → Lands (Kept (λ i. (i ≢ c + 4) × (i ≢ c + 4 + 1)) f) (process_ping h c f)
  unfolding process_ping
  process_ping-Lands c f = elim (Bool-cases (ltb f.len (c + 16))) [
    | inl short ↦ rw short (refl, refl, λ i _. refl)
    | inr long ↦
        rw (long, fetch16-ok f (c + 4) (ground arith), put16-ok f (c + 4) _ (ground arith))
          (refl, refl, λ i out. store16_ne f.bytes (c + 4) _ i out.0 out.1)
  ]

  process_max_delay-Lands :
      (c : ℕ) (f : Frame)
      → 12 ≤ h.meta_room
      → Lands (Kept (λ _. Unit {0}) f) (process_max_delay h c f)
  unfolding process_max_delay
  process_max_delay-Lands c f room = elim (Bool-cases (ltb f.len (c + 6))) [
    | inl short ↦ rw short (refl, refl, λ i _. refl)
    | inr long ↦
        rw
          (
            long,
            fetch16-ok f (c + 2) (ground arith),
            fetch16-ok f (c + 4) (ground arith),
            set_contract-ok f h.meta_room _ _ room,
          )
          (refl, refl, λ i _. refl)
  ]

  process_contract-Lands :
      (f : Frame) → 17 ≤ f.len → 12 ≤ h.meta_room → Lands (Kept (NotHop f) f) (process_contract h f)
  unfolding process_contract
  process_contract-Lands f e meta =
      let c : ℕ = 14 + Wire.load8 f.bytes 15 in
      rw (fetch8-ok f 15 (omega arith), fetch8-ok f 16 (omega arith))
        (elim (Bool-cases (ltb (Wire.load8 f.bytes 15) (Wire.load8 f.bytes 16))) [
          | inr absent ↦ rw absent (refl, refl, λ i _. refl)
          | inl present ↦ rw present (elim (Bool-cases (ltb f.len (c + 2))) [
            | inl short ↦ rw short (refl, refl, λ i _. refl)
            | inr long ↦
                rw (long, fetch16-ok f c (ground arith))
                  (elim (Bool-cases (ntohs (Wire.load16 f.bytes c) == 3)) [
                    | inl ping ↦ rw ping (process_ping-Lands c f)
                    | inr other ↦ rw other (elim (Bool-cases (ntohs (Wire.load16 f.bytes c) == 1)) [
                      | inl delay ↦ rw delay (
                          mono-Lands _ (Kept (NotHop f) f) _ (process_max_delay-Lands c f meta)
                            λ a f' k. (k.0, k.1, λ i _. k.2 i tt))
                      | inr rest ↦ rw rest (refl, refl, λ i _. refl)
                    ])
                  ])
          ])
        ])

  apply_fib-Lands :
      (r : ℕ × FibParams) (f : Frame)
      → 17 ≤ f.len
      → 12 ≤ h.meta_room
      → Lands (Kept (λ i. 12 ≤ i) f) (apply_fib h r f)
  unfolding apply_fib
  apply_fib-Lands (rc, fib) f e meta =
      let m1 : Mem = overlay f.bytes 0 6 fib.dmac in
      elim (Bool-cases (rc == 0)) [
        | inl success ↦
            rw
              (
                success,
                copy-ok f 0 6 fib.dmac (omega arith),
                copy-ok (record f { bytes = m1 }) 6 6 fib.smac (omega arith),
                set_ifindex-ok _ h.meta_room fib.ifindex meta,
              )
              (refl, refl, λ i far. unfold overlay in ground arith)
        | inr failed ↦ rw failed (elim (Bool-cases (rc == 1 || rc == 2 || rc == 3)) [
          | inl gone ↦ rw gone (refl, refl, λ i _. refl)
          | inr stays ↦ rw stays (refl, refl, λ i _. refl)
        ])
      ]

  look_up-Lands :
      (n : ℕ) (fib : FibParams) (going : Bool) (f : Frame)
      → 17 ≤ f.len
      → 12 ≤ h.meta_room
      → Lands (Kept (λ i. 12 ≤ i) f) (look_up h n fib going f)
  unfolding look_up
  look_up-Lands n fib true f e meta = apply_fib-Lands _ f e meta
  look_up-Lands n fib false f e meta = (refl, refl, λ i _. refl)

  forward-Lands :
      (n : ℕ) (d : Destination) (f : Frame)
      → 17 ≤ f.len
      → 12 ≤ h.meta_room
      → Lands (Kept (Fixed f) f) (forward h n d f)
  unfolding forward
  forward-Lands n (stop v) f e meta = (refl, refl, λ i _. refl)
  forward-Lands n by_map f e meta =
      bind-Lands (Kept (NotHop f) f) (Kept (Fixed f) f) _ _ (process_contract-Lands f e meta)
        λ going f' k. (k.0, k.1, λ i far. k.2 i (far.1))
  forward-Lands n (by_fib fib) f e meta =
      bind-Lands (Kept (NotHop f) f) (Kept (Fixed f) f) (process_contract h f) (look_up h n fib)
        (process_contract-Lands f e meta)
        λ going f' k.
          mono-Lands _ (Kept (Fixed f) f) _ (look_up-Lands n fib going f' (omega arith) meta)
            λ v f'' j. (j.0 ∙ k.0, j.1 ∙ k.1, λ i far. j.2 i (far.0) ∙ k.2 i (far.1))

  after-destination :
      (n : ℕ) (f : Frame)
      → 17 ≤ f.len
      → 12 ≤ h.meta_room
      → (d : Destination) (f' : Frame) → Kept (λ _. Unit {0}) f d f'
      → Lands (Kept (Fixed f) f) (forward h n d f')
  after-destination n f e meta d f' k =
      let at15 : f'.bytes 15 ≡ f.bytes 15 = k.2 15 tt in
      mono-Lands _ (Kept (Fixed f) f) _ (forward-Lands n d f' (omega arith) meta)
        λ v f'' j. (j.0 ∙ k.0, j.1 ∙ k.1, λ i far. j.2 i (ground (arith, far)) ∙ k.2 i tt)

  route_newip-Lands : (n : ℕ) (f : Frame) → Lands (Kept (Fixed f) f) (route_newip h n f)
  unfolding route_newip
  route_newip-Lands n f = elim (Bool-cases (ltb f.len 17)) [
    | inl short ↦ rw short (refl, refl, λ i _. refl)
    | inr long ↦
        let spec : ℕ = 14 + Wire.load8 f.bytes 14 in
        rw (long, fetch8-ok f 14 (ground arith))
          (elim (Bool-cases (ltb f.len (spec + 3))) [
            | inl short ↦ rw short (refl, refl, λ i _. refl)
            | inr room ↦ rw room (elim (Bool-cases (ltb h.meta_room 12)) [
              | inl small ↦ rw small (refl, refl, λ i _. refl)
              | inr large ↦
                  rw
                    (
                      large,
                      fetch8-ok f (spec + 0) (ground arith),
                      fetch8-ok f (spec + 1) (ground arith),
                    )
                    (bind-Lands (Kept (λ _. Unit {0}) f) (Kept (Fixed f) f)
                      (destination h (Wire.load8 f.bytes (spec + 1))
                        (14 + 3 + 3 + addr_size (Wire.load8 f.bytes (spec + 0))) f)
                      (forward h n) (destination-Lands _ _ f (ground (arith, large)))
                      (after-destination n f (ground arith) (ground (arith, large))))
            ])
          ])
  ]

  route_frame-Lands : (n : ℕ) (f : Frame) → Lands (Kept (Fixed f) f) (route_frame h n f)
  unfolding route_frame
  route_frame-Lands n f = elim (Bool-cases (ltb f.len 14)) [
    | inl short ↦ rw short (refl, refl, λ i _. refl)
    | inr long ↦
        rw (long, fetch16-ok f 12 (ground arith))
          (elim (Bool-cases (Wire.load16 f.bytes 12 == Wire.swap16 Wire.eth_p_newip)) [
            | inl newip ↦ rw newip (route_newip-Lands n f)
            | inr other ↦ rw other (refl, refl, λ i _. refl)
          ])
  ]

  pub route-Lands : (n : ℕ) (f : Frame) → Lands (Kept (Fixed f) f) (route h n f)
  unfolding route
  route-Lands n f = elim (Bool-cases h.adjust_meta_fails) [
    | inl fails ↦ simp fails (refl, refl, λ i _. refl)
    | inr works ↦ simp works (route_frame-Lands n f)
  ]
