-- ===== src/Params/Device.antt =====
-- The devices that the options name.
use new_ip_linux.Common.{
  length-strncpy, text_of-strncpy_le, ℕ, ◌<◌, ◌≡◌, ◌≢◌, refl, Bool, false, ◌⊎◌, inl, inr, List, [],
  ◌∷◌, ◌==◌, Bool-cases, leb, length, arith, Str, Buf, text_of, strncpy,
}
use new_ip_linux.Common.Int.{ℤ}
use new_ip_linux.Params
use new_ip_linux.Params.{
  Config, Label, Parsed, Name, null, buffer, label_of, handle, set_dev, set_redirect_dev, to_int,
  parse_options, dev, redirect_dev, if_namesize,
}
use new_ip_linux.Params.Runs.{Gives, and_parse-Gives}

module _ (if_nametoindex : Str → ℕ) where
  -- A device is not chosen, or its name ends inside its buffer, and the index is the one of the
  -- device with this name.
  abbrev pub IsChosen : Name → Buf → ℤ → Type 0
  IsChosen name b index =
      (name ≡ null)
      ⊎ ((name ≡ buffer)
          × (length b ≡ if_namesize)
          × (length (text_of b) < if_namesize)
          × (if_nametoindex (text_of b) ≢ 0)
          × (index ≡ to_int (if_nametoindex (text_of b))))

  abbrev pub HasDevices : Config → Type 0
  HasDevices c =
      IsChosen c.ifname c.ifname_buf c.ifindex
      × IsChosen c.redirect_ifname c.redirect_ifname_buf c.redirect_ifindex

  -- A name that fits is chosen, unless there is no such device.
  is_chosen :
      (a : Str)
      → leb if_namesize (length a) ≡ false
      → (if_nametoindex (text_of (strncpy if_namesize a)) == 0) ≡ false
      → IsChosen buffer
          (strncpy if_namesize a)
          (to_int (if_nametoindex (text_of (strncpy if_namesize a))))
  is_chosen a fits known = inr (
    refl,
    length-strncpy if_namesize a,
    ground (arith, text_of-strncpy_le if_namesize a),
    ground arith,
    refl,
  )

  set_dev-HasDevices :
      (a : Str) (c : Config) (v : Bool)
      → leb if_namesize (length a) ≡ false
      → HasDevices c
      → Gives HasDevices (set_dev if_nametoindex (strncpy if_namesize a) c v)
  unfolding set_dev
  set_dev-HasDevices a c v fits h =
      elim (Bool-cases (if_nametoindex (text_of (strncpy if_namesize a)) == 0)) [
        | inl y ↦ rw y tt
        | inr n ↦ rw n (is_chosen a fits n, h.1)
      ]

  set_redirect_dev-HasDevices :
      (a : Str) (c : Config) (v : Bool)
      → leb if_namesize (length a) ≡ false
      → HasDevices c
      → Gives HasDevices (set_redirect_dev if_nametoindex (strncpy if_namesize a) c v)
  unfolding set_redirect_dev
  set_redirect_dev-HasDevices a c v fits h =
      elim (Bool-cases (if_nametoindex (text_of (strncpy if_namesize a)) == 0)) [
        | inl y ↦ rw y tt
        | inr n ↦ rw n (h.0, is_chosen a fits n)
      ]

module _ (if_nametoindex : Str → ℕ) (atoi : Str → ℤ) where
  handle-HasDevices :
      (l : Label) (a : Str) (c : Config) (v : Bool)
      → HasDevices if_nametoindex c
      → Gives (HasDevices if_nametoindex) (handle if_nametoindex atoi l a c v)
  unfolding handle
  handle-HasDevices dev a c v h = elim (Bool-cases (leb if_namesize (length a))) [
    | inl y ↦ rw y tt
    | inr n ↦ rw n (set_dev-HasDevices if_nametoindex a c v n h)
  ]
  handle-HasDevices redirect_dev a c v h = elim (Bool-cases (leb if_namesize (length a))) [
    | inl y ↦ rw y tt
    | inr n ↦ rw n (set_redirect_dev-HasDevices if_nametoindex a c v n h)
  ]
  handle-HasDevices Params.help a c v h = tt
  handle-HasDevices Params.other a c v h = tt
  handle-HasDevices _ a c v h = h

  -- If the settings name only devices that exist, so do those that any run of the options returns:
  -- a chosen name has its end inside its buffer of 16 bytes, and the index beside it is the one that
  -- the system gives for this name, which is not 0.
  pub parse_options-HasDevices :
      (os : List (ℕ × Str)) (c : Config) (v : Bool)
      → HasDevices if_nametoindex c
      → Gives (HasDevices if_nametoindex) (parse_options if_nametoindex atoi os c v)
  unfolding parse_options
  parse_options-HasDevices [] c v h = h
  parse_options-HasDevices (o ∷ os) c v h =
      and_parse-Gives _ _ (handle if_nametoindex atoi (label_of (o.0)) (o.1) c v)
        (parse_options if_nametoindex atoi os) (handle-HasDevices (label_of (o.0)) (o.1) c v h)
        (parse_options-HasDevices os)
