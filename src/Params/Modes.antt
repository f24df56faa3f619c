-- ===== src/Params/Modes.antt =====
-- The XDP modes that a run of the options leaves set.
use new_ip_linux.Common.{
  ℕ, ◌≡◌, refl, ◌∙◌, ap, Bool, inl, inr, List, [], ◌∷◌, ◌==◌, Bool-cases, leb, length, Str, Buf,
  text_of, strncpy,
}
use new_ip_linux.Common.Int.{ℤ}
use new_ip_linux.Params
use new_ip_linux.Params.{
  Config, Label, Parsed, parsed, usage_exit, label_of, handle, set_dev, set_redirect_dev,
  parse_options, dev, redirect_dev, auto_mode, skb_mode, native_mode, offload_mode, force,
  if_namesize,
}
use new_ip_linux.Params.Runs.{Gives, Gives-mono, and_parse-Gives}
use new_ip_linux.Params.Bits.{
  modes_of, noexist_of, clear_modes-bits, set_mode-skb, set_mode-drv, set_mode-hw,
  clear_noexist-bits,
}

-- The modes after an option: none, generic, native or offload, or those before.
abbrev pub mode_after : Label → ℕ → ℕ
mode_after auto_mode m = 0
mode_after skb_mode m = 1
mode_after native_mode m = 2
mode_after offload_mode m = 4
mode_after _ m = m

abbrev pub noexist_after : Label → ℕ → ℕ
noexist_after force n = 0
noexist_after _ n = n

-- The same for a run of options, the last of which decides.
abbrev pub modes_after : List (ℕ × Str) → ℕ → ℕ
modes_after [] m = m
modes_after (o ∷ os) m = modes_after os (mode_after (label_of (o.0)) m)

abbrev pub noexists_after : List (ℕ × Str) → ℕ → ℕ
noexists_after [] n = n
noexists_after (o ∷ os) n = noexists_after os (noexist_after (label_of (o.0)) n)

-- The flags of `c'` have these modes and this bit 0.
abbrev pub HasModes : (modes noexist : ℕ) → Config → Type 0
HasModes m n c = (modes_of c.xdp_flags ≡ m) × (noexist_of c.xdp_flags ≡ n)

module _ (if_nametoindex : Str → ℕ) (atoi : Str → ℤ) where
  abbrev Kept : Config → Parsed → Type 0
  Kept c r = Gives (HasModes (modes_of c.xdp_flags) (noexist_of c.xdp_flags)) r

  set_dev-Kept : (name : Buf) (c : Config) (v : Bool) → Kept c (set_dev if_nametoindex name c v)
  unfolding set_dev
  set_dev-Kept name c v = elim (Bool-cases (if_nametoindex (text_of name) == 0)) [
    | inl y ↦ rw y tt
    | inr n ↦ rw n (refl, refl)
  ]

  set_redirect_dev-Kept :
      (name : Buf) (c : Config) (v : Bool) → Kept c (set_redirect_dev if_nametoindex name c v)
  unfolding set_redirect_dev
  set_redirect_dev-Kept name c v = elim (Bool-cases (if_nametoindex (text_of name) == 0)) [
    | inl y ↦ rw y tt
    | inr n ↦ rw n (refl, refl)
  ]

  handle-HasModes :
      (l : Label) (a : Str) (c : Config) (v : Bool)
      → Gives
          (HasModes
            (mode_after l (modes_of c.xdp_flags))
            (noexist_after l (noexist_of c.xdp_flags)))
          (handle if_nametoindex atoi l a c v)
  unfolding handle
  handle-HasModes dev a c v = elim (Bool-cases (leb if_namesize (length a))) [
    | inl y ↦ rw y tt
    | inr n ↦ rw n (set_dev-Kept (strncpy if_namesize a) c v)
  ]
  handle-HasModes redirect_dev a c v = elim (Bool-cases (leb if_namesize (length a))) [
    | inl y ↦ rw y tt
    | inr n ↦ rw n (set_redirect_dev-Kept (strncpy if_namesize a) c v)
  ]
  handle-HasModes auto_mode a c v = clear_modes-bits c.xdp_flags
  handle-HasModes skb_mode a c v = set_mode-skb c.xdp_flags
  handle-HasModes native_mode a c v = set_mode-drv c.xdp_flags
  handle-HasModes offload_mode a c v = set_mode-hw c.xdp_flags
  handle-HasModes force a c v = clear_noexist-bits c.xdp_flags
  handle-HasModes Params.help a c v = tt
  handle-HasModes Params.other a c v = tt
  handle-HasModes _ a c v = (refl, refl)

  -- If a run of the options returns settings, then of the options for the modes the last decides the
  -- modes: none for the automatic choice, else the one flag of generic, native or offloaded mode. The
  -- modes are those from before the run if there is no such option. The flag that forbids to replace
  -- a program is cleared by the option for force and is else as before.
  pub parse_options-HasModes :
      (os : List (ℕ × Str)) (c : Config) (v : Bool)
      → Gives
          (HasModes
            (modes_after os (modes_of c.xdp_flags))
            (noexists_after os (noexist_of c.xdp_flags)))
          (parse_options if_nametoindex atoi os c v)
  unfolding parse_options
  parse_options-HasModes [] c v = (refl, refl)
  parse_options-HasModes (o ∷ os) c v =
      and_parse-Gives _ _ (handle if_nametoindex atoi (label_of (o.0)) (o.1) c v)
        (parse_options if_nametoindex atoi os) (handle-HasModes (label_of (o.0)) (o.1) c v)
        (λ d w h.
          Gives-mono _ _ (parse_options if_nametoindex atoi os d w)
            (λ e g. (g.0 ∙ ap (modes_after os) (h.0), g.1 ∙ ap (noexists_after os) (h.1)))
            (parse_options-HasModes os d w))
