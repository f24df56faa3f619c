-- ===== src/Attach/Tests.antt =====
-- Attaching and detaching on a system with one device, which refuses to replace a program of the other
-- mode.
use new_ip_linux.Common.{
  Bool-cases, ==_iff, ap, sym, ◌∙◌, ℕ, ◌≡◌, ◌≢◌, refl, inl, inr, Bool, true, false, Option, none,
  some, if◌then◌else◌, ◌==◌, ◌||◌, ◌&&◌, not,
}
use mathlib.Core.Path.{subst}
use new_ip_linux.Common.Int.{ℤ, pos, negsuc, minus_one}
use new_ip_linux.Host.{Links}
use new_ip_linux.Params.{set_mode, clear_modes}
use new_ip_linux.Params.Bits.{modes_of}
use new_ip_linux.Attach.{is_forced, xdp_link_attach, xdp_link_detach}
use new_ip_linux.Attach.Link.{
  Mode, generic, native, offloaded, asked_mode, Slot, LinksLaws, Attaches, Sets,
}
use new_ip_linux.Attach.Put.{xdp_link_attach-Attaches}
use new_ip_linux.Attach.Off.{Detached, xdp_link_detach-Detached}

-- The device has the index 3 and two hooks; all other hooks are empty.
pub record Device : Type 0 where
  pub in_stack : Option ℕ
  pub in_driver : Option ℕ

abbrev pub nothing_attached : Device
nothing_attached = record { in_stack = none; in_driver = none }

abbrev pub in_driver_only : ℕ → Device
in_driver_only fd = record { in_stack = none; in_driver = some fd }

abbrev pub in_stack_only : ℕ → Device
in_stack_only fd = record { in_stack = some fd; in_driver = none }

abbrev pub is_three : ℤ → Bool
is_three (pos n) = n == 3
is_three (negsuc n) = false

abbrev pub of_mode : Mode → Device → Option ℕ
of_mode generic w = w.in_stack
of_mode native w = w.in_driver
of_mode offloaded w = none

abbrev pub hook : Device → Slot → Option ℕ
hook w (j, m) = if is_three j then of_mode m w else none

abbrev pub usual : ℤ → Mode
usual i = native

abbrev is_there : Option ℕ → Bool
is_there none = false
is_there (some fd) = true

-- A program of the other mode is there, or one of this mode that must stay.
abbrev is_blocked : Mode → (forced : Bool) → Device → Bool
is_blocked generic forced w = is_there w.in_driver || (not forced && is_there w.in_stack)
is_blocked native forced w = is_there w.in_stack || (not forced && is_there w.in_driver)
is_blocked offloaded forced w = false

abbrev put : Mode → Option ℕ → Device → ℤ × Device
put generic o w = (pos 0, record w { in_stack = o })
put native o w = (pos 0, record w { in_driver = o })
put offloaded o w = (negsuc 94, w)

abbrev put_free : (blocked : Bool) → Mode → Option ℕ → Device → ℤ × Device
put_free true m o w = (negsuc 16, w)
put_free false m o w = put m o w

abbrev set_mode_hook : (fd : ℤ) → (forced : Bool) → Mode → Device → ℤ × Device
set_mode_hook (pos fd) forced m w = put_free (is_blocked m forced w) m (some fd) w
set_mode_hook (negsuc fd) forced m w = put m none w

abbrev on_three : (three : Bool) → ℤ × Device → Device → ℤ × Device
on_three true r w = r
on_three false r w = (negsuc 18, w)

abbrev id_of : Option ℕ → ℕ
id_of none = 0
id_of (some fd) = fd

abbrev pub system : Links Device
system = record {
  set_link_xdp_fd = λ i fd flags w.
      on_three (is_three i)
        (set_mode_hook fd (is_forced flags) (asked_mode (modes_of flags) (usual i)) w) w;
  get_link_xdp_id = λ i flags w. (pos 0, id_of (hook w (i, asked_mode (modes_of flags) (usual i))));
}

-- A program of the other mode is replaced if that is allowed, and stays if it is not.
replaced : xdp_link_attach system (pos 3) 4 (pos 8) (in_stack_only 7) ≡ (0, in_driver_only 8)
unfolding xdp_link_attach set_mode clear_modes
replaced = refl

refused : xdp_link_attach system (pos 3) 5 (pos 8) (in_stack_only 7) ≡ (30, in_stack_only 7)
unfolding xdp_link_attach
refused = refl

not_expected : xdp_link_detach system (pos 3) 5 8 (in_driver_only 7) ≡ (1, in_driver_only 7)
unfolding xdp_link_detach
not_expected = refl

-- A change of one mode of the device leaves the other hooks.
other_mode_same :
    (k m : Mode) (o : Option ℕ) (w : Device) → m ≢ k → of_mode m ((put k o w).1) ≡ of_mode m w
other_mode_same generic generic o w d = absurd (d refl)
other_mode_same generic native o w d = refl
other_mode_same generic offloaded o w d = refl
other_mode_same native generic o w d = refl
other_mode_same native native o w d = absurd (d refl)
other_mode_same native offloaded o w d = refl
other_mode_same offloaded m o w d = refl

three_unique : (n : ℕ) (j : ℤ) → (n == 3) ≡ true → is_three j ≡ true → j ≡ pos n
three_unique n (pos m) e f = ap pos ((==_iff m 3).0 f ∙ sym ((==_iff n 3).0 e))
three_unique n (negsuc m) e f = cc

other_hook :
    (n : ℕ) (k : Mode) (o : Option ℕ) (w : Device) (j : ℤ) (m : Mode)
    → (n == 3) ≡ true
    → ◌≢◌ {A = Slot} (j, m) (pos n, k)
    → hook ((put k o w).1) (j, m) ≡ hook w (j, m)
other_hook n k o w j m e d = elim (Bool-cases (is_three j)) [
  | inr z ↦ rw z refl
  | inl y ↦ rw y (
      other_mode_same k m o w
        (λ same. d (ap (λ i. (i, m)) (three_unique n j e y) ∙ ap (λ a. (pos n, a)) same)))
]

-- Setting a hook of the device, or failing.
put-Sets :
    (n : ℕ) (k : Mode) (o : Option ℕ) (w : Device)
    → (n == 3) ≡ true
    → Sets hook (pos n, k) o w (put k o w)
put-Sets n generic o w e = inl (refl, (rw e refl, λ j d. other_hook n generic o w (j.0) (j.1) e d))
put-Sets n native o w e = inl (refl, (rw e refl, λ j d. other_hook n native o w (j.0) (j.1) e d))
put-Sets n offloaded o w e = inr (94, refl, λ j. refl)

put_free-Sets :
    (blocked : Bool) (n : ℕ) (k : Mode) (o : Option ℕ) (w : Device)
    → (n == 3) ≡ true
    → Sets hook (pos n, k) o w (put_free blocked k o w)
put_free-Sets true n k o w e = inr (16, refl, λ j. refl)
put_free-Sets false n k o w e = put-Sets n k o w e

attach_law_ok :
    (i : ℤ) (fd : ℕ) (forced : Bool) (k : Mode) (w : Device)
    → Sets hook (i, k) (some fd) w (on_three (is_three i) (set_mode_hook (pos fd) forced k w) w)
attach_law_ok (pos n) fd forced k w = elim (Bool-cases (n == 3)) [
  | inl y ↦
      subst
        (λ b. Sets hook (pos n, k) (some fd) w (on_three b (set_mode_hook (pos fd) forced k w) w))
        (sym y) (put_free-Sets (is_blocked k forced w) n k (some fd) w y)
  | inr z ↦
      subst
        (λ b. Sets hook (pos n, k) (some fd) w (on_three b (set_mode_hook (pos fd) forced k w) w))
        (sym z) (inr (18, refl, λ j. refl))
]
attach_law_ok (negsuc n) fd forced k w = inr (18, refl, λ j. refl)

detach_law_ok :
    (i : ℤ) (forced : Bool) (k : Mode) (w : Device)
    → Sets hook (i, k) none w (on_three (is_three i) (set_mode_hook minus_one forced k w) w)
detach_law_ok (pos n) forced k w = elim (Bool-cases (n == 3)) [
  | inl y ↦
      subst (λ b. Sets hook (pos n, k) none w (on_three b (set_mode_hook minus_one forced k w) w))
        (sym y) (put-Sets n k none w y)
  | inr z ↦
      subst (λ b. Sets hook (pos n, k) none w (on_three b (set_mode_hook minus_one forced k w) w))
        (sym z) (inr (18, refl, λ j. refl))
]
detach_law_ok (negsuc n) forced k w = inr (18, refl, λ j. refl)

pub system-LinksLaws : LinksLaws hook usual system
system-LinksLaws = record {
  attach_law = λ i fd flags w.
      attach_law_ok i fd (is_forced flags) (asked_mode (modes_of flags) (usual i)) w;
  detach_law =
      λ i flags w. detach_law_ok i (is_forced flags) (asked_mode (modes_of flags) (usual i)) w;
}

xdp_link_attach-Attaches_example :
    Attaches hook usual
      (pos 3)
      8
      4
      (in_stack_only 7)
      (xdp_link_attach system (pos 3) 4 (pos 8) (in_stack_only 7))
xdp_link_attach-Attaches_example =
    xdp_link_attach-Attaches hook usual system system-LinksLaws (pos 3) 8 4 (in_stack_only 7)

xdp_link_detach-Detached_example :
    Detached hook
      (pos 3, native)
      8
      (in_driver_only 7)
      (pos 0, 7)
      (xdp_link_detach system (pos 3) 5 8 (in_driver_only 7))
xdp_link_detach-Detached_example =
    xdp_link_detach-Detached hook usual system system-LinksLaws (pos 3) 5 8 (in_driver_only 7)
