-- ===== src/Pinned/Info.antt =====
-- When the information on a map agrees with what is expected of it.
use new_ip_linux.Common.{ℕ, ◌≡◌, refl, ◌⊎◌, ◌↔◌, Bool, true, false, if◌then◌else◌, arith, sym}
use mathlib.Core.Bool.{false≢true}
use new_ip_linux.Params.{exit_fail}
use new_ip_linux.Pinned.{MapInfo, differs, check_map_fd_info}

-- Nothing is expected, or the same as is there.
abbrev pub Agrees : (expected actual : ℕ) → Type 0
Agrees expected actual = (expected ≡ 0) ⊎ (expected ≡ actual)

abbrev pub AgreesWith : (exp info : MapInfo) → Type 0
AgreesWith exp info =
    Agrees exp.key_size info.key_size
    × Agrees exp.value_size info.value_size
    × Agrees exp.max_entries info.max_entries
    × Agrees exp.type info.type

differs_iff : (e a : ℕ) → (differs e a ≡ false) ↔ Agrees e a
differs_iff e a = ground arith

-- Four tests in a row, each of which may be the end.
tests_iff :
    (a b c d : Bool)
    → ((if a
          then exit_fail
          else if b
          then exit_fail
          else if c
          then exit_fail
          else if d
          then exit_fail
          else 0)
        ≡ 0)
      ↔ ((a ≡ false) × (b ≡ false) × (c ≡ false) × (d ≡ false))
tests_iff true b c d = (λ e. absurd (omega (arith, e)), λ h. absurd (false≢true (sym (h.0))))
tests_iff false true c d = (λ e. absurd (omega (arith, e)), λ h. absurd (false≢true (sym (h.1))))
tests_iff false false true d =
    (λ e. absurd (omega (arith, e)), λ h. absurd (false≢true (sym (h.2))))
tests_iff false false false true =
    (λ e. absurd (omega (arith, e)), λ h. absurd (false≢true (sym (h.3))))
tests_iff false false false false = (λ e. (refl, refl, refl, refl), λ h. refl)

-- The check returns 0 exactly if the information on the map agrees with what is expected: each of the
-- four numbers, key size, value size, count of entries and type, is 0 in what is expected, or is the
-- same in both.
pub check_map_fd_info-AgreesWith :
    (info exp : MapInfo) → (check_map_fd_info info exp ≡ 0) ↔ AgreesWith exp info
unfolding check_map_fd_info
check_map_fd_info-AgreesWith info exp =
    let t =
      tests_iff (differs exp.key_size info.key_size) (differs exp.value_size info.value_size)
        (differs exp.max_entries info.max_entries) (differs exp.type info.type) in
    let k = differs_iff exp.key_size info.key_size in
    let v = differs_iff exp.value_size info.value_size in
    let m = differs_iff exp.max_entries info.max_entries in
    let y = differs_iff exp.type info.type in
    (
      λ e. (k.0 ((t.0 e).0), v.0 ((t.0 e).1), m.0 ((t.0 e).2), y.0 ((t.0 e).3)),
      λ h. t.1 (k.1 (h.0), v.1 (h.1), m.1 (h.2), y.1 (h.3)),
    )
