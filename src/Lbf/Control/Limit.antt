-- ===== src/Lbf/Control/Limit.antt =====
-- The limit of a discipline: a report of it sets it again.
use new_ip_linux.Common.{
  ℕ, ◌<◌, ◌≤◌, ◌^◌, arith, ◌≡◌, ◌≢◌, refl, inl, inr, ◌⊎◌, Option-cases, false, Option, none, some,
}
use new_ip_linux.Common.Int.{pos}
use new_ip_linux.Lbf.Store.{State, ok}
use new_ip_linux.Lbf.Control.{
  Netlink, emsgsize, is_negative, set_limit, apply_options, change, fill_dump, tca_lbf_limit,
  tca_lbf_max, finish_dump, dump,
}

-- What the code relies on: parsing succeeds for a message that was started, filled with one attribute
-- of 32 bits, whose number is not 0 and not above the highest, and ended; in the table the value
-- stands under the attribute's number, and nothing under any other.
pub record Lawful {Msg Attr : Type 0} (nl : Netlink Msg Attr) (received : Msg → Attr) : Type 0 where
  pub parses :
      (attrtype maxtype value : ℕ) (m m1 m2 : Msg)
      → 0 < attrtype
      → attrtype ≤ maxtype
      → value < 2 ^ 32
      → nl.nest_start m ≡ some m1
      → nl.put_u32 attrtype value m1 ≡ some m2
      → (tb : ℕ → Option ℕ) × (nl.parse_nested maxtype (received ((nl.nest_end m2).1))
          ≡ (pos 0, tb))
        × (tb attrtype ≡ some value)
        × ((u : ℕ) → u ≢ attrtype → tb u ≡ none)

-- A report fails, or is a message that was started, filled and ended.
dump-cases :
    {Msg Attr : Type 0} (nl : Netlink Msg Attr) (limit : ℕ) (m : Msg)
    → ((m' : Msg) × (dump nl limit m ≡ (emsgsize, m')))
      ⊎ ((m1 : Msg) × (m2 : Msg) × (nl.nest_start m ≡ some m1)
          × (nl.put_u32 tca_lbf_limit limit m1 ≡ some m2)
          × (dump nl limit m ≡ nl.nest_end m2))
unfolding dump fill_dump finish_dump
dump-cases nl limit m = elim (Option-cases (nl.nest_start m)) [
  | inl miss ↦ inl (m, rw miss refl)
  | inr (m1, started) ↦ elim (Option-cases (nl.put_u32 tca_lbf_limit limit m1)) [
    | inl miss ↦ inl (nl.nest_cancel m1, rw (started, miss) refl)
    | inr (m2, filled) ↦ inr (m1, m2, started, filled, rw (started, filled) refl)
  ]
]

not_failed : is_negative emsgsize ≢ false
not_failed e = cc

module _ {Msg Attr : Type 0} (nl : Netlink Msg Attr) (received : Msg → Attr)
    (law : Lawful nl received) where
  -- If the report of a limit of 32 bits succeeds, then a change with what was reported sets that limit
  -- in any discipline, leaves the rest of it, and returns 0.
  pub change-dump :
      (limit : ℕ) (m : Msg) (s : State)
      → limit < 2 ^ 32
      → is_negative ((dump nl limit m).0) ≡ false
      → change nl (some (received ((dump nl limit m).1))) s
        ≡ ok (pos 0) (record s { limit = limit })
  unfolding change apply_options set_limit
  change-dump limit m s wide fine = elim (dump-cases nl limit m) [
    | inl (m', failed) ↦ absurd (not_failed (rw failed at fine))
    | inr (m1, m2, started, filled, e) ↦
        let (tb, parsed, there, others) =
          law.parses tca_lbf_limit tca_lbf_max limit m m1 m2 (omega arith) (omega arith) wide
            started filled in
        rw (e, parsed) (simp there refl)
  ]
