-- ===== src/Iproute.antt =====
-- lbf/src/iproute2/q_lbf.c: how the `tc` command reads the options of the discipline and reports its
-- options and statistics. The number parser `get_unsigned` of iproute2 is a parameter, `none` where
-- it fails; a missing argument ends the command.
pub mod Options
pub mod Stats
mod Tests
use new_ip_linux.Common.{
  ℕ, ◌+◌, ◌*◌, ◌^◌, Bool, true, false, Option, none, some, List, [], ◌∷◌, ◌&&◌, ltb, leb, ◌==◌,
  if◌then◌else◌, Str, same_str,
}
use new_ip_linux.Wire.{Mem, load8}

-- "limit"
abbrev pub limit_word : Str
limit_word = 108 ∷ 105 ∷ 109 ∷ 105 ∷ 116 ∷ []

-- What is appended to the message: the nest of options, the attribute TCA_LBF_LIMIT, the end.
pub data Write : Type 0 where
  nest : Write
  limit : ℕ → Write
  nest_end : Write

-- How `lbf_parse_opt` ends: 0 and what it wrote, -1 with the reason that it prints, or the end of the
-- command.
pub data Outcome : Type 0 where
  sent : List Write → Outcome
  illegal_limit : Outcome
  unknown : Str → Outcome
  incomplete : Outcome

-- A limit of 0 is not sent.
abbrev pub message : (limit : ℕ) → List Write
message n = if n == 0 then nest ∷ nest_end ∷ [] else nest ∷ limit n ∷ nest_end ∷ []

module _ (get_unsigned : Str → Option ℕ) where
  -- The loop over the arguments, with the limit so far.
  unfoldable pub parse_args : List Str → (so_far : ℕ) → Outcome
  parse_args [] so_far = sent (message so_far)
  parse_args (a ∷ []) so_far = if same_str a limit_word then incomplete else unknown a
  parse_args (a ∷ v ∷ rest) so_far =
      if same_str a limit_word
      then elim (get_unsigned v) [ none ↦ illegal_limit | some n ↦ parse_args rest n ]
      else unknown a

  unfoldable pub parse_opt : List Str → Outcome
  parse_opt args = parse_args args 0

-- The attribute TCA_LBF_LIMIT, if there is one: the size of its payload and its value.
pub record Attribute : Type 0 where
  pub payload : ℕ
  pub value : ℕ

-- The limit that is printed, if any; the outer `none` is a NULL `opt`.
unfoldable pub print_opt : Option (Option Attribute) → Option ℕ
print_opt none = none
print_opt (some none) = none
print_opt (some (some a)) = if leb 4 a.payload then some a.value else none

-- The statistics as they were received, and their size.
pub record Received : Type 0 where
  pub bytes : Mem
  pub size : ℕ

-- `*(__u32 *)(base + o)`
abbrev pub load32 : Mem → ℕ → ℕ
load32 m o =
    load8 m o + 256 * load8 m (o + 1) + 65536 * load8 m (o + 2) + 16777216 * load8 m (o + 3)

-- Statistics that are shorter than the structure are filled up with zeros.
unfoldable pub widen : Received → Mem
widen r i = if ltb r.size 8 then (if ltb i r.size then r.bytes i else 0) else r.bytes i

-- The delay and the overlimit that are printed; `none` is NULL.
unfoldable pub print_xstats : Option Received → Option (ℕ × ℕ)
print_xstats none = none
print_xstats (some r) = some (load32 (widen r) 0, load32 (widen r) 4)
