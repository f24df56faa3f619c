-- ===== src/Params/Table.antt =====
-- xdp/common/common_params.c: the table of a program's options, the text of the help and the command
-- line. A table ends at its first entry without a name; `beyond` is a read behind a table without
-- such an entry, or a write behind the buffer of a line. `getopt_long` is a parameter, over the array
-- of options that it is given and the arguments.
use new_ip_linux.Common.{
  ℕ, ◌+◌, ◌-◌, ◌≡◌, Bool, true, false, Option, none, some, List, [], ◌∷◌, ◌++◌, ltb, leb,
  if◌then◌else◌, length, Str, take,
}
use new_ip_linux.Common.Int.{ℤ}
use new_ip_linux.Params.{Config, Parsed, parsed, usage_exit, parse_options, exit_fail_option}

-- `struct option` of getopt.h.
pub record Entry : Type 0 where
  pub name : Option Str
  pub has_arg : ℕ
  pub flag : Option ℕ
  pub val : ℕ

-- `struct option_wrapper`
pub record OptionWrapper : Type 0 where
  pub entry : Entry
  pub help : Str
  pub metavar : Option Str
  pub required : Bool

-- What is printed: a line for each option, with its letter if it has one, and the fixed lines.
pub data Line : Type 0 where
  usage_of : (prog_name : Str) → Line
  use_help : Line
  documentation : (doc : Str) → Line
  required_options : Line
  other_options : Line
  option_line : (letter : Option ℕ) → (column : Str) → (help : Str) → Line
  empty : Line

-- What `snprintf` leaves in a buffer of n bytes.
abbrev pub snprintf : (n : ℕ) → Str → Str
snprintf n s = take (n - 1) s

abbrev pub bufsize : ℕ
bufsize = 30

-- " --%s" and " %s" in the buffer.
unfoldable pub column : (name : Str) → (metavar : Option Str) → Option Str
column name none = some (snprintf bufsize (32 ∷ 45 ∷ 45 ∷ name))
column name (some m) =
    let pos = 3 + length name in
    if leb pos bufsize
    then some (snprintf bufsize (32 ∷ 45 ∷ 45 ∷ name) ++ snprintf (bufsize - pos) (32 ∷ m))
    else none

abbrev pub letter : (val : ℕ) → Option ℕ
letter val = if ltb 64 val then some val else none

abbrev pub same_bool : Bool → Bool → Bool
same_bool true b = b
same_bool false true = false
same_bool false false = true

abbrev pub and_print : Option Str → (Str → Line) → Option (List Line) → Option (List Line)
and_print (some c) line (some rest) = some (line c ∷ rest)
and_print _ line _ = none

-- `_print_options`
unfoldable pub print_options : List OptionWrapper → (required : Bool) → Option (List Line)
print_options [] required = none
print_options (w ∷ ws) required =
    let rest = print_options ws required in
    elim ((w.entry).name) [
      | none ↦ some []
      | some name ↦
          if same_bool w.required required
          then and_print (column name w.metavar) (λ c. option_line (letter (w.entry).val) c w.help)
              rest
          else rest
    ]

abbrev pub and_lines : Option (List Line) → (List Line → Option (List Line)) → Option (List Line)
and_lines none k = none
and_lines (some ls) k = k ls

unfoldable pub usage :
    (prog_name doc : Str) → List OptionWrapper → (full : Bool) → Option (List Line)
usage prog doc table false = some (usage_of prog ∷ use_help ∷ [])
usage prog doc table true = and_lines (print_options table true) λ needed.
    and_lines (print_options table false) λ others. some (
      usage_of prog ∷ documentation doc ∷ required_options ∷ needed
      ++ empty ∷ other_options ∷ others
      ++ empty ∷ [])

-- The entries before the one without a name.
unfoldable pub named : List OptionWrapper → Option (List Entry)
named [] = none
named (w ∷ ws) =
    let rest = named ws in
    elim ((w.entry).name) [
      | none ↦ some []
      | some name ↦ elim rest [ none ↦ none | some es ↦ some (w.entry ∷ es) ]
    ]

pub data Copied : Type 0 where
  beyond : Copied
  no_memory : Copied
  copied : List Entry → Copied

abbrev pub copy_of : (allocated : Bool) → Option (List Entry) → Copied
copy_of allocated none = beyond
copy_of true (some es) = copied es
copy_of false (some es) = no_memory

-- As many entries are copied as have names.
unfoldable pub option_wrappers_to_options : (allocated : Bool) → List OptionWrapper → Copied
option_wrappers_to_options allocated ws = copy_of allocated (named ws)

-- How `parse_cmdline_args` ends: it returns, the program ends with a status after the lines of
-- `usage` (none where these are `beyond`), or the table has no end.
pub data CommandLine : Type 0 where
  returns : Config → (verbose : Bool) → CommandLine
  exits : (status : ℕ) → (printed : Option (List Line)) → CommandLine
  faults : CommandLine

abbrev pub after_options : (prog_name doc : Str) → List OptionWrapper → Parsed → CommandLine
after_options prog doc table (parsed c v) = returns c v
after_options prog doc table (usage_exit full) = exits exit_fail_option (usage prog doc table full)

module _ (if_nametoindex : Str → ℕ) (atoi : Str → ℤ)
    (getopt_long : List Entry → (args : List Str) → List (ℕ × Str)) where
  abbrev pub after_copy :
      (prog_name : Str)
      → (args : List Str) → List OptionWrapper
      → Config
      → (verbose : Bool) → (doc : Str) → Copied
      → CommandLine
  after_copy prog args table c v doc beyond = faults
  after_copy prog args table c v doc no_memory = exits exit_fail_option (some [])
  after_copy prog args table c v doc (copied es) =
      after_options prog doc table (parse_options if_nametoindex atoi (getopt_long es args) c v)

  unfoldable pub parse_cmdline_args :
      (allocated : Bool)
      → (prog_name : Str) → (args : List Str) → List OptionWrapper
      → Config
      → (verbose : Bool) → (doc : Str) → CommandLine
  parse_cmdline_args allocated prog args table c v doc =
      after_copy prog args table c v doc (option_wrappers_to_options allocated table)

-- An entry has a name.
abbrev pub HasName : Entry → Type 0
HasName e = (s : Str) × (e.name ≡ some s)
