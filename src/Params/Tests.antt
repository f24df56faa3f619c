-- ===== src/Params/Tests.antt =====
-- Runs of the options, and the theorems on them at a table of two options.
use new_ip_linux.Common.{
  ℕ, ◌-◌, ◌≡◌, refl, true, false, none, some, List, [], ◌∷◌, ◌==◌, if◌then◌else◌, Str, zeros,
  strncpy, text_of, inl,
}
use new_ip_linux.Common.Int.{ℤ, pos, minus_one}
use new_ip_linux.Params.{
  Config, parsed, usage_exit, null, buffer, parse_options, handle, set_dev, label_of, set_mode,
  clear_modes, clear_noexist, bind_flags,
}
use new_ip_linux.Params.Runs.{Gives}
use new_ip_linux.Params.Modes.{HasModes, parse_options-HasModes}
use new_ip_linux.Params.Device.{HasDevices, parse_options-HasDevices}
use new_ip_linux.Params.Table.{
  OptionWrapper, copied, option_wrappers_to_options, print_options, column, option_line, named,
  parse_cmdline_args, usage, exits, use_help, usage_of,
}

abbrev pub start : Config
start = record {
  xdp_flags = 5;
  ifindex = minus_one;
  ifname = null;
  ifname_buf = zeros 16;
  redirect_ifindex = pos 0;
  redirect_ifname = null;
  redirect_ifname_buf = zeros 16;
  do_unload = false;
  reuse_maps = false;
  pin_dir = zeros 512;
  filename = zeros 512;
  progsec = zeros 32;
  src_mac = zeros 18;
  dest_mac = zeros 18;
  xsk_bind_flags = 0;
  xsk_if_queue = pos 0;
  xsk_poll_mode = false;
}

-- One device: "e", at the index 7.
abbrev one_device : Str → ℕ
one_device (c ∷ []) = if c == 101 then 7 else 0
one_device _ = 0

abbrev digit : Str → ℤ
digit (d ∷ []) = pos (d - 48)
digit _ = pos 0

-- -d e -S -F
abbrev options : List (ℕ × Str)
options = (100, 101 ∷ []) ∷ (83, []) ∷ (70, []) ∷ []

abbrev chosen : Config
chosen = record start {
  ifname = buffer;
  ifname_buf = 101 ∷ zeros 15;
  ifindex = pos 7;
  xdp_flags = 2;
  xsk_bind_flags = 2;
}

parse_options_run : parse_options one_device digit options start true ≡ parsed chosen true
unfolding parse_options handle set_dev label_of strncpy text_of set_mode clear_modes clear_noexist
    bind_flags
parse_options_run = refl

-- The address of the destination turns copying on, although no option for it is given.
dest_mac_copies :
    parse_options one_device digit ((82, []) ∷ []) start true
    ≡ parsed (record start { xsk_bind_flags = 2 }) true
unfolding parse_options handle label_of bind_flags strncpy
dest_mac_copies = refl

-- An unknown device ends the program.
unknown_device :
    parse_options one_device digit ((100, 102 ∷ []) ∷ (83, []) ∷ []) start true ≡ usage_exit false
unfolding parse_options handle set_dev label_of strncpy text_of
unknown_device = refl

parse_options-HasModes_example :
    Gives (HasModes 1 0) (parse_options one_device digit options start true)
unfolding label_of
parse_options-HasModes_example = parse_options-HasModes one_device digit options start true

parse_options-HasDevices_example :
    Gives (HasDevices one_device) (parse_options one_device digit options start true)
parse_options-HasDevices_example =
    parse_options-HasDevices one_device digit options start true (inl refl, inl refl)

-- --dev <n> and --quiet
abbrev dev_option : OptionWrapper
dev_option = record {
  entry = record { name = some (100 ∷ 101 ∷ 118 ∷ []); has_arg = 1; flag = none; val = 100 };
  help = [];
  metavar = some (110 ∷ []);
  required = true;
}

abbrev quiet_option : OptionWrapper
quiet_option = record {
  entry = record { name = some (113 ∷ []); has_arg = 0; flag = none; val = 113 };
  help = [];
  metavar = none;
  required = false;
}

abbrev table_end : OptionWrapper
table_end = record {
  entry = record { name = none; has_arg = 0; flag = none; val = 0 };
  help = [];
  metavar = none;
  required = false;
}

required_lines :
    print_options (dev_option ∷ quiet_option ∷ table_end ∷ []) true
    ≡ some (option_line (some 100) (32 ∷ 45 ∷ 45 ∷ 100 ∷ 101 ∷ 118 ∷ 32 ∷ 110 ∷ []) [] ∷ [])
unfolding print_options column
required_lines = refl

-- Both options are copied, and no end behind them.
two_options_copied :
    option_wrappers_to_options true (dev_option ∷ quiet_option ∷ table_end ∷ [])
    ≡ copied (dev_option.entry ∷ quiet_option.entry ∷ [])
unfolding option_wrappers_to_options named
two_options_copied = refl

-- An option that is not known ends the command line with the status 2.
command_line_unknown :
    parse_cmdline_args one_device digit
      (λ _ _. (63, []) ∷ [])
      true
      []
      []
      (table_end ∷ [])
      start
      true
      []
    ≡ exits 2 (some (usage_of [] ∷ use_help ∷ []))
unfolding parse_cmdline_args parse_options handle label_of usage named option_wrappers_to_options
command_line_unknown = refl
