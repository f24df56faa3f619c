-- ===== src/Router/Tests/Frames.antt =====
-- Frames, and answers of the kernel, for runs of the programs.
use new_ip_linux.Common.{ℕ, ◌-◌, false, none, some, List, [], ◌∷◌, ◌==◌, if◌then◌else◌}
use new_ip_linux.Wire.{Mem}
use new_ip_linux.Router.{Helpers}
use new_ip_linux.Router.Memory.{Datarec, Frame}

-- The only entry of the map is interface 7 for the address 5. No route is found.
abbrev pub helpers : Helpers
helpers = record {
  af_inet = 2;
  af_inet6 = 10;
  adjust_meta_fails = false;
  meta_room = 12;
  static_redirect_8b = λ a. if a == 5 then some 7 else none;
  fib_lookup = λ p. (4, p);
}

abbrev bytes : List ℕ → Mem
bytes [] i = 0
bytes (b ∷ bs) i = if i == 0 then b else bytes bs (i - 1)

abbrev pub no_frames : Datarec
no_frames = record { rx_packets = 0; rx_bytes = 0 }

-- A frame of 46 bytes that holds `m` behind the two addresses of its Ethernet header.
abbrev pub frame : List ℕ → Frame
frame m = record {
  len = 46;
  bytes = bytes (0 ∷ 0 ∷ 0 ∷ 0 ∷ 0 ∷ 0 ∷ 0 ∷ 0 ∷ 0 ∷ 0 ∷ 0 ∷ 0 ∷ m);
  info = record { ifindex = 0; max_allowed_delay = 0; delay_exp = 0 };
  stats = λ a. some no_frames;
}

-- From one 8-bit address to the 8-bit address `dst`, with no contract.
abbrev pub to_8b : ℕ → Frame
to_8b dst = frame (136 ∷ 182 ∷ 3 ∷ 8 ∷ 8 ∷ 2 ∷ 2 ∷ 0 ∷ 4 ∷ dst ∷ [])

-- With a ping contract that has 3 hops left.
abbrev pub ping : Frame
ping = frame (136 ∷ 182 ∷ 3 ∷ 8 ∷ 24 ∷ 2 ∷ 2 ∷ 0 ∷ 4 ∷ 5 ∷ 0 ∷ 3 ∷ 0 ∷ 0 ∷ 0 ∷ 3 ∷ [])

-- With a max-delay contract.
abbrev pub max_delay : Frame
max_delay = frame (136 ∷ 182 ∷ 3 ∷ 8 ∷ 14 ∷ 2 ∷ 2 ∷ 0 ∷ 4 ∷ 5 ∷ 0 ∷ 1 ∷ 0 ∷ 50 ∷ 0 ∷ 10 ∷ [])
