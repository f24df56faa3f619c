-- ===== src/Xattr/Tests.antt =====
-- Loading with two pinned maps: the file of the first is there, the second is to be pinned.
use new_ip_linux.Common.{ℕ, ◌≡◌, refl, Option, none, some, List, [], ◌∷◌, same_str, if◌then◌else◌}
use mathlib.Core.List.{Memᴰ}
use new_ip_linux.Common.Int.{ℤ, pos, negsuc, minus_one}
use new_ip_linux.Host.{Objects}
use new_ip_linux.Loading.Tests.{one_object}
use new_ip_linux.Xattr.{
  PinnedMap, Attr, faults, failed, done, bpf_prog_load_xattr_maps, prepare, reuse_all, reuse_pins,
  pin_all, pin_each,
}
use new_ip_linux.Xattr.Backed.{Request, reuse, pin, RequestLaws}
use new_ip_linux.Xattr.Ends.{XattrEnds, bpf_prog_load_xattr_maps-XattrEnds}

abbrev entry : ℕ → ℤ → PinnedMap
entry n fd = record { name = n ∷ []; filename = 47 ∷ n ∷ []; map_fd = fd }

abbrev first_pinned : Objects (Option ℕ)
first_pinned = record one_object {
  map_name = λ m w. m ∷ [];
  obj_get = λ path w. (if same_str path (47 ∷ 5 ∷ []) then pos 9 else negsuc 1, w);
}

abbrev two_maps : Attr
two_maps = record {
  file = some (120 ∷ []);
  prog_type = 6;
  expected_attach_type = 0;
  ifindex = pos 0;
  pinned_maps = entry 5 (pos 0) ∷ entry 6 (pos 0) ∷ entry 7 (pos 0) ∷ [];
}

-- The third map is in no file, and is left at -1.
loads :
    bpf_prog_load_xattr_maps first_pinned (some two_maps) none
    ≡ done 1 (pos 8) (entry 5 (pos 9) ∷ entry 6 (pos 6) ∷ entry 7 minus_one ∷ []) none
unfolding bpf_prog_load_xattr_maps prepare reuse_all reuse_pins pin_all pin_each
loads = refl

null : bpf_prog_load_xattr_maps first_pinned none none ≡ faults
unfolding bpf_prog_load_xattr_maps
null = refl

no_file :
    bpf_prog_load_xattr_maps first_pinned (some (record two_maps { file = none })) none
    ≡ failed (negsuc 21) none
unfolding bpf_prog_load_xattr_maps
no_file = refl

-- A system that is the record of its calls.
abbrev recording : Objects (List Request)
recording = record one_object {
  map_name = λ m w. m ∷ [];
  obj_get = λ path w. (if same_str path (47 ∷ 5 ∷ []) then pos 9 else negsuc 1, w);
  reuse_fd = λ m fd w. (pos 0, reuse m fd ∷ w);
  map_pin = λ m path w. (pos 0, pin m path ∷ w);
}

abbrev WasMade : Request → List Request → Type 0
WasMade r w = Memᴰ r w

recording-RequestLaws : RequestLaws recording WasMade
recording-RequestLaws = record {
  reuse_made = λ m fd w. Memᴰ.head refl;
  pin_made = λ m path w. Memᴰ.head refl;
  reuse_kept = λ r m fd w h. Memᴰ.tail h;
  pin_kept = λ r m path w h. Memᴰ.tail h;
  get_kept = λ r path w h. h;
  ifindex_kept = λ r m i w h. h;
  load_kept = λ r obj w h. h;
}

-- The first map is given its file's descriptor, and the second is pinned.
records :
    bpf_prog_load_xattr_maps recording (some two_maps) []
    ≡ done 1
        (pos 8)
        (entry 5 (pos 9) ∷ entry 6 (pos 6) ∷ entry 7 minus_one ∷ [])
        (pin 6 (47 ∷ 6 ∷ []) ∷ reuse 5 (pos 9) ∷ [])
unfolding bpf_prog_load_xattr_maps prepare reuse_all reuse_pins pin_all pin_each
records = refl

bpf_prog_load_xattr_maps-XattrEnds_example :
    XattrEnds recording WasMade two_maps [] (bpf_prog_load_xattr_maps recording (some two_maps) [])
bpf_prog_load_xattr_maps-XattrEnds_example =
    bpf_prog_load_xattr_maps-XattrEnds recording WasMade recording-RequestLaws two_maps []
