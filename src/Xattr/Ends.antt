-- ===== src/Xattr/Ends.antt =====
-- How loading with pinned maps ends.
use new_ip_linux.Common.{
  ℕ, ◌≡◌, refl, ◌⊎◌, inl, inr, false, true, Option, none, some, List, Str, if_cases, All,
}
use new_ip_linux.Common.Int.{ℤ}
use new_ip_linux.Host.{Objects, error, einval, enoent}
use new_ip_linux.Attach.{is_zero}
use new_ip_linux.Loading.{first_of}
use new_ip_linux.Xattr.{
  PinnedMap, Attr, Outcome, faults, failed, done, reset, prepare, reuse_all, pin_all, finish,
  after_load, with_first, after_open, with_file, bpf_prog_load_xattr_maps,
}
use new_ip_linux.Xattr.Pins.{Sought, Pairs, Pairs-trans, reuse_all-Sought}
use new_ip_linux.Xattr.Settled.{Settled, Provided, Sought-Settled, reset-Provided, pin_all-Settled}
use new_ip_linux.Xattr.Backed.{
  Request, RequestLaws, Backed, AllBacked-later, reuse_all-Many, pin_all-Many, reset-AllBacked,
}

module _ {W : Type 0} (objects : Objects W) (made : Request → W → Type 0) where
  -- The maps at the loop that opens files, and at the one that pins.
  abbrev pub maps_to_open : Attr → (obj : ℕ) → W → List ℕ
  maps_to_open a obj w = objects.maps obj (prepare objects a (objects.programs obj w) w)

  abbrev pub maps_to_pin : (obj : ℕ) → W → List ℕ
  maps_to_pin obj w = objects.maps obj ((objects.obj_load obj w).1)

  -- The object is loaded, the descriptor is that of its first program, and each entry of the array
  -- is that of the same place, with a descriptor that has been come by.
  pub record IsLoaded (a : Attr) (obj : ℕ) (fd : ℤ) (ps : List PinnedMap) (w w' : W) : Type 0 where
    pub before_load : W
    pub loaded : is_zero ((objects.obj_load obj before_load).0) ≡ true
    pub prog : ℕ
    pub is_first : first_of objects (objects.programs obj w) ≡ some prog
    pub descriptor : fd ≡ objects.program_fd prog w'
    pub provided :
        Pairs
          (Provided objects (maps_to_open a obj w) (maps_to_pin obj before_load))
          a.pinned_maps
          ps
    pub backed : All (Backed objects made w') ps

  -- After the object is opened, an error closes it as the last call: -ENOENT if it has no program,
  -- -EINVAL if it cannot be loaded.
  pub record IsClosed (obj : ℕ) (err : ℤ) (w w' : W) : Type 0 where
    pub before_close : W
    pub closed : w' ≡ objects.obj_close obj before_close
    pub cause :
        ((first_of objects (objects.programs obj w) ≡ none) × (err ≡ error enoent))
        ⊎ ((w₀ : W) × ((objects.obj_load obj w₀).1 ≡ before_close)
            × (is_zero ((objects.obj_load obj w₀).0) ≡ false)
            × (err ≡ error einval))

  -- The end of a run on an object that was opened.
  abbrev Ended : Attr → (obj : ℕ) → W → Outcome W → Type 0
  Ended a obj w faults = ⊥
  Ended a obj w (failed err w') = IsClosed obj err w w'
  Ended a obj w (done obj' fd ps w') = (obj' ≡ obj) × IsLoaded a obj fd ps w w'

  -- No file, an object that cannot be opened, or one that was opened.
  pub data XattrEnds (a : Attr) (w : W) : Outcome W → Type 0 where
    no_file : a.file ≡ none → XattrEnds a w (failed (error einval) w)
    not_opened :
        {file : Str} {w' : W}
        → a.file ≡ some file
        → objects.obj_open file w ≡ (none, w')
        → XattrEnds a w (failed (error enoent) w')
    opened :
        {file : Str} {obj : ℕ} {w₁ : W} {r : Outcome W}
        → a.file ≡ some file
        → objects.obj_open file w ≡ (some obj, w₁)
        → Ended a obj w₁ r
        → XattrEnds a w r

module _ {W : Type 0} (objects : Objects W) (made : Request → W → Type 0)
    (laws : RequestLaws objects made) where
  after_load-Ended :
      (a : Attr) (obj p : ℕ) (w w₁ : W) (ps : List PinnedMap)
      → first_of objects (objects.programs obj w) ≡ some p
      → Pairs (Sought objects (maps_to_open objects made a obj w)) (reset a.pinned_maps) ps
      → All (Backed objects made w₁) ps
      → Ended objects made a obj w (after_load objects obj p ps (objects.obj_load obj w₁))
  after_load-Ended a obj p w w₁ ps first sought backed =
      let w₂ : W = (objects.obj_load obj w₁).1 in
      let ns = maps_to_open objects made a obj w in
      let ms = objects.maps obj w₂ in
      let r = pin_all objects ms ps w₂ in
      let later =
        AllBacked-later objects made laws w₁ w₂ ps (λ q. laws.load_kept q obj w₁) backed in
      if_cases (Ended objects made a obj w) (is_zero ((objects.obj_load obj w₁).0))
        (finish objects obj p r) _
        (λ y. (
          refl,
          record {
            before_load = w₁;
            loaded = y;
            prog = p;
            is_first = first;
            descriptor = refl;
            provided = reset-Provided objects ns ms a.pinned_maps (r.0) (
                Pairs-trans (Sought objects ns) (Settled objects ms) (Provided objects ns ms)
                  (reset a.pinned_maps) ps (r.0) (Sought-Settled objects ns ms) sought
                  (pin_all-Settled objects ms ps w₂));
            backed = (pin_all-Many objects made laws ms ps w₂ later).0;
          },
        ))
        (λ n. record { before_close = w₂; closed = refl; cause = inr (w₁, refl, n, refl) })

  with_first-Ended :
      (a : Attr) (obj : ℕ) (first : Option ℕ) (w : W) (r : List PinnedMap × W)
      → first_of objects (objects.programs obj w) ≡ first
      → Pairs (Sought objects (maps_to_open objects made a obj w)) (reset a.pinned_maps) (r.0)
      → All (Backed objects made (r.1)) (r.0)
      → Ended objects made a obj w (with_first objects obj first r)
  with_first-Ended a obj none w (ps, w₁) e sought backed = record {
    before_close = w₁;
    closed = refl;
    cause = inl (e, refl);
  }
  with_first-Ended a obj (some p) w (ps, w₁) e sought backed =
      after_load-Ended a obj p w w₁ ps e sought backed

  after_open-XattrEnds :
      (a : Attr) (file : Str) (w : W) (r : Option ℕ × W)
      → a.file ≡ some file
      → objects.obj_open file w ≡ r
      → XattrEnds objects made a w (after_open objects a r)
  after_open-XattrEnds a file w (none, w₁) f o = not_opened f o
  after_open-XattrEnds a file w (some obj, w₁) f o =
      let w₂ : W = prepare objects a (objects.programs obj w₁) w₁ in
      let ms = objects.maps obj w₂ in
      let ps = reset a.pinned_maps in
      let r = reuse_all objects a ms ps w₂ in
      opened f o (
        with_first-Ended a obj (first_of objects (objects.programs obj w₁)) w₁ r refl
          (reuse_all-Sought objects a ms ps w₂)
          ((reuse_all-Many objects made laws a ms ps w₂
            (reset-AllBacked objects made laws a.pinned_maps w₂)).0))

  with_file-XattrEnds :
      (a : Attr) (o : Option Str) (w : W)
      → a.file ≡ o
      → XattrEnds objects made a w (with_file objects a o w)
  with_file-XattrEnds a none w f = no_file f
  with_file-XattrEnds a (some file) w f =
      after_open-XattrEnds a file w (objects.obj_open file w) f refl

  -- Let `made` be a record of the calls that give a map a descriptor or pin it. For attributes that
  -- are not NULL, loading ends in one of these ways. Without a file it is -EINVAL, with no call made;
  -- where the object cannot be opened it is -ENOENT. An object that was opened and has no program is
  -- closed at the end, with -ENOENT; one that cannot be loaded is closed, with -EINVAL. Otherwise the
  -- object was loaded and is returned with the descriptor of its first program. The array has the
  -- names and files that were given, in their order. Each entry has the descriptor -1; or one above
  -- 0 that was opened from its file and given to a map of its name; or that of a map of its name,
  -- which was pinned at its file. It has a descriptor above 0 unless each map of the object has
  -- another name or the file could not be opened; and it has one other than -1 unless each map has
  -- another name, could not be pinned or has no descriptor.
  pub bpf_prog_load_xattr_maps-XattrEnds :
      (a : Attr) (w : W) → XattrEnds objects made a w (bpf_prog_load_xattr_maps objects (some a) w)
  unfolding bpf_prog_load_xattr_maps
  bpf_prog_load_xattr_maps-XattrEnds a w = with_file-XattrEnds a a.file w refl
