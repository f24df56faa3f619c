-- ===== src/Params/Entries.antt =====
-- The array of options that `getopt_long` is given.
use new_ip_linux.Common.{◌≡◌, refl, true, none, some, List, [], ◌∷◌, ◌++◌, map, All}
use new_ip_linux.Params.Table.{OptionWrapper, copied, named, option_wrappers_to_options, HasName}

-- A table of entries with names, up to one without.
pub record IsTable (ws : List OptionWrapper) (end : OptionWrapper) : Type 0 where
  pub have_names : All (λ w. HasName w.entry) ws
  pub has_none : (end.entry).name ≡ none

named-append :
    (ws : List OptionWrapper) (end : OptionWrapper) (rest : List OptionWrapper)
    → All (λ w. HasName w.entry) ws
    → (end.entry).name ≡ none
    → named (ws ++ end ∷ rest) ≡ some (map (λ w. w.entry) ws)
unfolding named
named-append [] end rest h e = simp e refl
named-append (w ∷ ws) end rest h e = simp (h.0.1, named-append ws end rest (h.1) e)

map-HasName :
    (ws : List OptionWrapper) → All (λ w. HasName w.entry) ws → All HasName (map (λ w. w.entry) ws)
map-HasName [] h = tt
map-HasName (w ∷ ws) h = (h.0, map-HasName ws (h.1))

-- From a table that ends, exactly the entries with names before its end are copied, in their order:
-- the array that `getopt_long` is given has no entry without a name, and so no end.
pub option_wrappers_to_options-HasName :
    (ws : List OptionWrapper) (end : OptionWrapper) (rest : List OptionWrapper)
    → IsTable ws end
    → (option_wrappers_to_options true (ws ++ end ∷ rest) ≡ copied (map (λ w. w.entry) ws))
      × All HasName (map (λ w. w.entry) ws)
unfolding option_wrappers_to_options
option_wrappers_to_options-HasName ws end rest t =
    (rw (named-append ws end rest t.have_names t.has_none) refl, map-HasName ws t.have_names)
