-- ===== src/Lbf/Tests/Settings.antt =====
-- Runs of the control plane with a netlink interface that writes lists.
use new_ip_linux.Common.{
  ℕ, ◌≡◌, ◌≢◌, arith, ◌==◌, if◌then◌else◌, refl, sym, ap, Option, none, some, List, [], ◌∷◌, length,
}
use new_ip_linux.Common.Int.{ℤ, pos, negsuc}
use new_ip_linux.Lbf.Store.{ok}
use new_ip_linux.Lbf.Control.{Netlink, change, dump, fill_dump, finish_dump}
use new_ip_linux.Lbf.Control.Limit.{Lawful, change-dump}
use new_ip_linux.Lbf.Tests.Data.{store, no_contract}

-- A message is its attributes with their values, in turn.
abbrev parse : (maxtype : ℕ) → List ℕ → ℤ × (ℕ → Option ℕ)
parse maxtype [] = (negsuc 21, λ u. none)
parse maxtype (t ∷ []) = (negsuc 21, λ u. none)
parse maxtype (t ∷ n ∷ ns) = (pos 0, λ u. if u == t then some n else none)

abbrev lists : Netlink (List ℕ) (List ℕ)
lists = record {
  nest_start = λ m. some (2 ∷ m);
  put_u32 = λ t n m. some (t ∷ n ∷ m);
  nest_end = λ m. (pos (length m), m);
  nest_cancel = λ m. m;
  parse_nested = parse;
}

parse-put :
    (attrtype maxtype value : ℕ) (m1 m2 : List ℕ)
    → some (attrtype ∷ value ∷ m1) ≡ some m2
    → (tb : ℕ → Option ℕ) × (parse maxtype m2 ≡ (pos 0, tb))
      × (tb attrtype ≡ some value)
      × ((u : ℕ) → u ≢ attrtype → tb u ≡ none)
parse-put t max n m1 m2 filled = (
  λ u. if u == t then some n else none,
  ap (λ o. elim o [ none ↦ parse max [] | some m ↦ parse max m ]) (sym filled),
  ground arith,
  λ u d. ground (arith, d),
)

lists-Lawful : Lawful lists (λ m. m)
lists-Lawful = record {
  parses = λ t max n m m1 m2 positive small wide started filled. parse-put t max n m1 m2 filled;
}

change-dump_example :
    change lists (some ((dump lists 7 []).1)) (store no_contract)
    ≡ ok (pos 0) (record (store no_contract) { limit = 7 })
change-dump_example =
    change-dump lists (λ m. m) lists-Lawful 7 [] (store no_contract) (omega arith)
      (unfold dump fill_dump finish_dump in refl)
