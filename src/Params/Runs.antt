-- ===== src/Params/Runs.antt =====
-- What holds of the settings when a run of the options returns them.
use new_ip_linux.Common.{Bool}
use new_ip_linux.Params.{Config, Parsed, parsed, usage_exit, and_parse}

-- The settings that are returned, if any, meet P.
abbrev pub Gives : (Config → Type 0) → Parsed → Type 0
Gives P (parsed c v) = P c
Gives P (usage_exit full) = Unit

pub Gives-mono :
    (P Q : Config → Type 0) (r : Parsed) → ((c : Config) → P c → Q c) → Gives P r → Gives Q r
Gives-mono P Q (parsed c v) f h = f c h
Gives-mono P Q (usage_exit full) f h = tt

pub and_parse-Gives :
    (P Q : Config → Type 0) (r : Parsed) (k : Config → Bool → Parsed)
    → Gives P r
    → ((c : Config) (v : Bool) → P c → Gives Q (k c v))
    → Gives Q (and_parse r k)
and_parse-Gives P Q (parsed c v) k h f = f c v h
and_parse-Gives P Q (usage_exit full) k h f = tt
