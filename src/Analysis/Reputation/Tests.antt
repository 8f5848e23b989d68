-- ===== src/Analysis/Reputation/Tests.antt =====
-- Lookups from an empty cache.
use sentinel_vault.Common.{String, true, false, ◌≡◌, refl, none, some, List, [], ◌∷◌}
use sentinel_vault.Common.Dict
use sentinel_vault.Common.Dict.{Dict}
use sentinel_vault.Common.Text.{trim, includes}
use sentinel_vault.Analysis.Reputation.{Op, looks_up, lookup, run, step}

-- Opens what the tests compute with.
reputation_open : Unit {0}
unfolding lookup run step trim includes Dict.get Dict.set
reputation_open = tt

abbrev same_case : String → String
same_case s = s

abbrev ops : List (Op same_case true)
ops = looks_up 1 " phishing-site.xyz" (some false) ∷ looks_up 2 "a.b" none ∷ []

verdicts :
    ((lookup same_case true 3 "x-security-alert.com" none []).0 ≡ "malicious")
    × ((lookup same_case true 60001 "a.b" (some false) (run same_case true ops [])).0 ≡ "unknown")
    × ((lookup same_case true 60002 "a.b" (some false) (run same_case true ops [])).0 ≡ "safe")
    × ((lookup same_case false 3 "a.b" none []).0 ≡ "safe")
unfolding reputation_open
verdicts = (refl, refl, refl, refl)
