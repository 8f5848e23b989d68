-- ===== src/Analysis/Breaches/Tests.antt =====
-- The breach monitor on tables in memory.
use sentinel_vault.Common.{true, ◌≡◌, refl, none, some, List, [], ◌∷◌}
use sentinel_vault.Common.Equality.{string_eq, pair_eq}
use sentinel_vault.Common.Exec.{ok}
use sentinel_vault.Common.Repository.Memory.{memory}
use sentinel_vault.Analysis.Breaches.{
  BreachService, BreachEntry, RawBreach, network_error, responds, Tables, opt_in_key, row_key,
  split, opt_in, opt_out, get_email, get_breaches, insert_new, update_breaches, run_check_and_diff,
  Op, opts_in, opts_out, checks, run, step,
}
use sentinel_vault.Analysis.Breaches.Once.{reported_once}

-- Opens what the tests compute with.
breaches_open : Unit {0}
unfolding split opt_in opt_out insert_new update_breaches run_check_and_diff run step
breaches_open = tt

abbrev service : BreachService
service = record {
  opt_ins = memory opt_in_key;
  entries = memory row_key;
  seal = λ iv email. ("tag", email);
  unseal = λ iv tag email. some email;
  has_api_key = true;
}

abbrev none_yet : Tables service
none_yet = record { opt_in_table = ([], tt); entry_table = ([], tt) }

abbrev watched : Tables service
watched = run service (opts_in 1 "iv" "h" "ann" ∷ []) none_yet

abbrev adobe : RawBreach
adobe = record { raw_name = some "Adobe"; raw_date = none; raw_classes = some ("Emails" ∷ []) }

abbrev adobe_entry : BreachEntry
adobe_entry = record { name = "Adobe"; breach_date = "Unknown"; data_classes = "Emails" ∷ [] }

round_trip : (get_email service "h" watched ≡ some "ann") × (get_email service "i" watched ≡ none)
unfolding breaches_open
round_trip = (refl, refl)

checked_twice :
    ((run_check_and_diff service 2 "h" (responds 200 (adobe ∷ [])) watched).0
      ≡ ok (adobe_entry ∷ []))
    × ((run_check_and_diff service 3 "h"
          (responds 200 (adobe ∷ []))
          (run_check_and_diff service 2 "h" (responds 200 (adobe ∷ [])) watched).1).0
        ≡ ok [])
    × ((run_check_and_diff service 2 "h" (responds 429 (adobe ∷ [])) watched).0 ≡ ok [])
    × (get_breaches service "h"
          (opt_out service "h"
            (run_check_and_diff service 2 "h" (responds 200 (adobe ∷ [])) watched).1).1
        ≡ [])
unfolding breaches_open
checked_twice = (refl, refl, refl, refl)

abbrev no_classes : BreachEntry
no_classes = record { name = "X"; breach_date = "d"; data_classes = [] }

-- A breach without data classes is reported with one empty class.
empty_class :
    (update_breaches service 2 "h" (no_classes ∷ []) watched).0
    ≡ ok (record { name = "X"; breach_date = "d"; data_classes = "" ∷ [] } ∷ [])
unfolding breaches_open
empty_class = refl

abbrev later : List (Op service)
later = opts_out "other" ∷ opts_in 3 "iv" "h" "ann" ∷ checks 4 "h" network_error ∷ []

reported_once_example :
    update_breaches service 9 "h"
      (adobe_entry ∷ [])
      (run service later (update_breaches service 2 "h" (adobe_entry ∷ []) watched).1)
    ≡ (ok [], run service later (update_breaches service 2 "h" (adobe_entry ∷ []) watched).1)
unfolding breaches_open
reported_once_example =
    reported_once service 2 9 "h" (adobe_entry ∷ []) (adobe_entry ∷ []) later watched refl
      (refl, (refl, (refl, tt)))
