-- ===== src/Auth/Pat/Tests.antt =====
-- Personal access tokens and their audit trail on a store in memory.
use sentinel_vault.Common.{◌≡◌, ◌==◌, refl, none, some, List, [], ◌∷◌, All, if◌then◌else◌}
use sentinel_vault.Common.Text.{includes}
use sentinel_vault.Common.Dict
use sentinel_vault.Common.Equality.{string_eq}
use sentinel_vault.Common.Exec.{ok, err, unauthorized}
use sentinel_vault.Common.Number.{pos}
use sentinel_vault.Common.Repository.Memory.{memory}
use sentinel_vault.Auth.Audit.{
  AuditService, AuditEvent, LogEventParams, MetaValue, null, event_key, event_time, wanted_event,
  text, texts, array, object, field, end, number, new_event, log_event, get_user_audit_logs,
}
use sentinel_vault.Auth.Audit
use sentinel_vault.Auth.Audit.Trail.{OnPage, Page, Page-All}
use sentinel_vault.Auth.Pat.{
  PatService, CreatePatDto, CreatePatResponseDto, State, Op, validates, run, step, create_token,
  validate_token_and_scope, revoke_token, get_user_tokens, new_token, used, event,
}
use sentinel_vault.Auth.Pat.Life.{begin, lived, revoked_refused}
use sentinel_vault.Auth.Pat.Usable.{created_usable}

-- Opens what the tests compute with.
pat_open : Unit {0}
unfolding run step create_token validate_token_and_scope revoke_token get_user_tokens log_event
    Audit.run get_user_audit_logs includes Dict.get Dict.set Dict.values
pat_open = tt

abbrev audit : AuditService
audit = record { events = memory event_key; lower = λ s. if s == "tokenId" then "tokenid" else s }

abbrev service : PatService
service = record { audit = audit; sha256_hex = λ s. s }

abbrev dto : CreatePatDto
dto = record { name = "ci"; scopes = some ("vault:read" ∷ []); expiry_days = some (pos 1) }

abbrev empty_trail : audit.events.Table
empty_trail = ([], tt)

abbrev answer : CreatePatResponseDto
answer = record {
  id = "t1";
  name = "ci";
  raw_token = "pat_sv_live_abcdef";
  token_prefix = "pat_sv_live_abcd...";
  scopes = "vault:read" ∷ [];
  expires_at = some 86400007;
  created_at = 7;
}

created_test :
    (create_token service "t1" "e1" 7 "abcdef" "ann" dto (begin service empty_trail)).0 ≡ ok answer
unfolding pat_open
created_test = refl

-- The identifier of the token does not reach the trail: "tokenId" contains "token".
identifier_lost :
    (create_token service "t1" "e1" 7 "abcdef" "ann" dto (begin service empty_trail)).1.trail.0
    ≡ (record {
      id = "e1";
      user_id = "ann";
      event_type = "pat_created";
      timestamp = 7;
      ip_address = none;
      user_agent = none;
      metadata = some (
          ("name", text "ci")
          ∷ ("scopes", array (texts ("vault:read" ∷ [])))
          ∷ ("expiryDays", number (pos 1))
          ∷ []);
    })
      ∷ []
unfolding pat_open
identifier_lost = refl

abbrev life : State service
life = lived service [] [] "t1" "e1" 7 "abcdef" "ann" dto empty_trail

abbrev uses : List (Op service)
uses = validates "e2" 9 "pat_sv_live_abcdef" "vault:read" ∷ []

revoked_refused_example :
    validate_token_and_scope service "e4" 11 "pat_sv_live_abcdef" "vault:read" (
      run service uses
        (revoke_token service "e3" 10 "ann" "t1"
          (lived service [] uses "t1" "e1" 7 "abcdef" "ann" dto empty_trail)).1)
    ≡ (
      err unauthorized,
      run service uses
          (revoke_token service "e3" 10 "ann" "t1"
            (lived service [] uses "t1" "e1" 7 "abcdef" "ann" dto empty_trail)).1,
    )
unfolding pat_open
revoked_refused_example =
    revoked_refused service [] uses uses "t1" "e1" 7 "abcdef" "ann" dto empty_trail "e3" 10 "ann"
      "e4" 11 "vault:read" tt (refl, tt) (refl, tt) refl

created_usable_example :
    (validate_token_and_scope service "e4" 11 "pat_sv_live_abcdef" "vault:read"
      (lived service [] uses "t1" "e1" 7 "abcdef" "ann" dto empty_trail)).0
    ≡ ok (used service 11 (new_token service "t1" 7 "abcdef" "ann" dto ("vault:read" ∷ [])))
unfolding pat_open
created_usable_example =
    created_usable service [] uses "t1" "e1" 7 "abcdef" "ann" dto empty_trail answer "e4" 11
      "vault:read" tt (refl, tt) (refl, tt) refl

abbrev used_once : LogEventParams
used_once = event "ann" "pat_used" (("tokenId", text "t1") ∷ [])

-- A key inside a value is not looked at: an object with a password in it is stored as it came.
abbrev profile : MetaValue
profile = object (field "password" (text "pw") end)

nested_password :
    (new_event audit "e1" 1
      (event "ann" "login" (("profile", profile) ∷ ("password", null) ∷ []))).metadata
    ≡ some (("profile", profile) ∷ [])
unfolding pat_open
nested_password = refl

Page-All_example :
    Page audit
      (All
        (OnPage audit "ann" (some "all") (Audit.run audit (("e1", 1, used_once) ∷ []) empty_trail)))
      (get_user_audit_logs audit "ann"
        (some "all")
        50
        0
        (Audit.run audit (("e1", 1, used_once) ∷ []) empty_trail)).0
Page-All_example =
    Page-All audit (("e1", 1, used_once) ∷ []) "ann" (some "all") 50 0 empty_trail (λ id e h. cc)
