-- ===== src/Auth/Login/Tests.antt =====
-- Logins on tables in memory, with a hash function of one value.
use sentinel_vault.Common.{
  ℕ, ◌+◌, ◌*◌, ◌<◌, String, true, false, ◌==◌, ◌||◌, if◌then◌else◌, ◌≡◌, refl, none, some, List, [],
  ◌∷◌, arith, eq_iff,
}
use sentinel_vault.Common.Text.{is_empty}
use sentinel_vault.Common.Exec.{
  ok, err, unauthorized, bad_request, not_found, locked, internal_error,
}
use sentinel_vault.Common.Equality.{string_eq}
use sentinel_vault.Common.Repository.Memory.{memory}
use sentinel_vault.Common.Redis.{redis}
use sentinel_vault.Auth.Srp.{Buffer, Verification, failed, verify_session, calculate_u, expected_m1}
use sentinel_vault.Auth.Login.{
  AuthService, User, LoginChallenge, logged_in, user_key, session_key, credential_key, is_locked,
}
use sentinel_vault.Auth.Login.Sessions.{State, find_by_username, create_session, revoke_session}
use sentinel_vault.Auth.Login.Handlers.{register, login_step1, login_step2, verify_challenge}
use sentinel_vault.Auth.Login.Requests.{Op, begins, finishes, run, step}
use sentinel_vault.Auth.Login.Challenge.{challenge_used_once}
use sentinel_vault.Auth.Login.Lockout.{fifth_failure_locks}
use sentinel_vault.Auth.Login.Locked.{UniqueNames}
use sentinel_vault.Auth.Login.Token.{Opened, token_needs}

-- Opens what the tests compute with.
pub login_open : Unit {0}
unfolding create_session register login_step1 login_step2 revoke_session run step verify_session
    calculate_u expected_m1
login_open = tt

abbrev pub service : AuthService
service = record {
  users = memory user_key;
  sessions = memory session_key;
  challenges = redis LoginChallenge;
  denylist = redis String;
  credentials = memory credential_key;
  lower = λ s. s;
  sha256 = λ bytes. 1 ∷ [];
  modulus = 23;
  utf8 = λ s. [];
  from_hex = λ s. 1 ∷ [];
  hex_number = λ s. if s == "zz" then none else some 5;
  sign = λ user name session. session;
  token_digest = λ token. "digest";
  device_label = λ agent. "label";
  server_secret = [];
  hmac_sha1 = λ key message. [];
  upper = λ s. s;
  to_base64url = λ bytes. "key";
  from_base64url = λ s. [];
  Response = String;
  response_id = λ response. response;
  verify_registration = λ response challenge. some (some (response, [], 0));
  verify_authentication = λ response challenge id key counter. some (some (counter + 1));
}

abbrev pub ann : ℕ → User
ann attempts = record {
  id = "u1";
  username = "ann";
  salt = "00";
  verifier = "07";
  failed_attempts = attempts;
  lockout_until = none;
  totp_secret = none;
  totp_enabled = false;
  webauthn_enabled = false;
}

abbrev challenge : ℕ → LoginChallenge
challenge client_public = record {
  username = "ann";
  client_public = client_public;
  secret = 3;
  server_public = 4;
  salt = [];
  verifier = 7;
  created_at = 0;
}

abbrev pub state : ℕ → ℕ → State service
state attempts client_public = record {
  user_table = (ann attempts ∷ [], (refl, tt));
  session_table = ([], tt);
  challenge_store = ("c1", challenge client_public, 300000) ∷ [];
  deny_store = [];
  credential_table = ([], tt);
  mfa_sessions = [];
  webauthn_challenges = [];
  passkey_challenges = [];
  audit = [];
}

logs_in :
    (login_step2 service "m" "s1" 1000 "c1" "01" none (state 2 5)).0
    ≡ ok (logged_in (some (1 ∷ [])) "s1")
unfolding login_open
logs_in = refl

expired : (login_step2 service "m" "s1" 300000 "c1" "01" none (state 2 5)).0 ≡ err unauthorized
unfolding login_open
expired = refl

counted :
    service.users.at
      (login_step2 service "m" "s1" 1000 "c1" "01" none (state 2 0)).1.user_table
      "u1"
    ≡ some (ann 3)
unfolding login_open
counted = refl

-- A public number that is not hexadecimal fails, and no challenge is stored.
not_hexadecimal :
    login_step1 service "c9" [] 1000 "eve" "zz" (state 2 0) ≡ (err internal_error, state 2 0)
unfolding login_open
not_hexadecimal = refl

token_needs_example :
    (c : LoginChallenge) × (user : User) × (v : Verification) × (service.challenges.read 1000 "c1"
        (state 2 5).challenge_store
      ≡ some c)
    × (find_by_username service c.username (state 2 5) ≡ some user)
    × (is_locked 1000 (some user) ≡ false)
    × (verify_challenge service c "01" ≡ some v)
    × (v.success ≡ true)
    × Opened service "s1" 1000 user none "s1"
        (login_step2 service "m" "s1" 1000 "c1" "01" none (state 2 5)).1
token_needs_example =
    token_needs service "m" "s1" 1000 "c1" "01" none (state 2 5) (some (1 ∷ [])) "s1" logs_in

challenge_used_once_example :
    (login_step2 service "m2" "s2" 2000 "c1" "01" none (
      run service
        (begins "c2" [] 1500 "ann" "05" ∷ [])
        (login_step2 service "m" "s1" 1000 "c1" "01" none (state 2 5)).1)).0
    ≡ err unauthorized
challenge_used_once_example =
    challenge_used_once service "m" "s1" "m2" "s2" 1000 2000 "c1" "01" "01" none none
      (begins "c2" [] 1500 "ann" "05" ∷ []) (state 2 5) (refl, tt)

only_ann : UniqueNames service (state 4 0).user_table
only_ann k j r q er eq same = ground (arith, eq_iff "u1" k, eq_iff "u1" j)

wrong : verify_challenge service (challenge 0) "01" ≡ some failed
unfolding login_open
wrong = refl

abbrev tries : List (Op service)
tries = begins "c2" [] 1500 "eve" "05" ∷ finishes "m2" "s2" 2000 "c2" "01" none ∷ []

fifth_failure_locks_example :
    let done = login_step2 service "m" "s1" 1000 "c1" "01" none (state 4 0) in
    (done.0 ≡ err unauthorized)
    × ((id' : String) (random : Buffer) (now' : ℕ) (name a_hex : String)
        → now' < 1000 + 15 * 60 * 1000
        → name ≡ "ann"
        → login_step1 service id' random now' name a_hex (run service tries done.1) ≡ (
          if is_empty name || is_empty a_hex then err bad_request else err locked,
          run service tries done.1,
        ))
fifth_failure_locks_example =
    fifth_failure_locks service "m" "s1" 1000 "c1" "01" none (state 4 0) (challenge 0) (ann 4)
      failed tries only_ann refl refl refl wrong refl (omega arith) (tt, (omega arith, tt))

abbrev signed_in : State service
signed_in = (login_step2 service "m" "s1" 1000 "c1" "01" none (state 2 5)).1

signs_out : (revoke_session service 2000 "u1" (some "s0") "s1" signed_in).0 ≡ ok tt
unfolding login_open
signs_out = refl

signs_itself_out : (revoke_session service 2000 "u1" (some "s1") "s1" signed_in).0 ≡ err bad_request
unfolding login_open
signs_itself_out = refl

of_another : (revoke_session service 2000 "u2" (some "s0") "s1" signed_in).0 ≡ err not_found
unfolding login_open
of_another = refl
