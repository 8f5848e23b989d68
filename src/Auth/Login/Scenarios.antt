-- ===== src/Auth/Login/Scenarios.antt =====
-- Second factors and passkeys on tables in memory; the library accepts every answer of a device.
use sentinel_vault.Common.{true, ◌≡◌, ◌≢◌, refl, none, some, [], ◌∷◌}
use sentinel_vault.Common.Dict
use sentinel_vault.Common.Exec.{ok, err, unauthorized, bad_request}
use sentinel_vault.Common.Outcome.{Outcome}
use sentinel_vault.Auth.Totp.{
  symbols, strip_padding, decode_symbols, decode_base32, generate_secret,
}
use sentinel_vault.Auth.Totp.Codes.{counter_loop, code_at, verify_loop, verify_code}
use sentinel_vault.Auth.Login.{Credential}
use sentinel_vault.Auth.Login.Sessions.{State, create_session, revoke_session}
use sentinel_vault.Auth.Login.SecondFactor.{
  generate_totp, enable_totp, verify_totp, generate_webauthn_register_options,
  verify_webauthn_register, generate_webauthn_login_options, verify_webauthn_login,
}
use sentinel_vault.Auth.Login.Passkey.{generate_passkey_login_options, verify_passkey_login}
use sentinel_vault.Auth.Login.Requests.{enables_totp, offers_passkey, run}
use sentinel_vault.Auth.Login.Factors.{TotpLogin, verify_totp-Outcome}
use sentinel_vault.Auth.Login.Devices.{DeviceLogin, Refused, verify_webauthn_login-Outcome}
use sentinel_vault.Auth.Login.PasskeyLogin.{PasskeyLogin, Attempted, verify_passkey_login-Outcome}
use sentinel_vault.Auth.Login.Replay.{
  by_code, by_device, second_factor, second_factor_once, passkey_once,
}
use sentinel_vault.Auth.Login.Tests.{service, ann, state}

-- Opens what the tests compute with.
factors_open : Unit {0}
unfolding create_session revoke_session generate_totp enable_totp verify_totp
    generate_webauthn_register_options verify_webauthn_register generate_webauthn_login_options
    verify_webauthn_login generate_passkey_login_options verify_passkey_login run verify_code
    verify_loop code_at counter_loop decode_base32 decode_symbols strip_padding symbols Dict.get
    Dict.set Dict.delete generate_secret
factors_open = tt

abbrev device : Credential
device = record { credential_id = "d1"; public_key = "key"; counter = 7; user_id = "u1" }

-- Both second factors are enabled, and the password was accepted at 1000.
abbrev asked : State service
asked = record (state 0 5) {
  user_table = (
    record (ann 0) { totp_secret = some "MZXW6==="; totp_enabled = true; webauthn_enabled = true }
        ∷ [],
    (refl, tt),
  );
  credential_table = (device ∷ [], (refl, tt));
  mfa_sessions = ("m", record { username = "ann"; created_at = 1000 }) ∷ [];
  webauthn_challenges = ("ann", record { challenge = "w"; created_at = 1000 }) ∷ [];
  passkey_challenges = ("p", record { username = none; created_at = 1000 }) ∷ [];
}

accepts_code : (verify_totp service "s2" 2000 "m" "000000" none asked).0 ≡ ok "s2"
unfolding factors_open
accepts_code = refl

refuses_code : verify_totp service "s2" 2000 "m" "000001" none asked ≡ (err unauthorized, asked)
unfolding factors_open
refuses_code = refl

session_ends : verify_totp service "s2" 301001 "m" "000000" none asked ≡ (err unauthorized, asked)
unfolding factors_open
session_ends = refl

counts :
    service.credentials.at
      (verify_webauthn_login service "s2" 2000 "m" "d1" none asked).1.credential_table
      "d1"
    ≡ some (record device { counter = 8 })
unfolding factors_open
counts = refl

unknown_device : (verify_webauthn_login service "s2" 2000 "m" "d2" none asked).0 ≡ err unauthorized
unfolding factors_open
unknown_device = refl

by_passkey : (verify_passkey_login service "s2" 2000 "p" "d1" none asked).0 ≢ err bad_request
unfolding factors_open
by_passkey h = cc

verify_totp-Outcome_example :
    Outcome
      (TotpLogin service "s2" 2000 "m" "000000" none asked)
      (λ e s'. s' ≡ asked)
      (verify_totp service "s2" 2000 "m" "000000" none)
      asked
verify_totp-Outcome_example = verify_totp-Outcome service "s2" 2000 "m" "000000" none asked

verify_webauthn_login-Outcome_example :
    Outcome
      (DeviceLogin service "s2" 2000 "m" "d1" none asked)
      (Refused service asked)
      (verify_webauthn_login service "s2" 2000 "m" "d1" none)
      asked
verify_webauthn_login-Outcome_example =
    verify_webauthn_login-Outcome service "s2" 2000 "m" "d1" none asked

verify_passkey_login-Outcome_example :
    Outcome
      (PasskeyLogin service "s2" 2000 "p" "d1" none asked)
      (Attempted service "p" asked)
      (verify_passkey_login service "s2" 2000 "p" "d1" none)
      asked
verify_passkey_login-Outcome_example =
    verify_passkey_login-Outcome service "s2" 2000 "p" "d1" none asked

second_factor_once_example :
    (second_factor service "s3" 3000 "m" (by_device "d1") none (
      run service
        (enables_totp 2500 "ann" "000000" ∷ [])
        (second_factor service "s2" 2000 "m" (by_code "000000") none asked).1)).0
    ≡ err unauthorized
second_factor_once_example =
    second_factor_once service "s2" "s3" 2000 3000 "m" (by_code "000000") (by_device "d1") none none
      (enables_totp 2500 "ann" "000000" ∷ []) asked "s2" accepts_code (refl, tt)

passkey_once_example :
    (verify_passkey_login service "s3" 3000 "p" "d1" none (
      run service
        (offers_passkey "q" 2500 none ∷ [])
        (verify_passkey_login service "s2" 2000 "p" "d1" none asked).1)).0
    ≡ err bad_request
passkey_once_example =
    passkey_once service "s2" "s3" 2000 3000 "p" "d1" "d1" none none
      (offers_passkey "q" 2500 none ∷ []) asked by_passkey (refl, tt)
