-- ===== src/Auth/Login/Requests.antt =====
-- A history of requests to `AuthService`.
use sentinel_vault.Common.{ℕ, String, Option, List, [], ◌∷◌}
use sentinel_vault.Auth.Srp.{Buffer}
use sentinel_vault.Auth.Login.{AuthService}
use sentinel_vault.Auth.Login.Sessions.{State, revoke_session}
use sentinel_vault.Auth.Login.Handlers.{register, login_step1, login_step2}
use sentinel_vault.Auth.Login.SecondFactor.{
  generate_totp, enable_totp, verify_totp, generate_webauthn_register_options,
  verify_webauthn_register, generate_webauthn_login_options, verify_webauthn_login,
}
use sentinel_vault.Auth.Login.Passkey.{generate_passkey_login_options, verify_passkey_login}

module _ (service : AuthService) where
  open service use {Response}

  -- The requests that change the state; registering a passkey is registering a credential.
  pub data Op : Type 0 where
    registers : String → String → ℕ → String → String → String → Option String → Op
    begins : String → Buffer → ℕ → String → String → Op
    finishes : String → String → ℕ → String → String → Option String → Op
    revokes : ℕ → String → Option String → String → Op
    generates_totp : Buffer → String → Op
    enables_totp : ℕ → String → String → Op
    verifies_totp : String → ℕ → String → String → Option String → Op
    offers_register : String → ℕ → String → Op
    verifies_register : ℕ → String → Response → Op
    offers_login : String → ℕ → String → Op
    verifies_login : String → ℕ → String → Response → Option String → Op
    offers_passkey : String → ℕ → Option String → Op
    verifies_passkey : String → ℕ → String → Response → Option String → Op

  unfoldable pub step : Op → State service → State service
  step (registers uuid session_id now name salt verifier agent) s =
      (register service uuid session_id now name salt verifier agent s).1
  step (begins id random now name a_hex) s = (login_step1 service id random now name a_hex s).1
  step (finishes mfa_token session_id now id m1_hex agent) s =
      (login_step2 service mfa_token session_id now id m1_hex agent s).1
  step (revokes now user jti id) s = (revoke_session service now user jti id s).1
  step (generates_totp random name) s = (generate_totp service random name s).1
  step (enables_totp now name code) s = (enable_totp service now name code s).1
  step (verifies_totp session_id now mfa_token code agent) s =
      (verify_totp service session_id now mfa_token code agent s).1
  step (offers_register challenge now name) s =
      (generate_webauthn_register_options service challenge now name s).1
  step (verifies_register now name response) s =
      (verify_webauthn_register service now name response s).1
  step (offers_login challenge now mfa_token) s =
      (generate_webauthn_login_options service challenge now mfa_token s).1
  step (verifies_login session_id now mfa_token response agent) s =
      (verify_webauthn_login service session_id now mfa_token response agent s).1
  step (offers_passkey challenge now name) s =
      (generate_passkey_login_options service challenge now name s).1
  step (verifies_passkey session_id now challenge response agent) s =
      (verify_passkey_login service session_id now challenge response agent s).1

  unfoldable pub run : List Op → State service → State service
  run [] s = s
  run (op ∷ ops) s = run ops (step op s)
