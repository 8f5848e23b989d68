-- ===== src/Auth/Login/Passkey.antt =====
-- The handlers of `AuthService` that register a passkey and log in by one.
use sentinel_vault.Common.{ℕ, String, Bool, Option, none, some, List, map, any, not, true}
use sentinel_vault.Common.Dict
use sentinel_vault.Common.Text.{is_empty}
use sentinel_vault.Common.Exec.{
  Exec, pure, gets, modify, or_raise, raise_if, ◌>>=◌, ◌>>◌, bad_request, unauthorized,
}
use sentinel_vault.Auth.Login.{AuthService, User, Credential, PasskeyChallenge}
use sentinel_vault.Auth.Login.Sessions.{State, find_by_username, create_session}
use sentinel_vault.Auth.Login.SecondFactor.{
  is_stale, non_empty, credentials_of, find_user, generate_webauthn_register_options,
  verify_webauthn_register, authenticate,
}
use sentinel_vault.Auth.Login.Handlers.{prune_old_challenges}

module _ (service : AuthService) where
  open service use {users, credentials, lower, Response, response_id}

  abbrev pub generate_passkey_register_options : String → ℕ → String → Exec (State service) String
  generate_passkey_register_options challenge now name =
      generate_webauthn_register_options service challenge now name

  abbrev pub verify_passkey_register : ℕ → String → Response → Exec (State service) (Unit {0})
  verify_passkey_register now name response = verify_webauthn_register service now name response

  -- `webauthnCredentials.length === 0`
  abbrev is_empty_list : List Credential → Bool
  is_empty_list owned = not (any (λ c. true) owned)

  abbrev pub allowed_credentials : Option String → Exec (State service) (Option (List String))
  allowed_credentials none = pure none
  allowed_credentials (some name) = do
    user ← or_raise (← find_user service name) bad_request
    owned ← gets (credentials_of service user)
    raise_if (is_empty_list owned) bad_request
    pure (some (map (λ (c : Credential). c.credential_id) owned))

  abbrev pub lower_name : Option String → Option String
  lower_name none = none
  lower_name (some name) = some (lower name)

  abbrev pub put_passkey_challenge : String → PasskeyChallenge → State service → State service
  put_passkey_challenge challenge c s = record s {
    passkey_challenges = Dict.set s.passkey_challenges challenge c;
  }

  -- Returns the challenge and the identifiers of the allowed credentials, if they are limited.
  unfoldable pub generate_passkey_login_options :
      String → ℕ → Option String → Exec (State service) (String × Option (List String))
  generate_passkey_login_options challenge now name = do
    allowed ← allowed_credentials (non_empty name)
    modify (
        put_passkey_challenge challenge
          (record { username = lower_name (non_empty name); created_at = now }))
    modify (prune_old_challenges service now)
    pure (challenge, allowed)

  -- Reads and deletes a challenge.
  abbrev pub take_passkey_challenge : ℕ → String → Exec (State service) PasskeyChallenge
  take_passkey_challenge now challenge = do
    c ← or_raise (← gets (λ s. Dict.get s.passkey_challenges challenge)) bad_request
    raise_if (is_stale now c.created_at) bad_request
    modify (λ s. record s { passkey_challenges = Dict.delete s.passkey_challenges challenge })
    pure c

  abbrev pub owner_of : Option Credential → State service → Option User
  owner_of none s = none
  owner_of (some c) s = users.at s.user_table c.user_id

  -- `UserRepository.findByCredentialId`
  abbrev pub find_by_credential_id : String → State service → Option User
  find_by_credential_id id s = owner_of (credentials.at s.credential_table id) s

  abbrev pub passkey_user : Option String → String → State service → Option User
  passkey_user none id s = find_by_credential_id id s
  passkey_user (some name) id s = find_by_username service name s

  -- Returns the token.
  unfoldable pub verify_passkey_login :
      String → ℕ → String → Response → Option String → Exec (State service) String
  verify_passkey_login session_id now challenge response agent = do
    raise_if (is_empty challenge) bad_request
    c ← take_passkey_challenge now challenge
    user ←
        or_raise (← gets (passkey_user (non_empty c.username) (response_id response))) unauthorized
    owned ← gets (credentials_of service user)
    authenticate service user owned challenge response
    create_session service session_id now user.id user.username "passkey" agent
