-- ===== src/Auth/Login/SecondFactor.antt =====
-- The handlers of `AuthService` for the second factor: codes by time, and WebAuthn. A handler's
-- user is read with its credentials. `UserRepository.save` writes them again; where they are
-- unchanged the rows are there already, and the write is left out. A challenge that the WebAuthn
-- library makes is an argument; of its options only what varies is an answer. The `transports` of a
-- credential are left out.
use sentinel_vault.Common.{
  ℕ, ◌+◌, String, Bool, true, not, Option, none, some, List, [], ◌∷◌, ◌++◌, map, find, ltb, ◌==◌,
  if◌then◌else◌,
}
use sentinel_vault.Common.Dict
use sentinel_vault.Common.Dict.{Dict}
use sentinel_vault.Common.Text.{is_empty}
use sentinel_vault.Common.Exec.{
  Exec, pure, gets, modify, or_raise, raise_if, ◌>>=◌, ◌>>◌, bad_request, unauthorized, not_found,
  internal_error,
}
use sentinel_vault.Common.Repository.{unordered}
use sentinel_vault.Auth.Srp.{Buffer}
use sentinel_vault.Auth.Totp.{generate_secret}
use sentinel_vault.Auth.Totp.Codes.{verify_code}
use sentinel_vault.Auth.Login.{AuthService, User, Credential, MfaSession, challenge_age}
use sentinel_vault.Auth.Login.Sessions.{State, find_by_username, save_user, create_session}

-- `createdAt < Date.now() - 5 * 60 * 1000`
abbrev pub is_stale : ℕ → ℕ → Bool
is_stale now created = ltb (created + challenge_age) now

-- A text that may be missing, where an empty one counts as missing.
abbrev pub non_empty : Option String → Option String
non_empty none = none
non_empty (some s) = if is_empty s then none else some s

abbrev pub belongs_to : String → Credential → Bool
belongs_to id c = c.user_id == id

-- `cred.counter = newCounter`, in the first credential with the identifier.
abbrev pub set_counter : String → ℕ → List Credential → List Credential
set_counter id counter [] = []
set_counter id counter (c ∷ cs) =
    let rest = set_counter id counter cs in
    if c.credential_id == id then record c { counter = counter } ∷ cs else c ∷ rest

module _ (service : AuthService) where
  open service use {
    credentials, lower, hmac_sha1, upper, to_base64url, from_base64url, Response, response_id,
    verify_registration, verify_authentication,
  }

  -- `user.webauthnCredentials`
  abbrev pub credentials_of : User → State service → List Credential
  credentials_of user s = credentials.find unordered (belongs_to user.id) s.credential_table

  abbrev pub save_credentials : String → List Credential → State service → State service
  save_credentials id [] s = s
  save_credentials id (c ∷ cs) s = save_credentials id cs (record s {
    credential_table = credentials.save (record c { user_id = id }) s.credential_table;
  })

  -- `UserRepository.save` of a user with its credentials.
  abbrev pub save_with_credentials : User → List Credential → State service → State service
  save_with_credentials user cs s = save_credentials user.id cs (save_user service user s)

  abbrev pub find_user : String → Exec (State service) (Option User)
  find_user name = gets (find_by_username service name)

  -- Returns the secret.
  unfoldable pub generate_totp : Buffer → String → Exec (State service) String
  generate_totp random name = do
    user ← or_raise (← find_user name) not_found
    modify (save_user service (record user { totp_secret = some (generate_secret random) }))
    pure (generate_secret random)

  abbrev pub check_code : ℕ → String → String → Exec (State service) (Unit {0})
  check_code now secret code = do
    valid ← or_raise (verify_code hmac_sha1 upper now secret code 1) internal_error
    raise_if (not valid) unauthorized

  unfoldable pub enable_totp : ℕ → String → String → Exec (State service) (Unit {0})
  enable_totp now name code = do
    user ← or_raise (← find_user name) bad_request
    secret ← or_raise (non_empty user.totp_secret) bad_request
    check_code now secret code
    modify (save_user service (record user { totp_enabled = true }))

  abbrev pub get_mfa_session : ℕ → String → Exec (State service) MfaSession
  get_mfa_session now mfa_token = do
    session ← or_raise (← gets (λ s. Dict.get s.mfa_sessions mfa_token)) unauthorized
    raise_if (is_stale now session.created_at) unauthorized
    pure session

  abbrev pub drop_mfa_session : String → State service → State service
  drop_mfa_session mfa_token s = record s { mfa_sessions = Dict.delete s.mfa_sessions mfa_token }

  -- Returns the token.
  unfoldable pub verify_totp :
      String → ℕ → String → String → Option String → Exec (State service) String
  verify_totp session_id now mfa_token code agent = do
    session ← get_mfa_session now mfa_token
    user ← or_raise (← find_user session.username) bad_request
    raise_if (not user.totp_enabled) bad_request
    secret ← or_raise (non_empty user.totp_secret) bad_request
    check_code now secret code
    modify (drop_mfa_session mfa_token)
    create_session service session_id now user.id user.username "mfa_totp" agent

  abbrev pub put_challenge : String → String → ℕ → State service → State service
  put_challenge name challenge now s = record s {
    webauthn_challenges =
        Dict.set s.webauthn_challenges name (record { challenge = challenge; created_at = now });
  }

  -- Reads and deletes the challenge that is stored under a name.
  abbrev pub take_webauthn_challenge : ℕ → String → Exec (State service) String
  take_webauthn_challenge now name = do
    c ← or_raise (← gets (λ s. Dict.get s.webauthn_challenges name)) bad_request
    raise_if (is_stale now c.created_at) bad_request
    modify (λ s. record s { webauthn_challenges = Dict.delete s.webauthn_challenges name })
    pure c.challenge

  unfoldable pub generate_webauthn_register_options :
      String → ℕ → String → Exec (State service) String
  generate_webauthn_register_options challenge now name = do
    user ← or_raise (← find_user name) not_found
    modify (put_challenge (lower user.username) challenge now)
    pure challenge

  abbrev pub new_credential : String → String × Buffer × ℕ → Credential
  new_credential user (id, key, counter) = record {
    credential_id = id;
    public_key = to_base64url key;
    counter = counter;
    user_id = user;
  }

  unfoldable pub verify_webauthn_register : ℕ → String → Response → Exec (State service) (Unit {0})
  verify_webauthn_register now name response = do
    user ← or_raise (← find_user name) not_found
    owned ← gets (credentials_of user)
    challenge ← take_webauthn_challenge now (lower user.username)
    verification ← or_raise (verify_registration response challenge) internal_error
    info ← or_raise verification bad_request
    modify (
        save_with_credentials (record user { webauthn_enabled = true })
          (owned ++ new_credential user.id info ∷ []))

  -- Returns the challenge and the identifiers of the allowed credentials.
  unfoldable pub generate_webauthn_login_options :
      String → ℕ → String → Exec (State service) (String × List String)
  generate_webauthn_login_options challenge now mfa_token = do
    session ← get_mfa_session now mfa_token
    user ← or_raise (← find_user session.username) bad_request
    raise_if (not user.webauthn_enabled) bad_request
    owned ← gets (credentials_of user)
    modify (put_challenge (lower user.username) challenge now)
    pure (challenge, map (λ (c : Credential). c.credential_id) owned)

  -- Checks an answer against one of the user's credentials, and stores the new counter.
  abbrev pub authenticate :
      User → List Credential → String → Response → Exec (State service) (Unit {0})
  authenticate user owned challenge response = do
    cred ←
        or_raise (find (λ (c : Credential). c.credential_id == response_id response) owned)
          unauthorized
    verification ←
        or_raise
          (verify_authentication response challenge cred.credential_id
            (from_base64url cred.public_key) cred.counter)
          internal_error
    counter ← or_raise verification unauthorized
    modify (save_with_credentials user (set_counter cred.credential_id counter owned))

  -- Returns the token.
  unfoldable pub verify_webauthn_login :
      String → ℕ → String → Response → Option String → Exec (State service) String
  verify_webauthn_login session_id now mfa_token response agent = do
    session ← get_mfa_session now mfa_token
    user ← or_raise (← find_user session.username) bad_request
    raise_if (not user.webauthn_enabled) bad_request
    owned ← gets (credentials_of user)
    challenge ← take_webauthn_challenge now (lower user.username)
    authenticate user owned challenge response
    modify (drop_mfa_session mfa_token)
    create_session service session_id now user.id user.username "mfa_webauthn" agent
