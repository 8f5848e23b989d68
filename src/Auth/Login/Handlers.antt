-- ===== src/Auth/Login/Handlers.antt =====
-- The handlers of `AuthService` for registration and the two steps of the login.
use sentinel_vault.Common.{
  ℕ, zero, suc, ◌%◌, String, false, ◌||◌, Option, none, some, [], ◌∷◌, ◌++◌, if◌then◌else◌,
}
use sentinel_vault.Common.Dict
use sentinel_vault.Common.Dict.{Dict}
use sentinel_vault.Common.Text.{is_empty}
use sentinel_vault.Common.Exec.{
  Exec, pure, raise, modify, ◌>>=◌, ◌>>◌, bad_request, unauthorized, conflict, locked,
  internal_error,
}
use sentinel_vault.Auth.Srp.{
  Buffer, Verification, generate_server_ephemeral, verify_session, buffer_to_big_int,
}
use sentinel_vault.Auth.Login.{
  AuthService, User, LoginChallenge, login_failure, login_success, LoginAnswer, mfa_required,
  logged_in, is_locked, failed_login, reset_login, allowed_methods, mfa_fresh, passkeys_fresh,
}
use sentinel_vault.Auth.Login.Sessions.{
  State, find_by_username, save_user, log_event, create_session,
}

-- `subarray(0, n)`
abbrev pub take : ℕ → Buffer → Buffer
take zero bytes = []
take (suc n) [] = []
take (suc n) (b ∷ bytes) = b ∷ take n bytes

module _ (service : AuthService) where
  open service use {
    users, sessions, challenges, denylist, lower, sha256, modulus, utf8, from_hex, hex_number, sign,
    token_digest, device_label, server_secret,
  }

  abbrev pub new_user : String → String → String → String → User
  new_user uuid name salt verifier = record {
    id = uuid;
    username = name;
    salt = salt;
    verifier = verifier;
    failed_attempts = 0;
    lockout_until = none;
    totp_secret = none;
    totp_enabled = false;
    webauthn_enabled = false;
  }

  abbrev register_new :
      String
      → String
      → ℕ
      → String
      → String
      → String
      → Option String
      → Option User
      → Exec (State service) String
  register_new uuid session_id now name salt verifier agent (some existing) = raise conflict
  register_new uuid session_id now name salt verifier agent none =
      modify (save_user service (new_user uuid name salt verifier))
      >> create_session service session_id now uuid name "registration" agent

  unfoldable pub register :
      String → String → ℕ → String → String → String → Option String → Exec (State service) String
  register uuid session_id now name salt verifier agent s =
      if is_empty name || (is_empty salt || is_empty verifier)
      then raise bad_request s
      else register_new uuid session_id now name salt verifier agent
          (find_by_username service name s) s

  abbrev known_parameters : Buffer → Option ℕ → Option (Buffer × ℕ)
  known_parameters salt none = none
  known_parameters salt (some v) = some (salt, v)

  -- The salt and the verifier of a user, or made-up ones for a name that nobody has; none where
  -- the verifier is not read.
  abbrev login_parameters : String → Option User → Option (Buffer × ℕ)
  login_parameters name (some user) =
      known_parameters (from_hex user.salt) (hex_number user.verifier)
  login_parameters name none =
      let dummy = sha256 (utf8 (lower name) ++ server_secret) in
      some (take 16 dummy, buffer_to_big_int (sha256 (dummy ++ server_secret)) % modulus)

  abbrev pub prune_old_challenges : ℕ → State service → State service
  prune_old_challenges now s = record s {
    mfa_sessions = mfa_fresh now s.mfa_sessions;
    passkey_challenges = passkeys_fresh now s.passkey_challenges;
  }

  abbrev pub store_challenge : String → ℕ → LoginChallenge → State service → State service
  store_challenge id now c s = record s {
    challenge_store = challenges.set_ex now id c 300 s.challenge_store;
  }

  -- The challenge for the salt, the verifier and the number of the client, where all are read.
  abbrev challenge_from :
      Buffer → ℕ → String → Option (Buffer × ℕ) → Option ℕ → Option LoginChallenge
  challenge_from random now name none client = none
  challenge_from random now name (some parameters) none = none
  challenge_from random now name (some (salt, v)) (some big_a) =
      let (b, big_b) = generate_server_ephemeral sha256 modulus v random in
      some (record {
        username = name;
        client_public = big_a;
        secret = b;
        server_public = big_b;
        salt = salt;
        verifier = v;
        created_at = now;
      })

  -- None where a text is no hexadecimal number.
  abbrev new_challenge : Buffer → ℕ → String → String → Option User → Option LoginChallenge
  new_challenge random now name a_hex user =
      challenge_from random now name (login_parameters name user) (hex_number a_hex)

  abbrev pub open_challenge :
      String → ℕ → Option LoginChallenge → Exec (State service) (Buffer × ℕ × String)
  open_challenge id now none = raise internal_error
  open_challenge id now (some c) =
      modify (store_challenge id now c)
      >> modify (prune_old_challenges now)
      >> pure (c.salt, c.server_public, id)

  -- Returns the salt, `B` and the identifier of the challenge.
  unfoldable pub login_step1 :
      String → Buffer → ℕ → String → String → Exec (State service) (Buffer × ℕ × String)
  login_step1 id random now name a_hex s =
      if is_empty name || is_empty a_hex
      then raise bad_request s
      else (let user = find_by_username service name s in
          if is_locked now user
          then raise locked s
          else open_challenge id now (new_challenge random now name a_hex user) s)

  -- `RedisService.getdel`
  abbrev pub take_challenge : String → State service → State service
  take_challenge id s = record s { challenge_store = challenges.del id s.challenge_store }

  -- A failed verification of a user.
  abbrev pub reject : ℕ → String → Option User → Exec (State service) LoginAnswer
  reject now name none = modify (log_event service name login_failure) >> raise unauthorized
  reject now name (some user) =
      modify (save_user service (failed_login now user))
      >> modify (log_event service user.id login_failure)
      >> raise unauthorized

  -- The answer after the password is verified: a token, or a token for the second factor.
  abbrev pub mfa_gate :
      String → String → ℕ → User → Option Buffer → Option String → Exec (State service) LoginAnswer
  mfa_gate mfa_token session_id now user evidence agent =
      if user.totp_enabled || user.webauthn_enabled
      then (modify (λ s. record s {
        mfa_sessions =
            Dict.set s.mfa_sessions mfa_token
              (record { username = user.username; created_at = now });
      })
          >> pure (mfa_required mfa_token (allowed_methods user) evidence))
      else (create_session service session_id now user.id user.username "srp-6a" agent >>= λ token.
          pure (logged_in evidence token))

  abbrev pub admit :
      String
      → String
      → ℕ
      → Option User
      → String
      → Verification
      → Option String
      → Exec (State service) LoginAnswer
  admit mfa_token session_id now none name v agent = reject now name none
  admit mfa_token session_id now (some user) name v agent =
      if v.success
      then (modify (save_user service (reset_login user))
          >> modify (log_event service user.id login_success)
          >> mfa_gate mfa_token session_id now (reset_login user) v.server_evidence agent)
      else reject now name (some user)

  abbrev pub judge_login :
      String
      → String
      → ℕ
      → Option User
      → String
      → Option Verification
      → Option String
      → Exec (State service) LoginAnswer
  judge_login mfa_token session_id now user name none agent = raise internal_error
  judge_login mfa_token session_id now user name (some v) agent =
      admit mfa_token session_id now user name v agent

  abbrev pub verify_challenge : LoginChallenge → String → Option Verification
  verify_challenge c m1_hex =
      verify_session sha256 modulus (utf8 c.username) c.salt c.client_public c.server_public
        c.verifier c.secret (from_hex m1_hex)

  abbrev pub answer_challenge :
      String
      → String
      → ℕ
      → String
      → Option String
      → Option LoginChallenge
      → Exec (State service) LoginAnswer
  answer_challenge mfa_token session_id now m1_hex agent none s = raise unauthorized s
  answer_challenge mfa_token session_id now m1_hex agent (some c) s =
      let user = find_by_username service c.username s in
      if is_locked now user
      then raise locked s
      else judge_login mfa_token session_id now user c.username (verify_challenge c m1_hex) agent s

  unfoldable pub login_step2 :
      String → String → ℕ → String → String → Option String → Exec (State service) LoginAnswer
  login_step2 mfa_token session_id now id m1_hex agent s =
      answer_challenge mfa_token session_id now m1_hex agent
        (challenges.read now id s.challenge_store) (take_challenge id s)
