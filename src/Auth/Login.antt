-- ===== src/Auth/Login.antt =====
-- Registration, the two steps of the SRP login and sessions: `AuthService`
-- (backend/auth-service/src/auth/auth.service.ts) over `UserRepository` (user.repository.ts).
-- Parameters are the database, Redis, SHA-256, the signature of a token, and the conversions
-- between text and bytes. The JSON text of a challenge in Redis is the challenge itself. An audit
-- event is its user and its type. The columns for passkeys, the log and the errors of the database
-- are left out; the label of a device is a parameter. A handler reads the clock once.
pub mod Sessions
pub mod Handlers
pub mod SecondFactor
pub mod Passkey
pub mod Requests
pub mod Frames
pub mod Challenge
pub mod Locked
pub mod Lockout
pub mod Factors
pub mod Devices
pub mod PasskeyLogin
pub mod Replay
pub mod Token
pub mod Revocation
mod Tests
mod Scenarios
use sentinel_vault.Common.{
  ℕ, ◌+◌, ◌-◌, ◌*◌, ◌%◌, ◌<◌, String, Bool, true, false, not, ◌&&◌, ◌||◌, Option, none, some, List,
  [], ◌∷◌, ◌++◌, map, filter, ltb, leb, eqb, ◌==◌, if◌then◌else◌, or_default,
}
use sentinel_vault.Common.Dict
use sentinel_vault.Common.Dict.{Dict}
use sentinel_vault.Common.Text.{is_empty}
use sentinel_vault.Common.Exec.{
  Exec, Result, ok, err, pure, raise, modify, ◌>>=◌, ◌>>◌, bad_request, unauthorized, not_found,
  conflict, locked, internal_error,
}
use sentinel_vault.Common.Equality.{string_eq}
use sentinel_vault.Common.Repository.{Repository, descending, unless_undefined}
use sentinel_vault.Common.Redis.{Redis}
use sentinel_vault.Auth.Srp.{
  Buffer, Verification, generate_server_ephemeral, verify_session, buffer_to_big_int,
}

pub record User : Type 0 where
  pub id : String
  pub username : String
  pub salt : String
  pub verifier : String
  pub failed_attempts : ℕ
  pub lockout_until : Option ℕ
  pub totp_secret : Option String
  pub totp_enabled : Bool
  pub webauthn_enabled : Bool

pub record Session : Type 0 where
  pub id : String
  pub user_id : String
  pub device_label : String
  pub login_method : String
  pub token_hash : Option String
  pub is_revoked : Bool
  pub created_at : ℕ
  pub last_active_at : ℕ

pub record LoginChallenge : Type 0 where
  pub username : String
  pub client_public : ℕ
  pub secret : ℕ
  pub server_public : ℕ
  pub salt : Buffer
  pub verifier : ℕ
  pub created_at : ℕ

pub record MfaSession : Type 0 where
  pub username : String
  pub created_at : ℕ

-- A row of `webauthn_credentials`.
pub record Credential : Type 0 where
  pub credential_id : String
  pub public_key : String
  pub counter : ℕ
  pub user_id : String

pub record WebauthnChallenge : Type 0 where
  pub challenge : String
  pub created_at : ℕ

pub record PasskeyChallenge : Type 0 where
  pub username : Option String
  pub created_at : ℕ

pub data EventType : Type 0 where
  session_created session_revoked login_failure login_success : EventType

pub data LoginMethod : Type 0 where
  totp webauthn : LoginMethod

-- The two answers of `loginStep2`.
pub data LoginAnswer : Type 0 where
  mfa_required : String → List LoginMethod → Option Buffer → LoginAnswer
  logged_in : Option Buffer → String → LoginAnswer

abbrev pub user_key : User → String
user_key user = user.id

abbrev pub session_key : Session → String
session_key session = session.id

abbrev pub credential_key : Credential → String
credential_key credential = credential.credential_id

-- `user.lockoutUntil && user.lockoutUntil > now`
abbrev pub is_locked : ℕ → Option User → Bool
is_locked now none = false
is_locked now (some user) = elim user.lockout_until [ none ↦ false | some until ↦ ltb now until ]

-- The user after a failed verification.
abbrev pub failed_login : ℕ → User → User
failed_login now user = record user {
  failed_attempts = user.failed_attempts + 1;
  lockout_until =
      if leb 5 (user.failed_attempts + 1) then some (now + 15 * 60 * 1000) else user.lockout_until;
}

abbrev pub reset_login : User → User
reset_login user = record user { failed_attempts = 0; lockout_until = none }

abbrev pub allowed_methods : User → List LoginMethod
allowed_methods user =
    (if user.totp_enabled then totp ∷ [] else [])
    ++ (if user.webauthn_enabled then webauthn ∷ [] else [])

-- The row that `UserRepository.save` writes over the one of the same name.
abbrev pub user_row : Option User → User → User
user_row none user = user
user_row (some existing) user = record user {
  totp_secret = unless_undefined user.totp_secret existing.totp_secret;
}

-- Five minutes, in milliseconds.
abbrev pub challenge_age : ℕ
challenge_age = 5 * 60 * 1000

pub mfa_fresh : ℕ → Dict MfaSession → Dict MfaSession
mfa_fresh now [] = []
mfa_fresh now ((token, m) ∷ rest) =
    let kept = mfa_fresh now rest in
    if ltb (m.created_at + challenge_age) now then kept else (token, m) ∷ kept

pub passkeys_fresh : ℕ → Dict PasskeyChallenge → Dict PasskeyChallenge
passkeys_fresh now [] = []
passkeys_fresh now ((challenge, c) ∷ rest) =
    let kept = passkeys_fresh now rest in
    if ltb (c.created_at + challenge_age) now then kept else (challenge, c) ∷ kept

-- What `AuthService` is given, and the functions of libraries that it calls.
pub record AuthService : Type 1 where
  pub users : Repository User user_key
  pub sessions : Repository Session session_key
  pub challenges : Redis LoginChallenge
  pub denylist : Redis String
  pub credentials : Repository Credential credential_key
  -- SQL's `LOWER` and `toLowerCase`
  pub lower : String → String
  pub sha256 : Buffer → Buffer
  pub modulus : ℕ
  pub utf8 : String → Buffer
  pub from_hex : String → Buffer
  -- `BigInt('0x' + text)`, none where it throws
  pub hex_number : String → Option ℕ
  -- the signed token for a user, a name and a session
  pub sign : String → String → String → String
  pub token_digest : String → String
  pub device_label : Option String → String
  pub server_secret : Buffer
  -- `createHmac('sha1', key)`
  pub hmac_sha1 : Buffer → Buffer → Buffer
  -- `toUpperCase`
  pub upper : String → String
  pub to_base64url : Buffer → String
  pub from_base64url : String → Buffer
  -- A client's answer to a WebAuthn challenge.
  pub Response : Type 0
  pub response_id : Response → String
  -- `verifyRegistrationResponse` on an answer and the expected challenge: nothing if it throws, no
  -- credential if the answer is not verified.
  pub verify_registration : Response → String → Option (Option (String × Buffer × ℕ))
  -- `verifyAuthenticationResponse` on an answer, the expected challenge, and the identifier, public
  -- key and counter of a credential: nothing if it throws, else the new counter of a verified one.
  pub verify_authentication : Response → String → String → Buffer → ℕ → Option (Option ℕ)
