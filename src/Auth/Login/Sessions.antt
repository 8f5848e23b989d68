-- ===== src/Auth/Login/Sessions.antt =====
-- The state of `AuthService`, its reads and writes of users, and the handlers of sessions.
use sentinel_vault.Common.{
  ℕ, String, Bool, true, false, not, ◌&&◌, Option, none, some, List, ◌∷◌, map, ◌==◌, if◌then◌else◌,
}
use sentinel_vault.Common.Dict.{Dict}
use sentinel_vault.Common.Text.{is_empty}
use sentinel_vault.Common.Exec.{Exec, ok, pure, raise, modify, ◌>>◌, bad_request, not_found}
use sentinel_vault.Common.Repository.{descending}
use sentinel_vault.Auth.Login.{
  AuthService, User, Session, MfaSession, WebauthnChallenge, PasskeyChallenge, EventType,
  session_created, session_revoked, user_row,
}

abbrev pub owned_session : String → String → Session → Bool
owned_session user id s = s.id == id && s.user_id == user

abbrev pub open_session : String → Session → Bool
open_session user s = s.user_id == user && not s.is_revoked

abbrev pub last_active : Session → ℕ
last_active s = s.last_active_at

abbrev pub is_session : Option String → String → Bool
is_session none id = false
is_session (some jti) id = id == jti

module _ (service : AuthService) where
  open service use {
    users, sessions, challenges, denylist, credentials, lower, sha256, modulus, utf8, from_hex,
    hex_number, sign, token_digest, device_label, server_secret,
  }

  -- The tables, Redis, and the maps that the service keeps in memory.
  pub record State : Type 0 where
    pub user_table : users.Table
    pub session_table : sessions.Table
    pub challenge_store : challenges.Store
    pub deny_store : denylist.Store
    pub credential_table : credentials.Table
    pub mfa_sessions : Dict MfaSession
    pub webauthn_challenges : Dict WebauthnChallenge
    pub passkey_challenges : Dict PasskeyChallenge
    pub audit : List (String × EventType)

  abbrev pub same_name : String → User → Bool
  same_name name user = lower user.username == lower name

  -- `UserRepository.findByUsername`
  abbrev pub find_by_username : String → State → Option User
  find_by_username name s = users.find_one (same_name name) s.user_table

  -- `UserRepository.save` of a record with an identifier.
  abbrev pub save_user : User → State → State
  save_user user s = record s {
    user_table = users.save (user_row (find_by_username user.username s) user) s.user_table;
  }

  abbrev pub log_event : String → EventType → State → State
  log_event user event s = record s { audit = (user, event) ∷ s.audit }

  abbrev pub save_session : Session → State → State
  save_session session s = record s { session_table = sessions.save session s.session_table }

  abbrev pub new_session : String → ℕ → String → String → Option String → Session
  new_session uuid now user method agent = record {
    id = uuid;
    user_id = user;
    device_label = device_label agent;
    login_method = method;
    token_hash = none;
    is_revoked = false;
    created_at = now;
    last_active_at = now;
  }

  -- Returns the token.
  unfoldable pub create_session :
      String → ℕ → String → String → String → Option String → Exec State String
  create_session uuid now user name method agent =
      let session = new_session uuid now user method agent in
      let token = sign user name uuid in
      modify (save_session session)
      >> modify (save_session (record session { token_hash = some (token_digest token) }))
      >> modify (log_event user session_created)
      >> pure token

  -- Each session with whether it is the current one.
  unfoldable pub get_user_sessions : String → Option String → Exec State (List (Session × Bool))
  get_user_sessions user jti s = (
    ok (
        map (λ (x : Session). (x, is_session jti x.id))
          (sessions.find (descending last_active) (open_session user) s.session_table)),
    s,
  )

  abbrev pub deny : ℕ → String → State → State
  deny now id s = record s { deny_store = denylist.set_ex now id "1" 86400 s.deny_store }

  abbrev pub revoke_found : ℕ → String → String → Option Session → Exec State (Unit {0})
  revoke_found now user id none = raise not_found
  revoke_found now user id (some session) =
      modify (save_session (record session { is_revoked = true; last_active_at = now }))
      >> modify (deny now id)
      >> modify (log_event user session_revoked)

  -- `currentJti && sessionIdToRevoke === currentJti`
  abbrev pub is_current : Option String → String → Bool
  is_current none id = false
  is_current (some jti) id = not (is_empty jti) && id == jti

  unfoldable pub revoke_session : ℕ → String → Option String → String → Exec State (Unit {0})
  revoke_session now user jti id s =
      if is_current jti id
      then raise bad_request s
      else revoke_found now user id (sessions.find_one (owned_session user id) s.session_table) s
