-- ===== src/Auth/Login/Frames.antt =====
-- What every request keeps: a property that the writes of all requests keep, and those of a
-- request which only some properties survive, holds after the request.
pub mod History
use sentinel_vault.Common.{
  ℕ, String, ◌||◌, ◌≡◌, inl, inr, refl, sym, subst, Option, none, some, List, [], ◌∷◌, ◌++◌, map,
  All, Option-cases, Bool-cases,
}
use sentinel_vault.Common.Dict
use sentinel_vault.Common.Dict.{Dict}
use sentinel_vault.Common.Text.{is_empty}
use sentinel_vault.Common.Exec.{bind-pure}
use sentinel_vault.Common.Outcome.{Keeps, Keeps-modify, Keeps-bind, keeps_rules}
use sentinel_vault.Auth.Srp.{Buffer, Verification}
use sentinel_vault.Auth.Login.{
  AuthService, User, Credential, Session, MfaSession, LoginChallenge, WebauthnChallenge,
  PasskeyChallenge, EventType, login_failure, login_success, session_revoked, failed_login,
  logged_in, is_locked, reset_login, mfa_fresh, passkeys_fresh,
}
use sentinel_vault.Auth.Login.Sessions.{
  State, find_by_username, save_user, create_session, save_session, log_event, revoke_session,
  owned_session, is_current,
}
use sentinel_vault.Auth.Login.Handlers.{
  register, login_step1, login_step2, answer_challenge, admit, mfa_gate, reject, new_user,
  verify_challenge, take_challenge, store_challenge, prune_old_challenges,
}
use sentinel_vault.Auth.Login.SecondFactor.{
  generate_totp, enable_totp, verify_totp, generate_webauthn_register_options,
  verify_webauthn_register, generate_webauthn_login_options, verify_webauthn_login,
  save_with_credentials, save_credentials, drop_mfa_session, authenticate,
}
use sentinel_vault.Auth.Login.Passkey.{
  generate_passkey_login_options, verify_passkey_login, put_passkey_challenge, allowed_credentials,
}
use sentinel_vault.Auth.Login.Requests.{
  Op, registers, begins, finishes, revokes, generates_totp, enables_totp, verifies_totp,
  offers_register, verifies_register, offers_login, verifies_login, offers_passkey,
  verifies_passkey, step, run,
}

module _ (service : AuthService) where
  open service use {users, sessions, credentials, denylist, Response}

  -- The writes that every property here survives.
  pub record IsStable (P : State service → Type 0) : Type 0 where
    pub users_kept : (t : users.Table) (s : State service) → P s → P (record s { user_table = t })
    pub sessions_kept :
        (t : sessions.Table) (s : State service) → P s → P (record s { session_table = t })
    pub credentials_kept :
        (t : credentials.Table) (s : State service) → P s → P (record s { credential_table = t })
    pub denied_kept :
        (t : denylist.Store) (s : State service) → P s → P (record s { deny_store = t })
    pub audit_kept :
        (l : List (String × EventType)) (s : State service) → P s → P (record s { audit = l })
    pub webauthn_kept :
        (m : Dict WebauthnChallenge) (s : State service)
        → P s
        → P (record s { webauthn_challenges = m })
    pub mfa_dropped : (k : String) (s : State service) → P s → P (drop_mfa_session service k s)
    pub challenge_taken : (k : String) (s : State service) → P s → P (take_challenge service k s)
    pub passkey_taken :
        (k : String) (s : State service)
        → P s
        → P (record s { passkey_challenges = Dict.delete s.passkey_challenges k })
    pub pruned : (now : ℕ) (s : State service) → P s → P (prune_old_challenges service now s)

  -- The write of a new challenge, or of a new session for the second factor, is survived too.
  abbrev pub Allows : (State service → Type 0) → Op service → Type 0
  Allows P (begins id random now name a_hex) =
      (c : LoginChallenge) (s : State service) → P s → P (store_challenge service id now c s)
  Allows P (finishes mfa_token session_id now id m1_hex agent) =
      (m : MfaSession) (s : State service)
      → P s
      → P (record s { mfa_sessions = Dict.set s.mfa_sessions mfa_token m })
  Allows P (offers_passkey challenge now name) =
      (c : PasskeyChallenge) (s : State service)
      → P s
      → P (put_passkey_challenge service challenge c s)
  Allows P op = Unit

  module _ (P : State service → Type 0) (stable : IsStable P) where
    pub save_user-kept : (user : User) (s : State service) → P s → P (save_user service user s)
    save_user-kept user s h = stable.users_kept _ s h

    pub save_session-kept :
        (session : Session) (s : State service) → P s → P (save_session service session s)
    save_session-kept session s h = stable.sessions_kept _ s h

    pub log_event-kept :
        (user : String) (event : EventType) (s : State service)
        → P s
        → P (log_event service user event s)
    log_event-kept user event s h = stable.audit_kept _ s h

    save_credentials-kept :
        (id : String) (cs : List Credential) (s : State service)
        → P s
        → P (save_credentials service id cs s)
    save_credentials-kept id [] s h = h
    save_credentials-kept id (c ∷ cs) s h =
        save_credentials-kept id cs _ (stable.credentials_kept _ s h)

    save_with-kept :
        (user : User) (cs : List Credential) (s : State service)
        → P s
        → P (save_with_credentials service user cs s)
    save_with-kept user cs s h =
        save_credentials-kept user.id cs (save_user service user s) (save_user-kept user s h)

    pub create_session-Keeps :
        (uuid : String) (now : ℕ) (user name method : String) (agent : Option String)
        → Keeps P (create_session service uuid now user name method agent)
    unfolding create_session
    create_session-Keeps uuid now user name method agent =
        search (keeps_rules, save_session-kept, log_event-kept) depth 30 fits 3000

    pub generate_totp-Keeps :
        (random : Buffer) (name : String) → Keeps P (generate_totp service random name)
    unfolding generate_totp
    generate_totp-Keeps random name = search (keeps_rules, save_user-kept) depth 30 fits 3000

    pub enable_totp-Keeps :
        (now : ℕ) (name code : String) → Keeps P (enable_totp service now name code)
    unfolding enable_totp
    enable_totp-Keeps now name code = search (keeps_rules, save_user-kept) depth 30 fits 3000

    pub verify_totp-Keeps :
        (session_id : String) (now : ℕ) (mfa_token code : String) (agent : Option String)
        → Keeps P (verify_totp service session_id now mfa_token code agent)
    unfolding verify_totp
    verify_totp-Keeps session_id now mfa_token code agent =
        search (keeps_rules, stable.mfa_dropped, create_session-Keeps) depth 30 fits 3000

    pub register_options-Keeps :
        (challenge : String) (now : ℕ) (name : String)
        → Keeps P (generate_webauthn_register_options service challenge now name)
    unfolding generate_webauthn_register_options
    register_options-Keeps challenge now name =
        search (keeps_rules, stable.webauthn_kept) depth 30 fits 3000

    pub register_device-Keeps :
        (now : ℕ) (name : String) (response : Response)
        → Keeps P (verify_webauthn_register service now name response)
    unfolding verify_webauthn_register
    register_device-Keeps now name response =
        search (keeps_rules, stable.webauthn_kept, save_with-kept) depth 30 fits 3000

    pub login_options-Keeps :
        (challenge : String) (now : ℕ) (mfa_token : String)
        → Keeps P (generate_webauthn_login_options service challenge now mfa_token)
    unfolding generate_webauthn_login_options
    login_options-Keeps challenge now mfa_token =
        search (keeps_rules, stable.webauthn_kept) depth 30 fits 3000

    authenticate-Keeps :
        (user : User) (owned : List Credential) (challenge : String) (response : Response)
        → Keeps P (authenticate service user owned challenge response)
    authenticate-Keeps user owned challenge response =
        search (keeps_rules, save_with-kept) depth 30 fits 3000

    pub device_login-Keeps :
        (session_id : String) (now : ℕ) (mfa_token : String) (response : Response)
        (agent : Option String)
        → Keeps P (verify_webauthn_login service session_id now mfa_token response agent)
    unfolding verify_webauthn_login
    device_login-Keeps session_id now mfa_token response agent =
        search
          (
            keeps_rules, stable.webauthn_kept, stable.mfa_dropped, authenticate-Keeps,
            create_session-Keeps,
          )
          depth 30 fits 3000

    pub passkey_login-Keeps :
        (session_id : String) (now : ℕ) (challenge : String) (response : Response)
        (agent : Option String)
        → Keeps P (verify_passkey_login service session_id now challenge response agent)
    unfolding verify_passkey_login
    passkey_login-Keeps session_id now challenge response agent =
        search (keeps_rules, stable.passkey_taken, authenticate-Keeps, create_session-Keeps) depth
          30 fits 3000

    allowed-Keeps : (name : Option String) → Keeps P (allowed_credentials service name)
    allowed-Keeps none = search (keeps_rules)
    allowed-Keeps (some name) = search (keeps_rules) depth 30 fits 3000

    pub passkey_options-Keeps :
        (challenge : String) (now : ℕ) (name : Option String)
        → ((c : PasskeyChallenge) (s : State service)
            → P s
            → P (put_passkey_challenge service challenge c s))
        → Keeps P (generate_passkey_login_options service challenge now name)
    unfolding generate_passkey_login_options
    passkey_options-Keeps challenge now name put =
        search (keeps_rules, stable.pruned, allowed-Keeps, put) depth 30 fits 3000
