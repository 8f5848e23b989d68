-- ===== src/Auth/Login/Frames/History.antt =====
-- What every request and every history of requests keeps.
use sentinel_vault.Common.{
  ℕ, String, ◌||◌, inl, inr, sym, subst, Option, none, some, List, [], ◌∷◌, All, Option-cases,
  Bool-cases,
}
use sentinel_vault.Common.Dict
use sentinel_vault.Common.Dict.{Dict}
use sentinel_vault.Common.Text.{is_empty}
use sentinel_vault.Common.Exec.{bind-pure}
use sentinel_vault.Auth.Srp.{Buffer, Verification}
use sentinel_vault.Auth.Login.{
  AuthService, User, MfaSession, LoginChallenge, login_failure, login_success, session_revoked,
  failed_login, logged_in, is_locked, reset_login,
}
use sentinel_vault.Auth.Login.Sessions.{
  State, find_by_username, create_session, revoke_session, owned_session, is_current,
}
use sentinel_vault.Auth.Login.Handlers.{
  register, login_step1, open_challenge, login_step2, answer_challenge, admit, mfa_gate, reject,
  new_user, verify_challenge, take_challenge, store_challenge,
}
use sentinel_vault.Auth.Login.Requests.{
  Op, registers, begins, finishes, revokes, generates_totp, enables_totp, verifies_totp,
  offers_register, verifies_register, offers_login, verifies_login, offers_passkey,
  verifies_passkey, step, run,
}
use sentinel_vault.Auth.Login.Frames.{
  IsStable, Allows, create_session-Keeps, save_user-kept, save_session-kept, log_event-kept,
  generate_totp-Keeps, enable_totp-Keeps, verify_totp-Keeps, register_options-Keeps,
  register_device-Keeps, login_options-Keeps, device_login-Keeps, passkey_options-Keeps,
  passkey_login-Keeps,
}

module _ (service : AuthService) where
  open service use {users, sessions, credentials, denylist, Response}

  module _ (P : State service → Type 0) (stable : IsStable service P) where
    register-kept :
        (uuid session_id : String) (now : ℕ) (name salt verifier : String) (agent : Option String)
        (s : State service)
        → P s
        → P (register service uuid session_id now name salt verifier agent s).1
    unfolding register
    register-kept uuid session_id now name salt verifier agent s h =
        elim (Bool-cases (is_empty name || (is_empty salt || is_empty verifier))) [
          | inl missing ↦ rw missing h
          | inr given ↦ rw given (elim (Option-cases (find_by_username service name s)) [
            | inl free ↦ rw free (
                (create_session-Keeps service P stable session_id now uuid name "registration"
                    agent).at
                  _
                  (save_user-kept service P stable (new_user service uuid name salt verifier) s h))
            | inr (user, taken) ↦ rw taken h
          ])
        ]

    open-kept :
        (id : String) (now : ℕ) (o : Option LoginChallenge) (s : State service)
        → ((c : LoginChallenge) (s : State service) → P s → P (store_challenge service id now c s))
        → P s
        → P (open_challenge service id now o s).1
    open-kept id now none s store h = h
    open-kept id now (some c) s store h = stable.pruned now _ (store c s h)

    begin-kept :
        (id : String) (random : Buffer) (now : ℕ) (name a_hex : String) (s : State service)
        → ((c : LoginChallenge) (s : State service) → P s → P (store_challenge service id now c s))
        → P s
        → P (login_step1 service id random now name a_hex s).1
    unfolding login_step1
    begin-kept id random now name a_hex s store h =
        elim (Bool-cases (is_empty name || is_empty a_hex)) [
          | inl missing ↦ rw missing h
          | inr given ↦
              rw given (elim (Bool-cases (is_locked now (find_by_username service name s))) [
                | inl shut ↦ rw shut h
                | inr open_ ↦ rw open_ (open-kept id now _ s store h)
              ])
        ]

    reject-kept :
        (now : ℕ) (name : String) (o : Option User) (s : State service)
        → P s
        → P (reject service now name o s).1
    reject-kept now name none s h = log_event-kept service P stable name login_failure s h
    reject-kept now name (some user) s h =
        log_event-kept service P stable user.id login_failure _
          (save_user-kept service P stable (failed_login now user) s h)

    gate-kept :
        (mfa_token session_id : String) (now : ℕ) (user : User) (evidence : Option Buffer)
        (agent : Option String) (s : State service)
        → ((m : MfaSession) (s : State service)
            → P s
            → P (record s { mfa_sessions = Dict.set s.mfa_sessions mfa_token m }))
        → P s
        → P (mfa_gate service mfa_token session_id now user evidence agent s).1
    gate-kept mfa_token session_id now user evidence agent s put h =
        elim (Bool-cases (user.totp_enabled || user.webauthn_enabled)) [
          | inl second ↦ rw second (put _ s h)
          | inr direct ↦ rw direct (
              subst P
                (sym (
                  bind-pure
                    (create_session service session_id now user.id user.username "srp-6a" agent)
                    (logged_in evidence) s))
                ((create_session-Keeps service P stable session_id now user.id user.username
                    "srp-6a" agent).at
                  s h))
        ]

    admit-kept :
        (mfa_token session_id : String) (now : ℕ) (o : Option User) (name : String)
        (v : Verification) (agent : Option String) (s : State service)
        → ((m : MfaSession) (s : State service)
            → P s
            → P (record s { mfa_sessions = Dict.set s.mfa_sessions mfa_token m }))
        → P s
        → P (admit service mfa_token session_id now o name v agent s).1
    admit-kept mfa_token session_id now none name v agent s put h = reject-kept now name none s h
    admit-kept mfa_token session_id now (some user) name v agent s put h =
        elim (Bool-cases v.success) [
          | inl passed ↦ rw passed (
              gate-kept mfa_token session_id now (reset_login user) v.server_evidence agent _ put (
                log_event-kept service P stable user.id login_success _
                  (save_user-kept service P stable (reset_login user) s h)))
          | inr wrong ↦ rw wrong (reject-kept now name (some user) s h)
        ]

    pub answer-kept :
        (mfa_token session_id : String) (now : ℕ) (m1_hex : String) (agent : Option String)
        (o : Option LoginChallenge) (s : State service)
        → ((m : MfaSession) (s : State service)
            → P s
            → P (record s { mfa_sessions = Dict.set s.mfa_sessions mfa_token m }))
        → P s
        → P (answer_challenge service mfa_token session_id now m1_hex agent o s).1
    answer-kept mfa_token session_id now m1_hex agent none s put h = h
    answer-kept mfa_token session_id now m1_hex agent (some c) s put h =
        let user = find_by_username service c.username s in
        elim (Bool-cases (is_locked now user)) [
          | inl shut ↦ rw shut h
          | inr open_ ↦ rw open_ (elim (Option-cases (verify_challenge service c m1_hex)) [
            | inl throws ↦ rw throws h
            | inr (v, returns) ↦
                rw returns (admit-kept mfa_token session_id now user c.username v agent s put h)
          ])
        ]

    revoke-kept :
        (now : ℕ) (user : String) (jti : Option String) (id : String) (s : State service)
        → P s
        → P (revoke_session service now user jti id s).1
    unfolding revoke_session
    revoke-kept now user jti id s h = elim (Bool-cases (is_current service jti id)) [
      | inl current ↦ rw current h
      | inr other ↦
          rw other
            (elim (Option-cases (sessions.find_one (owned_session user id) s.session_table)) [
              | inl missing ↦ rw missing h
              | inr (session, found) ↦ rw found (
                  log_event-kept service P stable user session_revoked _
                    (stable.denied_kept _ _ (save_session-kept service P stable _ s h)))
            ])
    ]

    step-kept :
        (op : Op service) (s : State service) → Allows service P op → P s → P (step service op s)
    unfolding step login_step2
    step-kept (registers uuid session_id now name salt verifier agent) s allowed h =
        register-kept uuid session_id now name salt verifier agent s h
    step-kept (begins id random now name a_hex) s allowed h =
        begin-kept id random now name a_hex s allowed h
    step-kept (finishes mfa_token session_id now id m1_hex agent) s allowed h =
        answer-kept mfa_token session_id now m1_hex agent
          (service.challenges.read now id s.challenge_store) (take_challenge service id s) allowed
          (stable.challenge_taken id s h)
    step-kept (revokes now user jti id) s allowed h = revoke-kept now user jti id s h
    step-kept (generates_totp random name) s allowed h =
        (generate_totp-Keeps service P stable random name).at s h
    step-kept (enables_totp now name code) s allowed h =
        (enable_totp-Keeps service P stable now name code).at s h
    step-kept (verifies_totp session_id now mfa_token code agent) s allowed h =
        (verify_totp-Keeps service P stable session_id now mfa_token code agent).at s h
    step-kept (offers_register challenge now name) s allowed h =
        (register_options-Keeps service P stable challenge now name).at s h
    step-kept (verifies_register now name response) s allowed h =
        (register_device-Keeps service P stable now name response).at s h
    step-kept (offers_login challenge now mfa_token) s allowed h =
        (login_options-Keeps service P stable challenge now mfa_token).at s h
    step-kept (verifies_login session_id now mfa_token response agent) s allowed h =
        (device_login-Keeps service P stable session_id now mfa_token response agent).at s h
    step-kept (offers_passkey challenge now name) s allowed h =
        (passkey_options-Keeps service P stable challenge now name allowed).at s h
    step-kept (verifies_passkey session_id now challenge response agent) s allowed h =
        (passkey_login-Keeps service P stable session_id now challenge response agent).at s h

    -- What no request of a history destroys holds after the history.
    pub run-kept :
        (ops : List (Op service)) (s : State service)
        → All (Allows service P) ops
        → P s
        → P (run service ops s)
    unfolding run
    run-kept [] s allowed h = h
    run-kept (op ∷ ops) s allowed h =
        run-kept ops (step service op s) allowed.1 (step-kept op s allowed.0 h)
