-- ===== src/Auth/Login/Devices.antt =====
-- What the login by a WebAuthn credential as a second factor does on every branch.
use sentinel_vault.Common.{
  ℕ, ◌+◌, ◌≤◌, String, true, false, not, ◌≡◌, refl, sym, ap, subst, ◌∙◌, Option, some, List, [],
  ◌∷◌, All, find, ◌==◌, arith, eq_iff, eq_refl, inl, inr, Bool-cases,
}
use sentinel_vault.Common.Dict
use sentinel_vault.Common.Exec.{HttpError}
use sentinel_vault.Common.Outcome.{Outcome, outcome_rules}
use sentinel_vault.Common.Repository.{unordered}
use sentinel_vault.Auth.Login.{
  AuthService, User, Credential, MfaSession, WebauthnChallenge, challenge_age,
}
use sentinel_vault.Auth.Login.Sessions.{State, find_by_username, create_session, save_user}
use sentinel_vault.Auth.Login.SecondFactor.{
  is_stale, belongs_to, credentials_of, verify_webauthn_login, drop_mfa_session,
  save_with_credentials, save_credentials, set_counter,
}
use sentinel_vault.Auth.Login.Factors.{not_stale, find-some, save-counter, Issued, Asked}

find-All :
    (P : Credential → Type 0) (id : String) (cs : List Credential) (cred : Credential)
    → find (λ (c : Credential). c.credential_id == id) cs ≡ some cred
    → All P cs
    → P cred
find-All P id [] cred h all = cc
find-All P id (c ∷ cs) cred h all = elim (Bool-cases (c.credential_id == id)) [
  | inl same ↦ let found : (c ≡ cred) = ground (arith, same, h) in subst P found all.0
  | inr other ↦ find-All P id cs cred (rw other at h) all.1
]

module _ (service : AuthService) where
  open service use {
    credentials, lower, from_base64url, Response, response_id, verify_authentication,
  }

  -- The answer is that of a credential of the user, it is verified, and the new counter is stored.
  abbrev pub Authenticated : User → String → Response → State service → State service → Type 0
  Authenticated user challenge response s s' =
      (cred : Credential) × (counter : ℕ) × (credentials.at s.credential_table
          (response_id response)
        ≡ some cred)
      × (cred.user_id ≡ user.id)
      × (verify_authentication response challenge cred.credential_id
            (from_base64url cred.public_key) cred.counter
          ≡ some (some counter))
      × (credentials.at s'.credential_table (response_id response)
          ≡ some (record cred { counter = counter }))

  -- Saving credentials changes their table only.
  pub save-rest :
      (id : String) (cs : List Credential) (s : State service)
      → save_credentials service id cs s
        ≡ record s { credential_table = (save_credentials service id cs s).credential_table }
  save-rest id [] s = refl
  save-rest id (c ∷ cs) s = save-rest id cs _

  pub authenticated :
      (user : User) (challenge : String) (response : Response) (s : State service)
      (cred : Credential) (counter : ℕ)
      → find
          (λ (c : Credential). c.credential_id == response_id response)
          (credentials_of service user s)
        ≡ some cred
      → verify_authentication response challenge cred.credential_id
          (from_base64url cred.public_key)
          cred.counter
        ≡ some (some counter)
      → (s' : State service)
      → Authenticated user challenge response s (
          save_with_credentials service user
            (set_counter cred.credential_id counter (credentials_of service user s))
            s')
  authenticated user challenge response s cred counter found verified s' =
      let (owned, stored) =
        find-All _ (response_id response) (credentials_of service user s) cred found
          (credentials.find-sound unordered (belongs_to user.id) s.credential_table) in
      let id = find-some (response_id response) (credentials_of service user s) cred found in
      (
        cred,
        counter,
        subst (λ j. credentials.at s.credential_table j ≡ some cred) id stored,
        (eq_iff cred.user_id user.id).0 owned,
        verified,
        subst
            (λ j.
              credentials.at
                (save_with_credentials service user
                  (set_counter cred.credential_id counter (credentials_of service user s))
                  s').credential_table
                j
              ≡ some (record cred { counter = counter }))
            id
            (save-counter service user.id cred.credential_id counter (credentials_of service user s)
                cred (save_user service user s')
                (credentials.find-Distinct unordered (belongs_to user.id) s.credential_table)
                (subst
                  (λ j.
                    find (λ (c : Credential). c.credential_id == j) (credentials_of service user s)
                    ≡ some cred)
                  (sym id) found)
              ∙ ap (λ u. some (record cred { counter = counter; user_id = u }))
                  (sym ((eq_iff cred.user_id user.id).0 owned))),
      )

  -- Only the challenge for the device may be gone.
  abbrev pub Refused : State service → HttpError → State service → Type 0
  Refused s e s' = s' ≡ record s { webauthn_challenges = s'.webauthn_challenges }

  abbrev pub DeviceLogin :
      String
      → ℕ
      → String
      → Response
      → Option String
      → State service
      → String
      → State service
      → Type 0
  DeviceLogin session_id now mfa_token response agent s token s' =
      (session : MfaSession) × (user : User) × (c : WebauthnChallenge) × Asked service now mfa_token
        session user s
      × (user.webauthn_enabled ≡ true)
      × (Dict.get s.webauthn_challenges (lower user.username) ≡ some c)
      × (now ≤ c.created_at + challenge_age)
      × Authenticated user c.challenge response s s'
      × Issued service session_id now user "mfa_webauthn" agent token s'
      × (s'.mfa_sessions ≡ Dict.delete s.mfa_sessions mfa_token)
      × (s'.webauthn_challenges ≡ Dict.delete s.webauthn_challenges (lower user.username))

  device_login :
      (session_id : String) (now : ℕ) (mfa_token : String) (response : Response)
      (agent : Option String) (s : State service) (session : MfaSession) (user : User)
      (c : WebauthnChallenge) (cred : Credential) (verification : Option ℕ) (counter : ℕ)
      → Dict.get s.mfa_sessions mfa_token ≡ some session
      → is_stale now session.created_at ≡ false
      → find_by_username service session.username s ≡ some user
      → not user.webauthn_enabled ≡ false
      → Dict.get s.webauthn_challenges (lower user.username) ≡ some c
      → is_stale now c.created_at ≡ false
      → find
          (λ (c : Credential). c.credential_id == response_id response)
          (credentials_of service user s)
        ≡ some cred
      → verify_authentication response c.challenge cred.credential_id
          (from_base64url cred.public_key)
          cred.counter
        ≡ some verification
      → verification ≡ some counter
      → Outcome
          (DeviceLogin session_id now mfa_token response agent s)
          (Refused s)
          (create_session service session_id now user.id user.username "mfa_webauthn" agent)
          (drop_mfa_session service mfa_token (
            save_with_credentials service user
              (set_counter cred.credential_id counter (credentials_of service user s))
              (record s {
                webauthn_challenges = Dict.delete s.webauthn_challenges (lower user.username);
              })))
  unfolding create_session
  device_login session_id now mfa_token response agent s session user c cred verification counter
        asked fresh known enabled offered young found judged verified =
      record {
        holds = (
          session,
          user,
          c,
          (asked, not_stale now session.created_at fresh, known),
          ground (arith, enabled),
          offered,
          not_stale now c.created_at young,
          authenticated user c.challenge response s cred counter found (judged ∙ ap some verified)
              _,
          (refl, service.sessions.at-save _ _ session_id ∙ rw eq_refl refl),
          ap (λ r. Dict.delete r.mfa_sessions mfa_token)
              (save-rest user.id
                (set_counter cred.credential_id counter (credentials_of service user s)) _),
          ap (λ r. r.webauthn_challenges)
              (save-rest user.id
                (set_counter cred.credential_id counter (credentials_of service user s)) _),
        );
      }

  -- If `verifyWebAuthnLogin` returns a token, the session for the second factor and the challenge for
  -- the user's device are at most five minutes old, WebAuthn is enabled, the answer is that of a
  -- credential of the user and was verified for its key, its counter and the challenge, the new
  -- counter is stored, the token is that of a new session of the user, and the session for the
  -- second factor and the challenge are gone. If it throws, it has changed the challenges for
  -- devices at most.
  pub verify_webauthn_login-Outcome :
      (session_id : String) (now : ℕ) (mfa_token : String) (response : Response)
      (agent : Option String) (s : State service)
      → Outcome
          (DeviceLogin session_id now mfa_token response agent s)
          (Refused s)
          (verify_webauthn_login service session_id now mfa_token response agent)
          s
  unfolding verify_webauthn_login
  verify_webauthn_login-Outcome session_id now mfa_token response agent s =
      search (outcome_rules, device_login) depth 60 fits 8000
