-- ===== src/Auth/Login/PasskeyLogin.antt =====
-- What the login by a passkey does on every branch.
use sentinel_vault.Common.{
  ℕ, ◌+◌, ◌≤◌, String, false, ◌≡◌, refl, ap, ◌∙◌, Option, none, some, find, ◌==◌, eq_refl, inl, inr,
  ◌⊎◌,
}
use sentinel_vault.Common.Dict
use sentinel_vault.Common.Exec.{HttpError, bad_request}
use sentinel_vault.Common.Outcome.{Outcome, outcome_rules}
use sentinel_vault.Auth.Login.{AuthService, User, Credential, PasskeyChallenge, challenge_age}
use sentinel_vault.Auth.Login.Sessions.{State, create_session}
use sentinel_vault.Auth.Login.SecondFactor.{
  is_stale, non_empty, credentials_of, save_with_credentials, set_counter,
}
use sentinel_vault.Auth.Login.Passkey.{verify_passkey_login, passkey_user, owner_of}
use sentinel_vault.Auth.Login.Factors.{not_stale, Issued}
use sentinel_vault.Auth.Login.Devices.{Authenticated, authenticated, save-rest}

module _ (service : AuthService) where
  open service use {
    credentials, lower, from_base64url, Response, response_id, verify_authentication,
  }

  -- A challenge that is missing or too old changes nothing; any other one is used up.
  abbrev pub Attempted : String → State service → HttpError → State service → Type 0
  Attempted challenge s e s' =
      ((e ≡ bad_request) × (s' ≡ s))
      ⊎ (s' ≡ record s { passkey_challenges = Dict.delete s.passkey_challenges challenge })

  abbrev pub PasskeyLogin :
      String
      → ℕ
      → String
      → Response
      → Option String
      → State service
      → String
      → State service
      → Type 0
  PasskeyLogin session_id now challenge response agent s token s' =
      (c : PasskeyChallenge) × (user : User) × (Dict.get s.passkey_challenges challenge ≡ some c)
      × (now ≤ c.created_at + challenge_age)
      × (passkey_user service (non_empty c.username) (response_id response) s ≡ some user)
      × Authenticated service user challenge response s s'
      × Issued service session_id now user "passkey" agent token s'
      × (s'.passkey_challenges ≡ Dict.delete s.passkey_challenges challenge)
      × (s'.mfa_sessions ≡ s.mfa_sessions)

  untouched : (challenge : String) (s : State service) → Attempted challenge s bad_request s
  untouched challenge s = inl (refl, refl)

  used_up :
      (challenge : String) (s : State service) (e : HttpError)
      → Attempted challenge s e
          (record s { passkey_challenges = Dict.delete s.passkey_challenges challenge })
  used_up challenge s e = inr refl

  same_owner :
      (o : Option Credential) (challenge : String) (s : State service)
      → owner_of service o s
        ≡ owner_of service o
            (record s { passkey_challenges = Dict.delete s.passkey_challenges challenge })
  same_owner none challenge s = refl
  same_owner (some c) challenge s = refl

  same_user :
      (name : Option String) (id challenge : String) (s : State service)
      → passkey_user service name id s
        ≡ passkey_user service name id
            (record s { passkey_challenges = Dict.delete s.passkey_challenges challenge })
  same_user none id challenge s = same_owner (credentials.at s.credential_table id) challenge s
  same_user (some name) id challenge s = refl

  passkey_login :
      (session_id : String) (now : ℕ) (challenge : String) (response : Response)
      (agent : Option String) (s : State service) (c : PasskeyChallenge) (user : User)
      (cred : Credential) (verification : Option ℕ) (counter : ℕ)
      → Dict.get s.passkey_challenges challenge ≡ some c
      → is_stale now c.created_at ≡ false
      → passkey_user service
          (non_empty c.username)
          (response_id response)
          (record s { passkey_challenges = Dict.delete s.passkey_challenges challenge })
        ≡ some user
      → find
          (λ (c : Credential). c.credential_id == response_id response)
          (credentials_of service user s)
        ≡ some cred
      → verify_authentication response challenge cred.credential_id
          (from_base64url cred.public_key)
          cred.counter
        ≡ some verification
      → verification ≡ some counter
      → Outcome
          (PasskeyLogin session_id now challenge response agent s)
          (Attempted challenge s)
          (create_session service session_id now user.id user.username "passkey" agent)
          (save_with_credentials service user
            (set_counter cred.credential_id counter (credentials_of service user s))
            (record s { passkey_challenges = Dict.delete s.passkey_challenges challenge }))
  unfolding create_session
  passkey_login session_id now challenge response agent s c user cred verification counter offered
        young known found judged verified =
      record {
        holds = (
          c,
          user,
          offered,
          not_stale now c.created_at young,
          same_user (non_empty c.username) (response_id response) challenge s ∙ known,
          authenticated service user challenge response s cred counter found
              (judged ∙ ap some verified) _,
          (refl, service.sessions.at-save _ _ session_id ∙ rw eq_refl refl),
          ap (λ r. r.passkey_challenges)
              (save-rest service user.id
                (set_counter cred.credential_id counter (credentials_of service user s)) _),
          ap (λ r. r.mfa_sessions)
              (save-rest service user.id
                (set_counter cred.credential_id counter (credentials_of service user s)) _),
        );
      }

  -- If `verifyPasskeyLogin` returns a token, the challenge was stored at most five minutes ago and is
  -- gone, its user, or with no user the owner of the answering credential, is known, the answer is
  -- that of a credential of this user and was verified for its key, its counter and the challenge,
  -- the new counter is stored, and the token is that of a new session of the user. If it throws, it
  -- has deleted the challenge and done nothing else, or it is a bad request and has changed nothing.
  pub verify_passkey_login-Outcome :
      (session_id : String) (now : ℕ) (challenge : String) (response : Response)
      (agent : Option String) (s : State service)
      → Outcome
          (PasskeyLogin session_id now challenge response agent s)
          (Attempted challenge s)
          (verify_passkey_login service session_id now challenge response agent)
          s
  unfolding verify_passkey_login
  verify_passkey_login-Outcome session_id now challenge response agent s =
      search (outcome_rules, passkey_login, untouched, used_up) depth 60 fits 8000
