-- ===== src/Auth/Login/Factors.antt =====
-- What the handlers that check a second factor or a passkey do on every branch.
use sentinel_vault.Common.{
  ℕ, ◌+◌, ◌≤◌, String, Bool, true, false, not, ◌≡◌, refl, ap, subst, ◌∙◌, Option, none, some, List,
  find, any, false≢true, sym, [], ◌∷◌, eq_iff, ◌==◌, arith, eq_refl, inl, inr, Bool-cases,
}
use sentinel_vault.Common.Dict
use sentinel_vault.Common.Outcome.{Outcome, outcome_rules}
use sentinel_vault.Common.Equality.{string_eq}
use sentinel_vault.Common.Repository.{Distinct}
use sentinel_vault.Auth.Totp.Codes.{verify_code}
use sentinel_vault.Auth.Login.{
  AuthService, User, Credential, credential_key, MfaSession, challenge_age,
}
use sentinel_vault.Auth.Login.Sessions.{State, find_by_username, create_session, new_session}
use sentinel_vault.Auth.Login.SecondFactor.{
  is_stale, non_empty, verify_totp, drop_mfa_session, save_credentials, set_counter,
}

pub not_stale : (now created : ℕ) → is_stale now created ≡ false → now ≤ created + challenge_age
not_stale now created h = ground arith

non_empty-some : (o : Option String) (s : String) → non_empty o ≡ some s → o ≡ some s
non_empty-some none s h = cc
non_empty-some (some t) s h = ground arith

pub find-some :
    (id : String) (cs : List Credential) (cred : Credential)
    → find (λ (c : Credential). c.credential_id == id) cs ≡ some cred
    → cred.credential_id ≡ id
find-some id [] cred h = cc
find-some id (c ∷ cs) cred h = ground (arith, eq_iff c.credential_id id, find-some id cs cred)

module _ (service : AuthService) where
  open service use {users, sessions, credentials, sign, token_digest, hmac_sha1, upper}

  -- The token is that of a session of the user, which is stored with the token's digest.
  abbrev pub Issued : String → ℕ → User → String → Option String → String → State service → Type 0
  Issued session_id now user method agent token s =
      (token ≡ sign user.id user.username session_id)
      × (sessions.at s.session_table session_id
          ≡ some (record (new_session service session_id now user.id method agent) {
            token_hash = some (token_digest token);
          }))

  -- The second factor is asked for a session that the password opened at most five minutes ago.
  abbrev pub Asked : ℕ → String → MfaSession → User → State service → Type 0
  Asked now mfa_token session user s =
      (Dict.get s.mfa_sessions mfa_token ≡ some session)
      × (now ≤ session.created_at + challenge_age)
      × (find_by_username service session.username s ≡ some user)

  abbrev pub TotpLogin :
      String → ℕ → String → String → Option String → State service → String → State service → Type 0
  TotpLogin session_id now mfa_token code agent s token s' =
      (session : MfaSession) × (user : User) × (secret : String) × Asked now mfa_token session user
        s
      × (user.totp_enabled ≡ true)
      × (user.totp_secret ≡ some secret)
      × (verify_code hmac_sha1 upper now secret code 1 ≡ some true)
      × Issued session_id now user "mfa_totp" agent token s'
      × (s'.mfa_sessions ≡ Dict.delete s.mfa_sessions mfa_token)

  totp_login :
      (session_id : String) (now : ℕ) (mfa_token code : String) (agent : Option String)
      (s : State service) (session : MfaSession) (user : User) (secret : String) (valid : Bool)
      → Dict.get s.mfa_sessions mfa_token ≡ some session
      → is_stale now session.created_at ≡ false
      → find_by_username service session.username s ≡ some user
      → not user.totp_enabled ≡ false
      → non_empty user.totp_secret ≡ some secret
      → verify_code hmac_sha1 upper now secret code 1 ≡ some valid
      → not valid ≡ false
      → Outcome
          (TotpLogin session_id now mfa_token code agent s)
          (λ e s'. s' ≡ s)
          (create_session service session_id now user.id user.username "mfa_totp" agent)
          (drop_mfa_session service mfa_token s)
  unfolding create_session
  totp_login session_id now mfa_token code agent s session user secret valid asked fresh known
        enabled kept judged right =
      record {
        holds = (
          session,
          user,
          secret,
          (asked, not_stale now session.created_at fresh, known),
          ground (arith, enabled),
          non_empty-some user.totp_secret secret kept,
          judged ∙ ap some (ground (arith, right)),
          (refl, sessions.at-save _ _ session_id ∙ rw eq_refl refl),
          refl,
        );
      }

  -- If `verifyTotp` returns a token, the session for the second factor is at most five minutes old
  -- and its user has codes enabled, the code was verified for the user's secret, the token is that
  -- of a new session of the user, and the session for the second factor is gone. If it throws, it
  -- has changed nothing.
  pub verify_totp-Outcome :
      (session_id : String) (now : ℕ) (mfa_token code : String) (agent : Option String)
      (s : State service)
      → Outcome
          (TotpLogin session_id now mfa_token code agent s)
          (λ e s'. s' ≡ s)
          (verify_totp service session_id now mfa_token code agent)
          s
  unfolding verify_totp
  verify_totp-Outcome session_id now mfa_token code agent s =
      search (outcome_rules, totp_login) depth 40 fits 5000

  save-other :
      (user id : String) (cs : List Credential) (s : State service)
      → any (λ (c : Credential). c.credential_id == id) cs ≡ false
      → credentials.at (save_credentials service user cs s).credential_table id
        ≡ credentials.at s.credential_table id
  save-other user id [] s h = refl
  save-other user id (c ∷ cs) s h = elim (Bool-cases (c.credential_id == id)) [
    | inl same ↦ absurd (false≢true (sym h ∙ rw same refl))
    | inr other ↦
        save-other user id cs _ (rw other at h)
        ∙ credentials.at-save (record c { user_id = user }) s.credential_table id
        ∙ rw other refl
  ]

  pub save-counter :
      (user id : String) (n : ℕ) (cs : List Credential) (cred : Credential) (s : State service)
      → Distinct credential_key cs
      → find (λ (c : Credential). c.credential_id == id) cs ≡ some cred
      → credentials.at (save_credentials service user (set_counter id n cs) s).credential_table id
        ≡ some (record cred { counter = n; user_id = user })
  save-counter user id n [] cred s d h = cc
  save-counter user id n (c ∷ cs) cred s d h = elim (Bool-cases (c.credential_id == id)) [
    | inl same ↦
        let key : (c.credential_id ≡ id) = (eq_iff c.credential_id id).0 same in
        let found : (c ≡ cred) = ground (arith, same, h) in
        rw same (
          save-other user id cs _
            (subst (λ j. any (λ (x : Credential). x.credential_id == j) cs ≡ false) key d.0)
          ∙ credentials.at-save (record c { counter = n; user_id = user }) s.credential_table id
          ∙ rw same
              (ap (λ (x : Credential). some (record x { counter = n; user_id = user })) found))
    | inr other ↦ rw other (save-counter user id n cs cred _ d.1 (rw other at h))
  ]
