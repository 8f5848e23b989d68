-- ===== src/Auth/Login/Token.antt =====
-- When the second step of the login answers with a session token.
use sentinel_vault.Common.{
  ℕ, String, true, false, ◌≡◌, inl, inr, refl, sym, ap, ◌∙◌, Option, none, some, eq_refl, arith,
  Option-cases, Bool-cases,
}
use sentinel_vault.Common.Exec.{ok}
use sentinel_vault.Auth.Srp.{Buffer, Verification}
use sentinel_vault.Auth.Login.{AuthService, User, LoginChallenge, logged_in, is_locked, reset_login}
use sentinel_vault.Auth.Login.Sessions.{State, find_by_username, create_session, new_session}
use sentinel_vault.Auth.Login.Handlers.{
  login_step2, answer_challenge, admit, mfa_gate, verify_challenge, take_challenge,
}

module _ (service : AuthService) where
  open service use {users, sessions, challenges, sign, token_digest}

  -- The user needs no second factor, and the token is that of a new session.
  abbrev pub Opened : String → ℕ → User → Option String → String → State service → Type 0
  Opened session_id now user agent token s =
      (user.totp_enabled ≡ false)
      × (user.webauthn_enabled ≡ false)
      × (token ≡ sign user.id user.username session_id)
      × (sessions.at s.session_table session_id
          ≡ some (record (new_session service session_id now user.id "srp-6a" agent) {
            token_hash = some (token_digest token);
          }))

  gate-Opened :
      (mfa_token session_id : String) (now : ℕ) (user : User) (evidence ev : Option Buffer)
      (agent : Option String) (s : State service) (token : String)
      → (mfa_gate service mfa_token session_id now user evidence agent s).0
        ≡ ok (logged_in ev token)
      → Opened session_id now user agent token
          (mfa_gate service mfa_token session_id now user evidence agent s).1
  unfolding create_session
  gate-Opened mfa_token session_id now user evidence ev agent s token =
      elim (Bool-cases user.totp_enabled) [
        | inl app ↦ rw app (λ h. cc)
        | inr no_app ↦ elim (Bool-cases user.webauthn_enabled) [
          | inl device ↦ rw (no_app, device) (λ h. cc)
          | inr no_device ↦
              rw (no_app, no_device)
                (λ h.
                  let signed : (sign user.id user.username session_id ≡ token) =
                    ground (arith, h) in
                  (
                    refl,
                    refl,
                    sym signed,
                    sessions.at-save _ _ session_id ∙ rw (eq_refl, signed) refl,
                  ))
        ]
      ]

  admit-Opened :
      (mfa_token session_id : String) (now : ℕ) (o : Option User) (name : String) (v : Verification)
      (agent : Option String) (s : State service) (ev : Option Buffer) (token : String)
      → (admit service mfa_token session_id now o name v agent s).0 ≡ ok (logged_in ev token)
      → (user : User) × (o ≡ some user)
        × (v.success ≡ true)
        × Opened session_id now user agent token
            (admit service mfa_token session_id now o name v agent s).1
  admit-Opened mfa_token session_id now none name v agent s ev token = λ h. cc
  admit-Opened mfa_token session_id now (some user) name v agent s ev token =
      elim (Bool-cases v.success) [
        | inr wrong ↦ rw wrong (λ h. cc)
        | inl passed ↦ rw passed (λ h. (
          user,
          refl,
          refl,
          gate-Opened mfa_token session_id now (reset_login user) v.server_evidence ev agent _ token
              h,
        ))
      ]

  answer-Opened :
      (mfa_token session_id : String) (now : ℕ) (m1_hex : String) (agent : Option String)
      (o : Option LoginChallenge) (s : State service) (ev : Option Buffer) (token : String)
      → (answer_challenge service mfa_token session_id now m1_hex agent o s).0
        ≡ ok (logged_in ev token)
      → (c : LoginChallenge) × (user : User) × (v : Verification) × (o ≡ some c)
        × (find_by_username service c.username s ≡ some user)
        × (is_locked now (some user) ≡ false)
        × (verify_challenge service c m1_hex ≡ some v)
        × (v.success ≡ true)
        × Opened session_id now user agent token
            (answer_challenge service mfa_token session_id now m1_hex agent o s).1
  answer-Opened mfa_token session_id now m1_hex agent none s ev token = λ h. cc
  answer-Opened mfa_token session_id now m1_hex agent (some c) s ev token =
      let found = find_by_username service c.username s in
      elim (Bool-cases (is_locked now found)) [
        | inl shut ↦ rw shut (λ h. cc)
        | inr open_ ↦ rw open_ (elim (Option-cases (verify_challenge service c m1_hex)) [
          | inl throws ↦ rw throws (λ h. cc)
          | inr (v, returns) ↦ rw returns (λ h.
              let (user, known, passed, opened) =
                admit-Opened mfa_token session_id now found c.username v agent s ev token h in
              (
                c,
                user,
                v,
                refl,
                known,
                sym (ap (is_locked now) known) ∙ open_,
                returns,
                passed,
                opened,
              ))
        ])
      ]

  -- If `loginStep2` answers with a session token, then Redis held the challenge, its user exists and
  -- is not locked out, the client's evidence was verified, the user has no second factor enabled,
  -- and the token is the signed one of a session that is stored with the token's digest.
  pub token_needs :
      (mfa_token session_id : String) (now : ℕ) (id m1_hex : String) (agent : Option String)
      (s : State service) (ev : Option Buffer) (token : String)
      → (login_step2 service mfa_token session_id now id m1_hex agent s).0 ≡ ok (logged_in ev token)
      → (c : LoginChallenge) × (user : User) × (v : Verification) × (challenges.read now id
            s.challenge_store
          ≡ some c)
        × (find_by_username service c.username s ≡ some user)
        × (is_locked now (some user) ≡ false)
        × (verify_challenge service c m1_hex ≡ some v)
        × (v.success ≡ true)
        × Opened session_id now user agent token
            (login_step2 service mfa_token session_id now id m1_hex agent s).1
  unfolding login_step2
  token_needs mfa_token session_id now id m1_hex agent s ev token =
      answer-Opened mfa_token session_id now m1_hex agent (challenges.read now id s.challenge_store)
        (take_challenge service id s) ev token
