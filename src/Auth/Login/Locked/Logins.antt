-- ===== src/Auth/Login/Locked/Logins.antt =====
-- Logins that are begun and answered leave a locked account locked.
use sentinel_vault.Common.{
  ℕ, ◌<◌, String, false, ◌||◌, ◌≡◌, inl, inr, refl, sym, subst, Option, none, some, List, [], ◌∷◌,
  All, Bool-cases,
}
use sentinel_vault.Common.Text.{is_empty}
use sentinel_vault.Auth.Srp.{Buffer, Verification}
use sentinel_vault.Auth.Login.{
  AuthService, User, LoginChallenge, is_locked, failed_login, reset_login, user_row,
}
use sentinel_vault.Auth.Login.Sessions.{State, find_by_username, create_session}
use sentinel_vault.Auth.Login.Handlers.{
  login_step1, login_step2, open_challenge, answer_challenge, judge_login, admit, mfa_gate,
  verify_challenge, take_challenge,
}
use sentinel_vault.Auth.Login.Requests.{Op, begins, finishes, step, run}
use sentinel_vault.Auth.Login.Locked.{IsLocked, Writes, Writes-IsLocked}

module _ (service : AuthService) where
  open service use {users, challenges, lower}

  create_session-users :
      (uuid : String) (now : ℕ) (user name method : String) (agent : Option String)
      (s : State service)
      → (create_session service uuid now user name method agent s).1.user_table ≡ s.user_table
  unfolding create_session
  create_session-users uuid now user name method agent s = refl

  gate-users :
      (mfa_token session_id : String) (now : ℕ) (user : User) (evidence : Option Buffer)
      (agent : Option String) (s : State service)
      → (mfa_gate service mfa_token session_id now user evidence agent s).1.user_table
        ≡ s.user_table
  unfolding create_session
  gate-users mfa_token session_id now user evidence agent s =
      elim (Bool-cases (user.totp_enabled || user.webauthn_enabled)) [
        | inl second ↦ rw second refl
        | inr plain ↦ rw plain refl
      ]

  row_same :
      (o : Option User) (user : User)
      → ((user_row o user).id ≡ user.id) × ((user_row o user).username ≡ user.username)
  row_same none user = (refl, refl)
  row_same (some existing) user = (refl, refl)

  admit-Writes :
      (mfa_token session_id : String) (now : ℕ) (o : Option User) (name : String) (v : Verification)
      (agent : Option String) (s : State service)
      → find_by_username service name s ≡ o
      → is_locked now o ≡ false
      → Writes service now s.user_table
          (admit service mfa_token session_id now o name v agent s).1.user_table
  admit-Writes mfa_token session_id now none name v agent s e open_ = inl refl
  admit-Writes mfa_token session_id now (some q) name v agent s e open_ =
      let stored = find_by_username service q.username s in
      elim (Bool-cases v.success) [
        | inl right ↦
            let (same_id, same_user) = row_same stored (reset_login q) in
            rw right (
              inr (
                name,
                q,
                user_row stored (reset_login q),
                e,
                open_,
                same_id,
                same_user,
                gate-users mfa_token session_id now (reset_login q) v.server_evidence agent _,
              ))
        | inr wrong ↦
            let (same_id, same_user) = row_same stored (failed_login now q) in
            rw wrong (
              inr
                (name, q, user_row stored (failed_login now q), e, open_, same_id, same_user, refl))
      ]

  judge-Writes :
      (mfa_token session_id : String) (now : ℕ) (name : String) (o : Option Verification)
      (agent : Option String) (s : State service)
      → is_locked now (find_by_username service name s) ≡ false
      → Writes service now s.user_table
          (judge_login service mfa_token session_id now
            (find_by_username service name s)
            name
            o
            agent
            s).1.user_table
  judge-Writes mfa_token session_id now name none agent s open_ = inl refl
  judge-Writes mfa_token session_id now name (some v) agent s open_ =
      admit-Writes mfa_token session_id now (find_by_username service name s) name v agent s refl
        open_

  answer-Writes :
      (mfa_token session_id : String) (now : ℕ) (m1_hex : String) (agent : Option String)
      (o : Option LoginChallenge) (s : State service)
      → Writes service now s.user_table
          (answer_challenge service mfa_token session_id now m1_hex agent o s).1.user_table
  answer-Writes mfa_token session_id now m1_hex agent none s = inl refl
  answer-Writes mfa_token session_id now m1_hex agent (some c) s =
      elim (Bool-cases (is_locked now (find_by_username service c.username s))) [
        | inl shut ↦ rw shut (inl refl)
        | inr open_ ↦ rw open_ (
            judge-Writes mfa_token session_id now c.username (verify_challenge service c m1_hex)
              agent s open_)
      ]

  step2-Writes :
      (mfa_token session_id : String) (now : ℕ) (id m1_hex : String) (agent : Option String)
      (s : State service)
      → Writes service now s.user_table
          (login_step2 service mfa_token session_id now id m1_hex agent s).1.user_table
  unfolding login_step2
  step2-Writes mfa_token session_id now id m1_hex agent s =
      answer-Writes mfa_token session_id now m1_hex agent (challenges.read now id s.challenge_store)
        (take_challenge service id s)

  open-users :
      (id : String) (now : ℕ) (o : Option LoginChallenge) (s : State service)
      → (open_challenge service id now o s).1.user_table ≡ s.user_table
  open-users id now none s = refl
  open-users id now (some c) s = refl

  step1-users :
      (id : String) (random : Buffer) (now : ℕ) (name a_hex : String) (s : State service)
      → (login_step1 service id random now name a_hex s).1.user_table ≡ s.user_table
  unfolding login_step1
  step1-users id random now name a_hex s = elim (Bool-cases (is_empty name || is_empty a_hex)) [
    | inl missing ↦ rw missing refl
    | inr given ↦ rw given (elim (Bool-cases (is_locked now (find_by_username service name s))) [
      | inl shut ↦ rw shut refl
      | inr open_ ↦ rw open_ (open-users id now _ s)
    ])
  ]

  -- The request begins a login, or answers a challenge before the deadline.
  abbrev pub IsLoginBefore : ℕ → Op service → Type 0
  IsLoginBefore deadline (begins id random now name a_hex) = Unit
  IsLoginBefore deadline (finishes mfa_token session_id now id m1_hex agent) = now < deadline
  IsLoginBefore deadline op = ⊥

  step-IsLocked :
      (deadline : ℕ) (id name : String) (op : Op service) (s : State service)
      → IsLoginBefore deadline op
      → IsLocked service deadline id name s.user_table
      → IsLocked service deadline id name (step service op s).user_table
  unfolding step
  step-IsLocked deadline id name (begins c random now who a_hex) s login locked =
      subst (IsLocked service deadline id name) (sym (step1-users c random now who a_hex s)) locked
  step-IsLocked deadline id name (finishes mfa session now c m1_hex agent) s login locked =
      Writes-IsLocked service deadline now id name s.user_table _ login
        (step2-Writes mfa session now c m1_hex agent s) locked
  step-IsLocked deadline id name op s login locked = absurd login

  pub run-IsLocked :
      (deadline : ℕ) (id name : String) (ops : List (Op service)) (s : State service)
      → All (IsLoginBefore deadline) ops
      → IsLocked service deadline id name s.user_table
      → IsLocked service deadline id name (run service ops s).user_table
  unfolding run
  run-IsLocked deadline id name [] s logins locked = locked
  run-IsLocked deadline id name (op ∷ ops) s logins locked =
      run-IsLocked deadline id name ops (step service op s) logins.1
        (step-IsLocked deadline id name op s logins.0 locked)
