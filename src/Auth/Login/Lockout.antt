-- ===== src/Auth/Login/Lockout.antt =====
-- Failed logins lock an account; a successful one reaches the second factor.
use sentinel_vault.Common.{
  ℕ, ◌+◌, ◌*◌, ◌≤◌, ◌<◌, String, true, false, ◌||◌, if◌then◌else◌, ◌≡◌, refl, sym, subst, ap, ◌∙◌,
  Option, none, some, leb, eq_iff, arith, List, All,
}
use sentinel_vault.Common.Text.{is_empty}
use sentinel_vault.Common.Exec.{err, bad_request, unauthorized, locked}
use sentinel_vault.Auth.Srp.{Buffer, Verification}
use sentinel_vault.Auth.Login.{AuthService, User, LoginChallenge, is_locked, failed_login, user_row}
use sentinel_vault.Auth.Login.Sessions.{State, find_by_username, same_name}
use sentinel_vault.Auth.Login.Locked.{UniqueNames, save-UniqueNames, IsLocked, IsLocked-is_locked}
use sentinel_vault.Auth.Login.Locked.Logins.{IsLoginBefore, run-IsLocked}
use sentinel_vault.Auth.Login.Requests.{Op, run}
use sentinel_vault.Auth.Login.Handlers.{login_step1, login_step2, verify_challenge}

module _ (service : AuthService) where
  open service use {users, challenges, lower}

  locked_refused :
      (id : String) (random : Buffer) (now : ℕ) (name a_hex : String) (s : State service)
      → is_locked now (find_by_username service name s) ≡ true
      → login_step1 service id random now name a_hex s
        ≡ (if is_empty name || is_empty a_hex then err bad_request else err locked, s)
  unfolding login_step1
  locked_refused id random now name a_hex s shut = ground (arith, shut)

  rejected :
      (mfa_token session_id : String) (now : ℕ) (id m1_hex : String) (agent : Option String)
      (s : State service) (c : LoginChallenge) (user : User) (v : Verification)
      → challenges.read now id s.challenge_store ≡ some c
      → find_by_username service c.username s ≡ some user
      → is_locked now (some user) ≡ false
      → verify_challenge service c m1_hex ≡ some v
      → v.success ≡ false
      → let done = login_step2 service mfa_token session_id now id m1_hex agent s in
        (done.0 ≡ err unauthorized)
        × (done.1.user_table
            ≡ users.save
                (user_row (find_by_username service user.username s) (failed_login now user))
                s.user_table)
  unfolding login_step2
  rejected mfa_token session_id now id m1_hex agent s c user v held known open_ checked wrong =
      rw (held, known, open_, checked, wrong) (refl, refl)

  row_same :
      (o : Option User) (user : User)
      → ((user_row o user).id ≡ user.id)
        × ((user_row o user).username ≡ user.username)
        × ((user_row o user).lockout_until ≡ user.lockout_until)
  row_same none user = (refl, refl, refl)
  row_same (some existing) user = (refl, refl, refl)

  lockout_set :
      (now : ℕ) (user : User)
      → 4 ≤ user.failed_attempts
      → (failed_login now user).lockout_until ≡ some (now + 15 * 60 * 1000)
  lockout_set now user many =
      let enough : (leb 5 (user.failed_attempts + 1) ≡ true) = ground arith in rw enough refl

  -- The row of the user is saved as locked out.
  fifth-IsLocked :
      (now : ℕ) (name : String) (user : User) (o : Option User) (t : users.Table)
      → UniqueNames service t
      → users.find_one (same_name service name) t ≡ some user
      → 4 ≤ user.failed_attempts
      → IsLocked service
          (now + 15 * 60 * 1000)
          user.id
          name
          (users.save (user_row o (failed_login now user)) t)
  fifth-IsLocked now name user o t unique known many =
      let row = user_row o (failed_login now user) in
      let (same_id, same_user, same_lock) = row_same o (failed_login now user) in
      let (hit, stored) = users.find_one-some (same_name service name) t user known in
      (
        save-UniqueNames service row t
            (λ k q e n. unique k user.id q user e stored (n ∙ ap lower same_user) ∙ sym same_id)
            unique,
        (
          row,
          users.at-save row t user.id ∙ rw ((eq_iff row.id user.id).1 same_id) refl,
          same_lock ∙ lockout_set now user many,
          ap lower same_user ∙ (eq_iff (lower user.username) (lower name)).0 hit,
        ),
      )

  -- If no two users have names that differ only in case, and a user with four failed logins or more,
  -- who is not locked out, answers a challenge with evidence that does not verify, then the answer is
  -- unauthorized, and after any further logins that are begun, or whose challenges are answered
  -- within fifteen minutes, by anyone, `loginStep1` refuses within the fifteen minutes every request
  -- for that user, in any spelling of the name, and changes nothing: as locked, or as a bad request
  -- if the name or the public number is empty.
  pub fifth_failure_locks :
      (mfa_token session_id : String) (now : ℕ) (id m1_hex : String) (agent : Option String)
      (s : State service) (c : LoginChallenge) (user : User) (v : Verification)
      (ops : List (Op service))
      → UniqueNames service s.user_table
      → challenges.read now id s.challenge_store ≡ some c
      → find_by_username service c.username s ≡ some user
      → is_locked now (some user) ≡ false
      → verify_challenge service c m1_hex ≡ some v
      → v.success ≡ false
      → 4 ≤ user.failed_attempts
      → All (IsLoginBefore service (now + 15 * 60 * 1000)) ops
      → let done = login_step2 service mfa_token session_id now id m1_hex agent s in
        (done.0 ≡ err unauthorized)
        × ((id' : String) (random : Buffer) (now' : ℕ) (name a_hex : String)
            → now' < now + 15 * 60 * 1000
            → lower name ≡ lower c.username
            → login_step1 service id' random now' name a_hex (run service ops done.1) ≡ (
              if is_empty name || is_empty a_hex then err bad_request else err locked,
              run service ops done.1,
            ))
  fifth_failure_locks mfa_token session_id now id m1_hex agent s c user v ops unique held known
        open_ checked wrong many logins =
      let deadline = now + 15 * 60 * 1000 in
      let after = (login_step2 service mfa_token session_id now id m1_hex agent s).1 in
      let (answer, table) =
        rejected mfa_token session_id now id m1_hex agent s c user v held known open_ checked
          wrong in
      let shut : IsLocked service deadline user.id c.username after.user_table =
        subst (IsLocked service deadline user.id c.username) (sym table) (
          fifth-IsLocked now c.username user (find_by_username service user.username s) s.user_table
            unique known many) in
      (
        answer,
        λ id' random now' name a_hex early named.
            locked_refused id' random now' name a_hex (run service ops after) (
              IsLocked-is_locked service deadline now' user.id c.username name
                (run service ops after).user_table
                (run-IsLocked service deadline user.id c.username ops after logins shut) early
                named),
      )
