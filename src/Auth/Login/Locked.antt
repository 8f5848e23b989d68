-- ===== src/Auth/Login/Locked.antt =====
-- An account that is locked stays so while no row of a locked user is written.
pub mod Logins
use sentinel_vault.Common.{
  ℕ, ◌<◌, String, true, false, false≢true, ◌||◌, ◌≡◌, ◌⊎◌, inl, inr, refl, sym, subst, ap, ◌∙◌,
  Option, none, some, List, [], ◌∷◌, All, eq_iff, arith, Option-cases, Bool-cases,
}
use sentinel_vault.Common.Text.{is_empty}
use sentinel_vault.Auth.Srp.{Buffer, Verification}
use sentinel_vault.Auth.Login.{
  AuthService, User, LoginChallenge, is_locked, failed_login, reset_login, user_row,
}
use sentinel_vault.Auth.Login.Sessions.{State, find_by_username, same_name, create_session}
use sentinel_vault.Auth.Login.Handlers.{
  login_step1, login_step2, open_challenge, answer_challenge, judge_login, admit, reject, mfa_gate,
  verify_challenge, take_challenge,
}
use sentinel_vault.Auth.Login.Requests.{Op, begins, finishes, step, run}

module _ (service : AuthService) where
  open service use {users, challenges, lower}

  -- No two users have names that differ only in case.
  abbrev pub UniqueNames : users.Table → Type 0
  UniqueNames t =
      (k j : String) (r q : User)
      → users.at t k ≡ some r
      → users.at t j ≡ some q
      → lower r.username ≡ lower q.username
      → k ≡ j

  pub save-UniqueNames :
      (user : User) (t : users.Table)
      → ((k : String) (q : User)
          → users.at t k ≡ some q
          → lower q.username ≡ lower user.username
          → k ≡ user.id)
      → UniqueNames t
      → UniqueNames (users.save user t)
  save-UniqueNames user t fits unique k j r q er eq same =
      let at_k = users.at-save user t k in
      let at_j = users.at-save user t j in
      ground (arith, eq_iff user.id k, eq_iff user.id j, unique k j r q, fits k r, fits j q)

  -- The user under `id`, who has the name, is locked out until `deadline`.
  abbrev pub IsLocked : ℕ → String → String → users.Table → Type 0
  IsLocked deadline id name t =
      UniqueNames t
      × ((r : User) × (users.at t id ≡ some r)
          × (r.lockout_until ≡ some deadline)
          × (lower r.username ≡ lower name))

  locked_until :
      (deadline now : ℕ) (row : User)
      → row.lockout_until ≡ some deadline
      → now < deadline
      → is_locked now (some row) ≡ true
  locked_until deadline now row e early = rw e (ground arith)

  -- A search for the name, in any spelling, finds the locked user.
  pub IsLocked-is_locked :
      (deadline now : ℕ) (id name spelled : String) (t : users.Table)
      → IsLocked deadline id name t
      → now < deadline
      → lower spelled ≡ lower name
      → is_locked now (users.find_one (same_name service spelled) t) ≡ true
  IsLocked-is_locked deadline now id name spelled t (unique, (r, there, until, named)) early same =
      elim (Option-cases (users.find_one (same_name service spelled) t)) [
        | inl missing ↦
            let miss = users.find_one-none (same_name service spelled) t id r missing there in
            ground (arith, eq_iff (lower r.username) (lower spelled))
        | inr (w, found) ↦
            let (hit, stored) = users.find_one-some (same_name service spelled) t w found in
            let here =
              unique w.id id w r stored there
                ((eq_iff (lower w.username) (lower spelled)).0 hit ∙ same ∙ sym named) in
            let is : (w ≡ r) = ground (arith, there, stored, here) in
            rw found
              (locked_until deadline now w (ap (λ (x : User). x.lockout_until) is ∙ until) early)
      ]

  -- What a request may do to the table of users at `now`: nothing, or save the row of a user that
  -- was found by name and was not locked out.
  abbrev pub Writes : ℕ → users.Table → users.Table → Type 0
  Writes now t t' =
      (t' ≡ t)
      ⊎ ((name : String) × (q row : User) × (users.find_one (same_name service name) t ≡ some q)
          × (is_locked now (some q) ≡ false)
          × (row.id ≡ q.id)
          × (row.username ≡ q.username)
          × (t' ≡ users.save row t))

  pub Writes-IsLocked :
      (deadline now : ℕ) (id name : String) (t t' : users.Table)
      → now < deadline
      → Writes now t t'
      → IsLocked deadline id name t
      → IsLocked deadline id name t'
  Writes-IsLocked deadline now id name t t' early (inl e) locked =
      subst (IsLocked deadline id name) (sym e) locked
  Writes-IsLocked deadline now id name t t' early
        (inr (name', q, row, found, open_, same_id, same_name_, e))
        (unique, (r, there, until, named)) =
      let (hit, stored) = users.find_one-some (same_name service name') t q found in
      let apart : (row.id ≡ id → ⊥) = λ here.
        let is : (q ≡ r) = ground (arith, stored, there, same_id, here) in
        false≢true (
          sym open_
          ∙ locked_until deadline now q (ap (λ (x : User). x.lockout_until) is ∙ until) early) in
      subst (IsLocked deadline id name) (sym e) (
        save-UniqueNames row t
            (λ k p at_k like.
              unique k q.id p q at_k stored (like ∙ ap lower same_name_) ∙ sym same_id)
            unique,
        (r, users.at-save row t id ∙ ground (arith, eq_iff row.id id, apart, there), until, named),
      )
