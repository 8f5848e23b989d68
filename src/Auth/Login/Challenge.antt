-- ===== src/Auth/Login/Challenge.antt =====
-- A login challenge is used at most once.
use sentinel_vault.Common.{
  ℕ, String, Bool, false, ◌≡◌, refl, ◌∙◌, Option, none, List, [], ◌∷◌, All, ◌==◌, eq_refl,
  Bool-cases, inl, inr,
}
use sentinel_vault.Common.Exec.{err, unauthorized}
use sentinel_vault.Auth.Login.{AuthService}
use sentinel_vault.Auth.Login.Sessions.{State}
use sentinel_vault.Auth.Login.Handlers.{login_step2, take_challenge}
use sentinel_vault.Auth.Login.Requests.{Op, begins, finishes, offers_passkey, run}
use sentinel_vault.Auth.Login.Frames.{IsStable, Allows}
use sentinel_vault.Auth.Login.Frames.History.{answer-kept, run-kept}

-- The request stores a challenge under the identifier.
abbrev pub begins_under : String → {service : AuthService} → Op service → Bool
begins_under k (begins id random now name a_hex) = id == k
begins_under k op = false

module _ (service : AuthService) where
  open service use {challenges}

  -- Redis holds no challenge under the identifier, now or later.
  abbrev Spent : String → State service → Type 0
  Spent id s = (now : ℕ) → challenges.read now id s.challenge_store ≡ none

  taken-Spent :
      (id k : String) (s : State service) → Spent id s → Spent id (take_challenge service k s)
  taken-Spent id k s spent now =
      challenges.read-del now k id s.challenge_store
      ∙ elim (Bool-cases (k == id)) [ inl same ↦ rw same refl | inr other ↦ rw other (spent now) ]

  Spent-IsStable : (id : String) → IsStable service (Spent id)
  Spent-IsStable id = record {
    users_kept = λ t s h. h;
    sessions_kept = λ t s h. h;
    credentials_kept = λ t s h. h;
    denied_kept = λ t s h. h;
    audit_kept = λ l s h. h;
    webauthn_kept = λ m s h. h;
    mfa_dropped = λ k s h. h;
    challenge_taken = λ k s h. taken-Spent id k s h;
    passkey_taken = λ k s h. h;
    pruned = λ now s h. h;
  }

  Spent-Allows :
      (id : String) (op : Op service) → begins_under id op ≡ false → Allows service (Spent id) op
  Spent-Allows id (begins k random now name a_hex) e = λ c s spent now'.
      challenges.read-set_ex now now' k id c 300 s.challenge_store ∙ rw e (spent now')
  Spent-Allows id (finishes mfa_token session_id now k m1_hex agent) e = λ m s spent. spent
  Spent-Allows id (offers_passkey challenge now name) e = λ c s spent. spent
  Spent-Allows id op e = tt

  All-Allows :
      (id : String) (ops : List (Op service))
      → All (λ op. begins_under id op ≡ false) ops
      → All (Allows service (Spent id)) ops
  All-Allows id [] h = tt
  All-Allows id (op ∷ ops) h = (Spent-Allows id op h.0, All-Allows id ops h.1)

  -- The second step spends its challenge, whatever it answers.
  finish-spends :
      (mfa_token session_id : String) (now : ℕ) (id m1_hex : String) (agent : Option String)
      (s : State service)
      → Spent id (login_step2 service mfa_token session_id now id m1_hex agent s).1
  unfolding login_step2
  finish-spends mfa_token session_id now id m1_hex agent s =
      answer-kept service (Spent id) (Spent-IsStable id) mfa_token session_id now m1_hex agent
        (challenges.read now id s.challenge_store) (take_challenge service id s)
        (λ m s' spent. spent) (λ t. challenges.read-del t id id s.challenge_store ∙ rw eq_refl refl)

  no_challenge_refused :
      (mfa_token session_id : String) (now : ℕ) (id m1_hex : String) (agent : Option String)
      (s : State service)
      → Spent id s
      → (login_step2 service mfa_token session_id now id m1_hex agent s).0 ≡ err unauthorized
  unfolding login_step2
  no_challenge_refused mfa_token session_id now id m1_hex agent s spent = rw (spent now) refl

  -- A login challenge is answered at most once: after `loginStep2` with its identifier, whatever it
  -- answered, any further `loginStep2` with that identifier is refused as unauthorized, whatever
  -- requests come in between, if none of them stores a challenge under the same identifier.
  pub challenge_used_once :
      (mfa_token session_id mfa_token' session_id' : String) (now now' : ℕ)
      (id m1_hex m1_hex' : String) (agent agent' : Option String) (ops : List (Op service))
      (s : State service)
      → All (λ op. begins_under id op ≡ false) ops
      → (login_step2 service mfa_token' session_id' now' id m1_hex' agent'
          (run service ops (login_step2 service mfa_token session_id now id m1_hex agent s).1)).0
        ≡ err unauthorized
  challenge_used_once mfa_token session_id mfa_token' session_id' now now' id m1_hex m1_hex' agent
        agent' ops s quiet =
      no_challenge_refused mfa_token' session_id' now' id m1_hex' agent' _ (
        run-kept service (Spent id) (Spent-IsStable id) ops
          (login_step2 service mfa_token session_id now id m1_hex agent s).1
          (All-Allows id ops quiet) (finish-spends mfa_token session_id now id m1_hex agent s))
