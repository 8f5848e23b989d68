-- ===== src/Auth/Login/Replay.antt =====
-- A session for the second factor, and a passkey challenge, each open at most one token session.
use sentinel_vault.Common.{
  ℕ, String, Bool, false, ◌≡◌, ◌≢◌, refl, ap, ◌∙◌, Option, none, List, [], ◌∷◌, All, ◌==◌, eq_refl,
  arith, Bool-cases, inl, inr,
}
use sentinel_vault.Common.Dict
use sentinel_vault.Common.Dict.{Dict}
use sentinel_vault.Common.Exec.{Exec, Result, ok, err, unauthorized, bad_request}
use sentinel_vault.Auth.Login.{AuthService, MfaSession, PasskeyChallenge, mfa_fresh, passkeys_fresh}
use sentinel_vault.Auth.Login.Sessions.{State}
use sentinel_vault.Auth.Login.SecondFactor.{verify_totp, verify_webauthn_login}
use sentinel_vault.Auth.Login.Passkey.{verify_passkey_login}
use sentinel_vault.Common.Outcome.{Outcome-ok, Outcome-err}
use sentinel_vault.Auth.Login.Factors.{verify_totp-Outcome}
use sentinel_vault.Auth.Login.Devices.{verify_webauthn_login-Outcome}
use sentinel_vault.Auth.Login.PasskeyLogin.{verify_passkey_login-Outcome}
use sentinel_vault.Auth.Login.Requests.{Op, begins, finishes, offers_passkey, run}
use sentinel_vault.Auth.Login.Frames.{IsStable, Allows}
use sentinel_vault.Auth.Login.Frames.History.{run-kept}

mfa_fresh-none :
    (now : ℕ) (k : String) (m : Dict MfaSession)
    → Dict.get m k ≡ none
    → Dict.get (mfa_fresh now m) k ≡ none
unfolding mfa_fresh Dict.get
mfa_fresh-none now k [] h = refl
mfa_fresh-none now k ((j, v) ∷ m) h = ground (arith, mfa_fresh-none now k m)

passkeys_fresh-none :
    (now : ℕ) (k : String) (m : Dict PasskeyChallenge)
    → Dict.get m k ≡ none
    → Dict.get (passkeys_fresh now m) k ≡ none
unfolding passkeys_fresh Dict.get
passkeys_fresh-none now k [] h = refl
passkeys_fresh-none now k ((j, v) ∷ m) h = ground (arith, passkeys_fresh-none now k m)

module _ {ℓ} {V : Type ℓ} where
  get-deleted :
      (m : Dict V) (k j : String) → Dict.get m k ≡ none → Dict.get (Dict.delete m j) k ≡ none
  get-deleted m k j h =
      Dict.get-delete m j k
      ∙ elim (Bool-cases (j == k)) [ inl same ↦ rw same refl | inr other ↦ rw other h ]

  get-deleted_self : (m : Dict V) (k : String) → Dict.get (Dict.delete m k) k ≡ none
  get-deleted_self m k = Dict.get-delete m k k ∙ rw eq_refl refl

  get-put_other :
      (m : Dict V) (k j : String) (v : V)
      → (j == k) ≡ false
      → Dict.get m k ≡ none
      → Dict.get (Dict.set m j v) k ≡ none
  get-put_other m k j v other h = Dict.get-set m j k v ∙ rw other h

-- The request opens a session for the second factor under the token.
abbrev pub finishes_under : String → {service : AuthService} → Op service → Bool
finishes_under k (finishes mfa_token session_id now id m1_hex agent) = mfa_token == k
finishes_under k op = false

-- The request stores the passkey challenge.
abbrev pub offers_under : String → {service : AuthService} → Op service → Bool
offers_under k (offers_passkey challenge now name) = challenge == k
offers_under k op = false

module _ (service : AuthService) where
  open service use {Response}

  -- A code by time, or an answer of a device.
  pub data Proof : Type 0 where
    by_code : String → Proof
    by_device : Response → Proof

  -- The handler that checks the proof.
  abbrev pub second_factor :
      String → ℕ → String → Proof → Option String → Exec (State service) String
  second_factor session_id now mfa_token (by_code code) agent =
      verify_totp service session_id now mfa_token code agent
  second_factor session_id now mfa_token (by_device response) agent =
      verify_webauthn_login service session_id now mfa_token response agent

  abbrev NoSession : String → State service → Type 0
  NoSession k s = Dict.get s.mfa_sessions k ≡ none

  abbrev NoPasskey : String → State service → Type 0
  NoPasskey k s = Dict.get s.passkey_challenges k ≡ none

  NoSession-IsStable : (k : String) → IsStable service (NoSession k)
  NoSession-IsStable k = record {
    users_kept = λ t s h. h;
    sessions_kept = λ t s h. h;
    credentials_kept = λ t s h. h;
    denied_kept = λ t s h. h;
    audit_kept = λ l s h. h;
    webauthn_kept = λ m s h. h;
    mfa_dropped = λ j s h. get-deleted s.mfa_sessions k j h;
    challenge_taken = λ j s h. h;
    passkey_taken = λ j s h. h;
    pruned = λ now s h. mfa_fresh-none now k s.mfa_sessions h;
  }

  NoPasskey-IsStable : (k : String) → IsStable service (NoPasskey k)
  NoPasskey-IsStable k = record {
    users_kept = λ t s h. h;
    sessions_kept = λ t s h. h;
    credentials_kept = λ t s h. h;
    denied_kept = λ t s h. h;
    audit_kept = λ l s h. h;
    webauthn_kept = λ m s h. h;
    mfa_dropped = λ j s h. h;
    challenge_taken = λ j s h. h;
    passkey_taken = λ j s h. get-deleted s.passkey_challenges k j h;
    pruned = λ now s h. passkeys_fresh-none now k s.passkey_challenges h;
  }

  NoSession-Allows :
      (k : String) (op : Op service) → finishes_under k op ≡ false → Allows service (NoSession k) op
  NoSession-Allows k (begins id random now name a_hex) e = λ c s h. h
  NoSession-Allows k (finishes mfa_token session_id now id m1_hex agent) e =
      λ m s h. get-put_other s.mfa_sessions k mfa_token m e h
  NoSession-Allows k (offers_passkey challenge now name) e = λ c s h. h
  NoSession-Allows k op e = tt

  NoPasskey-Allows :
      (k : String) (op : Op service) → offers_under k op ≡ false → Allows service (NoPasskey k) op
  NoPasskey-Allows k (begins id random now name a_hex) e = λ c s h. h
  NoPasskey-Allows k (finishes mfa_token session_id now id m1_hex agent) e = λ m s h. h
  NoPasskey-Allows k (offers_passkey challenge now name) e =
      λ c s h. get-put_other s.passkey_challenges k challenge c e h
  NoPasskey-Allows k op e = tt

  All-Allows :
      (P : State service → Type 0) (test : Op service → Bool)
      → ((op : Op service) → test op ≡ false → Allows service P op)
      → (ops : List (Op service)) → All (λ op. test op ≡ false) ops
      → All (Allows service P) ops
  All-Allows P test each [] h = tt
  All-Allows P test each (op ∷ ops) h = (each op h.0, All-Allows P test each ops h.1)

  success_drops :
      (session_id : String) (now : ℕ) (mfa_token : String) (proof : Proof) (agent : Option String)
      (s : State service) (token : String)
      → (second_factor session_id now mfa_token proof agent s).0 ≡ ok token
      → NoSession mfa_token (second_factor session_id now mfa_token proof agent s).1
  success_drops session_id now mfa_token (by_code code) agent s token e =
      let done =
        Outcome-ok (verify_totp service session_id now mfa_token code agent) s token
          (verify_totp-Outcome service session_id now mfa_token code agent s) e in
      ap (λ m. Dict.get m mfa_token) done.8 ∙ get-deleted_self s.mfa_sessions mfa_token
  success_drops session_id now mfa_token (by_device response) agent s token e =
      let done =
        Outcome-ok (verify_webauthn_login service session_id now mfa_token response agent) s token
          (verify_webauthn_login-Outcome service session_id now mfa_token response agent s) e in
      ap (λ m. Dict.get m mfa_token) done.9 ∙ get-deleted_self s.mfa_sessions mfa_token

  NoSession-refused :
      (session_id : String) (now : ℕ) (mfa_token : String) (proof : Proof) (agent : Option String)
      (s : State service)
      → NoSession mfa_token s
      → (second_factor session_id now mfa_token proof agent s).0 ≡ err unauthorized
  unfolding verify_totp verify_webauthn_login
  NoSession-refused session_id now mfa_token (by_code code) agent s gone = ground arith
  NoSession-refused session_id now mfa_token (by_device response) agent s gone = ground arith

  -- A session for the second factor is used at most once: after a code or an answer of a device was
  -- accepted for it, any further code or answer for it is refused as unauthorized, whatever requests
  -- come in between, if none of them opens a session for the second factor under the same token.
  pub second_factor_once :
      (session_id session_id' : String) (now now' : ℕ) (mfa_token : String) (proof proof' : Proof)
      (agent agent' : Option String) (ops : List (Op service)) (s : State service) (token : String)
      → (second_factor session_id now mfa_token proof agent s).0 ≡ ok token
      → All (λ op. finishes_under mfa_token op ≡ false) ops
      → (second_factor session_id' now' mfa_token proof' agent'
          (run service ops (second_factor session_id now mfa_token proof agent s).1)).0
        ≡ err unauthorized
  second_factor_once session_id session_id' now now' mfa_token proof proof' agent agent' ops s token
        accepted quiet =
      NoSession-refused session_id' now' mfa_token proof' agent' _ (
        run-kept service (NoSession mfa_token) (NoSession-IsStable mfa_token) ops
          (second_factor session_id now mfa_token proof agent s).1
          (All-Allows (NoSession mfa_token) (finishes_under mfa_token) (NoSession-Allows mfa_token)
            ops quiet)
          (success_drops session_id now mfa_token proof agent s token accepted))

  attempt_drops :
      (session_id : String) (now : ℕ) (challenge : String) (response : Response)
      (agent : Option String) (s : State service) (r : Result String)
      → (verify_passkey_login service session_id now challenge response agent s).0 ≡ r
      → r ≢ err bad_request
      → NoPasskey challenge
          (verify_passkey_login service session_id now challenge response agent s).1
  attempt_drops session_id now challenge response agent s (ok token) e other =
      let done =
        Outcome-ok (verify_passkey_login service session_id now challenge response agent) s token
          (verify_passkey_login-Outcome service session_id now challenge response agent s) e in
      ap (λ m. Dict.get m challenge) done.7 ∙ get-deleted_self s.passkey_challenges challenge
  attempt_drops session_id now challenge response agent s (err x) e other =
      elim (Outcome-err (verify_passkey_login service session_id now challenge response agent) s x
        (verify_passkey_login-Outcome service session_id now challenge response agent s) e) [
          | inl (bad, same) ↦ absurd (other (ap err bad))
          | inr gone ↦
              ap (λ q. Dict.get q.passkey_challenges challenge) gone
              ∙ get-deleted_self s.passkey_challenges challenge
        ]

  NoPasskey-refused :
      (session_id : String) (now : ℕ) (challenge : String) (response : Response)
      (agent : Option String) (s : State service)
      → NoPasskey challenge s
      → (verify_passkey_login service session_id now challenge response agent s).0 ≡ err bad_request
  unfolding verify_passkey_login
  NoPasskey-refused session_id now challenge response agent s gone = ground arith

  -- A passkey challenge is answered at most once: after an answer to it that was accepted, or that
  -- was refused with anything but a bad request, any further answer to it is refused as a bad
  -- request, whatever requests come in between, if none of them stores the challenge again.
  pub passkey_once :
      (session_id session_id' : String) (now now' : ℕ) (challenge : String)
      (response response' : Response) (agent agent' : Option String) (ops : List (Op service))
      (s : State service)
      → (verify_passkey_login service session_id now challenge response agent s).0 ≢ err bad_request
      → All (λ op. offers_under challenge op ≡ false) ops
      → (verify_passkey_login service session_id' now' challenge response' agent' (
          run service ops
            (verify_passkey_login service session_id now challenge response agent s).1)).0
        ≡ err bad_request
  passkey_once session_id session_id' now now' challenge response response' agent agent' ops s other
        quiet =
      NoPasskey-refused session_id' now' challenge response' agent' _ (
        run-kept service (NoPasskey challenge) (NoPasskey-IsStable challenge) ops
          (verify_passkey_login service session_id now challenge response agent s).1
          (All-Allows (NoPasskey challenge) (offers_under challenge) (NoPasskey-Allows challenge)
            ops quiet)
          (attempt_drops session_id now challenge response agent s _ refl other))
