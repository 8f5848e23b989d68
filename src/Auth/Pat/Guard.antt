-- ===== src/Auth/Pat/Guard.antt =====
-- What the requests keep of the tokens.
use sentinel_vault.Common.{
  ℕ, String, Bool, true, false, not, ◌||◌, ◌≡◌, ◌≢◌, ◌⊎◌, refl, sym, subst, ◌∙◌, inl, inr, Option,
  none, some, find, ◌==◌, eq_iff, arith, Bool-cases,
}
use sentinel_vault.Common.Exec.{HttpError, unauthorized, forbidden}
use sentinel_vault.Common.Dict
use sentinel_vault.Common.Dict.{Dict, get-set}
use sentinel_vault.Common.Dict.Values.{DistinctKeys, set-DistinctKeys}
use sentinel_vault.Common.Outcome.{Outcome, outcome_rules}
use sentinel_vault.Auth.Audit.{LogEventParams}
use sentinel_vault.Auth.Pat.{
  PatService, PatRecord, State, put, log, used, revoked, raw_token_of, has_hash, is_expired,
  has_scope, validate_token_and_scope, Op, creates,
}

module _ (service : PatService) where
  open service use {audit, sha256_hex}

  -- Whether the request makes a token with the hash.
  abbrev pub makes : String → Op service → Bool
  makes hash (creates id event_id now secret user dto) = sha256_hex (raw_token_of secret) == hash
  makes hash op = false

  -- A statement on each token under its identifier.
  abbrev pub Good : (String → PatRecord → Type 0) → State service → Type 0
  Good P s =
      DistinctKeys s.tokens
      × ((k : String) (r : PatRecord) → Dict.get s.tokens k ≡ some r → (r.id ≡ k) × P k r)

  -- A statement that a use and a revocation of the token keep, and that is about one hash only.
  pub record IsStable (hash : String) (P : String → PatRecord → Type 0) : Type 0 where
    pub of_used : (now : ℕ) (k : String) (r : PatRecord) → P k r → P k (used service now r)
    pub of_revoked : (k : String) (r : PatRecord) → P k r → P k (revoked service r)
    pub of_other : (k : String) (r : PatRecord) → r.token_hash ≢ hash → P k r

  module _ {P : String → PatRecord → Type 0} where
    pub put-Good :
        (k : String) (r : PatRecord) (s : State service)
        → Good P s
        → r.id ≡ k
        → P k r
        → Good P (put service k r s)
    put-Good k r s good same p = (
      set-DistinctKeys s.tokens k r good.0,
      λ j q there. elim (Bool-cases (k == j)) [
        | inl here ↦
            let e : (r ≡ q) = ground (arith, get-set s.tokens k j r, here, there) in
            let at : (k ≡ j) = (eq_iff k j).0 here in
            subst (λ i. (q.id ≡ i) × P i q) at (subst (λ x. (x.id ≡ k) × P k x) e (same, p))
        | inr other ↦ good.1 j q (sym (get-set s.tokens k j r ∙ rw other refl) ∙ there)
      ],
    )

  abbrev pub found : String → State service → Option PatRecord
  found raw s = find (has_hash (sha256_hex raw)) (Dict.values s.tokens)

  -- A token that was found is neither revoked nor expired, and its scopes have the wanted one or
  -- that of administrators.
  abbrev pub Admits : ℕ → String → PatRecord → Type 0
  Admits now scope r =
      (r.is_revoked ≡ false) × (is_expired now r ≡ false) × (has_scope scope r ≡ true)

  abbrev pub Admitted : ℕ → String → String → State service → PatRecord → State service → Type 0
  Admitted now raw scope s r' s' =
      (r : PatRecord) × (found raw s ≡ some r)
      × Admits now scope r
      × (r' ≡ used service now r)
      × (s'.tokens ≡ Dict.set s.tokens r.id (used service now r))

  -- No token has the hash, or the one that has it is revoked or expired, or it lacks the scope.
  abbrev pub Refused : ℕ → String → String → State service → HttpError → Type 0
  Refused now raw scope s e =
      ((e ≡ unauthorized) × (found raw s ≡ none))
      ⊎ ((r : PatRecord) × (found raw s ≡ some r)
          × (((e ≡ unauthorized) × ((r.is_revoked || is_expired now r) ≡ true))
              ⊎ ((e ≡ forbidden)
                  × ((r.is_revoked || is_expired now r) ≡ false)
                  × (has_scope scope r ≡ false))))

  admitted :
      (event_id : String) (now : ℕ) (raw scope : String) (s : State service) (r : PatRecord)
      (params : LogEventParams)
      → found raw s ≡ some r
      → r.is_revoked ≡ false
      → is_expired now r ≡ false
      → not (has_scope scope r) ≡ false
      → Admitted now raw scope s
          (used service now r)
          (log service event_id now params (put service r.id (used service now r) s))
  admitted event_id now raw scope s r params there alive fresh listed =
      (r, there, (alive, fresh, ground (arith, listed)), refl, refl)

  unknown :
      (now : ℕ) (raw scope : String) (s : State service)
      → found raw s ≡ none
      → (s ≡ s) × Refused now raw scope s unauthorized
  unknown now raw scope s h = (refl, inl (refl, h))

  dead :
      (now : ℕ) (raw scope : String) (s : State service) (r : PatRecord)
      → found raw s ≡ some r
      → r.is_revoked ≡ true
      → (s ≡ s) × Refused now raw scope s unauthorized
  dead now raw scope s r there h = (refl, inr (r, there, inl (refl, ground arith)))

  late :
      (now : ℕ) (raw scope : String) (s : State service) (r : PatRecord)
      → found raw s ≡ some r
      → is_expired now r ≡ true
      → (s ≡ s) × Refused now raw scope s unauthorized
  late now raw scope s r there h = (refl, inr (r, there, inl (refl, ground arith)))

  lacking :
      (now : ℕ) (raw scope : String) (s : State service) (r : PatRecord)
      → found raw s ≡ some r
      → r.is_revoked ≡ false
      → is_expired now r ≡ false
      → not (has_scope scope r) ≡ true
      → (s ≡ s) × Refused now raw scope s forbidden
  lacking now raw scope s r there alive fresh missing =
      (refl, inr (r, there, inr (refl, ground arith, ground (arith, missing))))

  -- `validateTokenAndScope` returns the token that was found by its hash, with the time of its use,
  -- only if the token is neither revoked nor expired and its scopes have the wanted one or "admin:*",
  -- and it has stored the time. If it throws, it has changed nothing, and the error is 401 if no
  -- token has the hash or the token is revoked or expired, and 403 if only the scope is missing.
  pub validate_token-Outcome :
      (event_id : String) (now : ℕ) (raw scope : String) (s : State service)
      → Outcome
          (Admitted now raw scope s)
          (λ e s'. (s' ≡ s) × Refused now raw scope s e)
          (validate_token_and_scope service event_id now raw scope)
          s
  unfolding validate_token_and_scope
  validate_token-Outcome event_id now raw scope s =
      search (outcome_rules, admitted, unknown, dead, late, lacking) depth 40 fits 5000
