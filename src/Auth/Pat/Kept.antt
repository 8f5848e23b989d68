-- ===== src/Auth/Pat/Kept.antt =====
-- What each request keeps of the tokens.
use sentinel_vault.Common.{
  ℕ, String, false, ◌≡◌, refl, sym, ap, subst, ◌∙◌, inl, inr, some, List, [], ◌∷◌, All, ◌==◌,
  eq_iff, arith, Bool-cases, Option-cases,
}
use sentinel_vault.Common.Text.{is_empty}
use sentinel_vault.Common.Dict
use sentinel_vault.Common.Dict.{Dict, get-set}
use sentinel_vault.Common.Dict.Values.{DistinctKeys, find-get}
use sentinel_vault.Common.Outcome.{Outcome-state}
use sentinel_vault.Auth.Pat.{
  PatService, PatRecord, CreatePatDto, State, put, new_token, used, revoked, raw_token_of, has_hash,
  non_empty_scopes, create_token, validate_token_and_scope, revoke_token, clear, Op, creates,
  validates, revokes, clears, step, run,
}
use sentinel_vault.Auth.Pat.Guard.{makes, Good, IsStable, put-Good, validate_token-Outcome}

module _ (service : PatService) where
  open service use {audit, sha256_hex}

  module _ {P : String → PatRecord → Type 0} where
    pub create-Good :
        (id event_id : String) (now : ℕ) (secret user : String) (dto : CreatePatDto)
        (s : State service)
        → ((scopes : List String) → P id (new_token service id now secret user dto scopes))
        → Good service P s
        → Good service P (create_token service id event_id now secret user dto s).1
    unfolding create_token
    create-Good id event_id now secret user dto s fresh good =
        elim (Bool-cases (is_empty dto.name)) [
          | inl empty ↦ rw empty good
          | inr named ↦ elim (Option-cases (non_empty_scopes dto.scopes)) [
            | inl none_ ↦ rw named (rw none_ good)
            | inr (scopes, given) ↦ rw named (
                rw given (
                  put-Good service id (new_token service id now secret user dto scopes) s good refl
                    (fresh scopes)))
          ]
        ]

    validate-Good :
        (hash event_id : String) (now : ℕ) (raw scope : String) (s : State service)
        → IsStable service hash P
        → Good service P s
        → Good service P (validate_token_and_scope service event_id now raw scope s).1
    validate-Good hash event_id now raw scope s stable good =
        Outcome-state (Good service P) (validate_token_and_scope service event_id now raw scope) s
          (λ r' s' (r, there, admits, e, tokens).
            let (k, at, hit) = find-get (has_hash (sha256_hex raw)) s.tokens r good.0 there in
            let (same, p) = good.1 k r at in
            let kept =
              put-Good service k (used service now r) s good same (stable.of_used now k r p) in
            put_tokens k r s' same tokens kept)
          (λ e s' (same, refused). subst (Good service P) (sym same) good)
          (validate_token-Outcome service event_id now raw scope s)
      where
        put_tokens :
            (k : String) (r : PatRecord) (s' : State service)
            → r.id ≡ k
            → s'.tokens ≡ Dict.set s.tokens r.id (used service now r)
            → Good service P (put service k (used service now r) s)
            → Good service P s'
        put_tokens k r s' same tokens kept =
            let set_there : Dict.set s.tokens k (used service now r) ≡ s'.tokens =
              ap (λ j. Dict.set s.tokens j (used service now r)) (sym same) ∙ sym tokens in
            subst
              (λ m.
                DistinctKeys m
                × ((k : String) (r : PatRecord) → Dict.get m k ≡ some r → (r.id ≡ k) × P k r))
              set_there kept

    pub revoke-Good :
        (hash event_id : String) (now : ℕ) (user id : String) (s : State service)
        → IsStable service hash P
        → Good service P s
        → Good service P (revoke_token service event_id now user id s).1
    unfolding revoke_token
    revoke-Good hash event_id now user id s stable good =
        elim (Option-cases (Dict.get s.tokens id)) [
          | inl missing ↦ rw missing good
          | inr (r, there) ↦ elim (Bool-cases (r.user_id == user)) [
            | inl mine ↦
                let (same, p) = good.1 id r there in
                rw there (
                  rw mine (
                    put-Good service id (revoked service r) s good same (stable.of_revoked id r p)))
            | inr other ↦ rw there (rw other good)
          ]
        ]

    pub no_tokens-Good : (s : State service) → Good service P (clear service s)
    unfolding Dict.get
    no_tokens-Good s = (tt, λ k r there. cc)

    pub step-Good :
        (hash : String) (op : Op service) (s : State service)
        → IsStable service hash P
        → makes service hash op ≡ false
        → Good service P s
        → Good service P (step service op s)
    unfolding step
    step-Good hash (creates id event_id now secret user dto) s stable quiet good =
        create-Good id event_id now secret user dto s
          (λ scopes.
            stable.of_other id _
              (λ e. ground (arith, e, quiet, eq_iff (sha256_hex (raw_token_of secret)) hash)))
          good
    step-Good hash (validates event_id now raw scope) s stable quiet good =
        validate-Good hash event_id now raw scope s stable good
    step-Good hash (revokes event_id now user id) s stable quiet good =
        revoke-Good hash event_id now user id s stable good
    step-Good hash clears s stable quiet good = no_tokens-Good s

    pub run-Good :
        (hash : String) (ops : List (Op service)) (s : State service)
        → IsStable service hash P
        → All (λ op. makes service hash op ≡ false) ops
        → Good service P s
        → Good service P (run service ops s)
    unfolding run
    run-Good hash [] s stable quiet good = good
    run-Good hash (op ∷ ops) s stable quiet good =
        run-Good hash ops (step service op s) stable quiet.1
          (step-Good hash op s stable quiet.0 good)
