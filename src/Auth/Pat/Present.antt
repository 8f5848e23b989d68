-- ===== src/Auth/Pat/Present.antt =====
-- A token stays in the store until a request ends it.
use sentinel_vault.Common.{
  ℕ, String, Bool, true, false, not, ◌≡◌, ap, ◌∙◌, inl, inr, Option, some, List, [], ◌∷◌, All, ◌==◌,
  eq_iff, arith, Bool-cases, Option-cases,
}
use sentinel_vault.Common.Text.{is_empty}
use sentinel_vault.Common.Dict
use sentinel_vault.Common.Dict.{get-set}
use sentinel_vault.Common.Dict.Values.{find-get}
use sentinel_vault.Common.Outcome.{Outcome-state}
use sentinel_vault.Auth.Pat.{
  PatService, PatRecord, CreatePatDto, State, put, new_token, used, revoked, has_hash,
  non_empty_scopes, create_token, validate_token_and_scope, revoke_token, Op, creates, validates,
  revokes, clears, step, run,
}
use sentinel_vault.Auth.Pat.Guard.{makes, Good, IsStable, validate_token-Outcome}
use sentinel_vault.Auth.Pat.Kept.{step-Good}

module _ (service : PatService) where
  open service use {audit, sha256_hex}

  -- Whether the request leaves the token with the identifier alone: it creates none in its place,
  -- does not revoke it and does not clear the store.
  abbrev pub spares : String → Op service → Bool
  spares id (creates id' event_id now secret user dto) = not (id' == id)
  spares id (validates event_id now raw scope) = true
  spares id (revokes event_id now user id') = not (id' == id)
  spares id clears = false

  -- The token as it was created, but for the time of its last use.
  abbrev pub Present : PatRecord → State service → Type 0
  Present t s =
      (last : Option ℕ) × (Dict.get s.tokens t.id ≡ some (record t { last_used_at = last }))

  put-Present :
      (t : PatRecord) (k : String) (r : PatRecord) (s : State service)
      → not (k == t.id) ≡ true
      → Present t s
      → Present t (put service k r s)
  put-Present t k r s other (last, there) =
      (last, get-set s.tokens k t.id r ∙ ground (arith, there, other))

  create-Present :
      (t : PatRecord) (id event_id : String) (now : ℕ) (secret user : String) (dto : CreatePatDto)
      (s : State service)
      → not (id == t.id) ≡ true
      → Present t s
      → Present t (create_token service id event_id now secret user dto s).1
  unfolding create_token
  create-Present t id event_id now secret user dto s other present =
      elim (Bool-cases (is_empty dto.name)) [
        | inl empty ↦ rw empty present
        | inr named ↦ elim (Option-cases (non_empty_scopes dto.scopes)) [
          | inl none_ ↦ rw named (rw none_ present)
          | inr (scopes, given) ↦ rw named (
              rw given (
                put-Present t id (new_token service id now secret user dto scopes) s other present))
        ]
      ]

  revoke-Present :
      (t : PatRecord) (event_id : String) (now : ℕ) (user id : String) (s : State service)
      → not (id == t.id) ≡ true
      → Present t s
      → Present t (revoke_token service event_id now user id s).1
  unfolding revoke_token
  revoke-Present t event_id now user id s other present =
      elim (Option-cases (Dict.get s.tokens id)) [
        | inl missing ↦ rw missing present
        | inr (r, there) ↦ elim (Bool-cases (r.user_id == user)) [
          | inl mine ↦ rw there (rw mine (put-Present t id (revoked service r) s other present))
          | inr theirs ↦ rw there (rw theirs present)
        ]
      ]

  module _ {P : String → PatRecord → Type 0} where
    validate-Present :
        (t : PatRecord) (event_id : String) (now : ℕ) (raw scope : String) (s : State service)
        → Good service P s
        → Present t s
        → Present t (validate_token_and_scope service event_id now raw scope s).1
    validate-Present t event_id now raw scope s good (last, present) =
        Outcome-state (Present t) (validate_token_and_scope service event_id now raw scope) s
          (λ r' s' (r, there, admits, e, tokens).
            let (k, at, hit) = find-get (has_hash (sha256_hex raw)) s.tokens r good.0 there in
            let (same, p) = good.1 k r at in
            elim (Bool-cases (r.id == t.id)) [
              | inl here ↦
                  let is : (r ≡ record t { last_used_at = last }) =
                    ground (arith, at, present, same, (eq_iff r.id t.id).0 here) in
                  (
                    some now,
                    ap (λ m. Dict.get m t.id) tokens
                        ∙ get-set s.tokens r.id t.id (used service now r)
                        ∙ rw here (ap (λ x. some (used service now x)) is),
                  )
              | inr other ↦ (
                last,
                ap (λ m. Dict.get m t.id) tokens
                    ∙ get-set s.tokens r.id t.id (used service now r)
                    ∙ rw other present,
              )
            ])
          (λ e s' (same, refused).
            (last, ap (λ (x : State service). Dict.get x.tokens t.id) same ∙ present))
          (validate_token-Outcome service event_id now raw scope s)

    step-Present :
        (t : PatRecord) (op : Op service) (s : State service)
        → spares t.id op ≡ true
        → Good service P s
        → Present t s
        → Present t (step service op s)
    unfolding step
    step-Present t (creates id event_id now secret user dto) s spared good present =
        create-Present t id event_id now secret user dto s spared present
    step-Present t (validates event_id now raw scope) s spared good present =
        validate-Present t event_id now raw scope s good present
    step-Present t (revokes event_id now user id) s spared good present =
        revoke-Present t event_id now user id s spared present
    step-Present t clears s spared good present = cc

    pub run-Present :
        (hash : String) (t : PatRecord) (ops : List (Op service)) (s : State service)
        → IsStable service hash P
        → All (λ op. makes service hash op ≡ false) ops
        → All (λ op. spares t.id op ≡ true) ops
        → Good service P s
        → Present t s
        → Present t (run service ops s)
    unfolding run
    run-Present hash t [] s stable quiet spared good present = present
    run-Present hash t (op ∷ ops) s stable quiet spared good present =
        run-Present hash t ops (step service op s) stable quiet.1 spared.1
          (step-Good service hash op s stable quiet.0 good)
          (step-Present t op s spared.0 good present)
