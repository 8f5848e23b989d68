-- ===== src/Auth/Pat/Life.antt =====
-- The life of a token: creation, use, revocation.
use sentinel_vault.Common.{
  ℕ, String, true, false, ◌≡◌, ◌≢◌, refl, sym, ap, ◌∙◌, inl, inr, some, List, [], All, ◌==◌, eq_iff,
  eq_refl, arith, Bool-cases, Option-cases, false≢true,
}
use sentinel_vault.Common.Exec.{Result, ok, err, unauthorized}
use sentinel_vault.Common.Dict
use sentinel_vault.Common.Dict.{get-set}
use sentinel_vault.Common.Dict.Values.{find-get}
use sentinel_vault.Common.Outcome.{Either}
use sentinel_vault.Auth.Pat.{
  PatService, PatRecord, CreatePatDto, State, put, revoked, raw_token_of, has_hash, create_token,
  validate_token_and_scope, revoke_token, Op, run,
}
use sentinel_vault.Auth.Pat.Guard.{
  makes, Good, IsStable, put-Good, found, Admitted, Refused, validate_token-Outcome,
}
use sentinel_vault.Auth.Pat.Kept.{create-Good, run-Good, no_tokens-Good}

module _ (service : PatService) where
  open service use {audit, sha256_hex}

  -- The service after its start: no tokens, and some trail.
  abbrev pub begin : audit.events.Table → State service
  begin trail = record { tokens = []; trail = trail }

  abbrev Unused : String → String → PatRecord → Type 0
  Unused hash k r = r.token_hash ≢ hash

  -- The token with the hash is that of the identifier.
  abbrev pub Sole : String → String → String → PatRecord → Type 0
  Sole hash id k r = r.token_hash ≡ hash → k ≡ id

  abbrev Dead : String → String → PatRecord → Type 0
  Dead hash k r = r.token_hash ≡ hash → r.is_revoked ≡ true

  Unused-IsStable : (hash : String) → IsStable service hash (Unused hash)
  Unused-IsStable hash = record {
    of_used = λ now k r p. p;
    of_revoked = λ k r p. p;
    of_other = λ k r p. p;
  }

  pub Sole-IsStable : (hash id : String) → IsStable service hash (Sole hash id)
  Sole-IsStable hash id = record {
    of_used = λ now k r p. p;
    of_revoked = λ k r p. p;
    of_other = λ k r p h. absurd (p h);
  }

  Dead-IsStable : (hash : String) → IsStable service hash (Dead hash)
  Dead-IsStable hash = record {
    of_used = λ now k r p. p;
    of_revoked = λ k r p h. refl;
    of_other = λ k r p h. absurd (p h);
  }

  -- The state after a history in which a token is created.
  abbrev pub lived :
      List (Op service)
      → List (Op service)
      → String
      → String
      → ℕ
      → String
      → String
      → CreatePatDto
      → audit.events.Table
      → State service
  lived before after id event_id now secret user dto trail =
      run service after
        (create_token service id event_id now secret user dto (run service before (begin trail))).1

  -- After its creation a token is the only one with its hash.
  pub created-Sole :
      (before after : List (Op service)) (id event_id : String) (now : ℕ) (secret user : String)
      (dto : CreatePatDto) (trail : audit.events.Table)
      → All (λ op. makes service (sha256_hex (raw_token_of secret)) op ≡ false) before
      → All (λ op. makes service (sha256_hex (raw_token_of secret)) op ≡ false) after
      → Good service
          (Sole (sha256_hex (raw_token_of secret)) id)
          (lived before after id event_id now secret user dto trail)
  created-Sole before after id event_id now secret user dto trail quiet quiet' =
      let hash = sha256_hex (raw_token_of secret) in
      let start : Good service (Unused hash) (run service before (begin trail)) =
        run-Good service hash before (begin trail) (Unused-IsStable hash) quiet
          (no_tokens-Good service (begin trail)) in
      run-Good service hash after _ (Sole-IsStable hash id) quiet' (
        create-Good service id event_id now secret user dto (run service before (begin trail))
          (λ scopes e. refl)
          (start.0, λ k r there. let (same, p) = start.1 k r there in (same, λ e. absurd (p e))))

  put-Dead :
      (hash id : String) (r : PatRecord) (s : State service)
      → Good service (Sole hash id) (put service id (revoked service r) s)
      → Good service (Dead hash) (put service id (revoked service r) s)
  put-Dead hash id r s sole = (
    sole.0,
    λ k q there.
        let (same, only) = sole.1 k q there in
        (
          same,
          λ h.
              let at : (Dict.get (Dict.set s.tokens id (revoked service r)) k
                  ≡ some (revoked service r)) =
                get-set s.tokens id k (revoked service r) ∙ rw (only h) (rw eq_refl refl) in
              let is : (q ≡ revoked service r) = ground (arith, at, there) in
              ap (λ (x : PatRecord). x.is_revoked) is,
        ),
  )

  revoke-Dead :
      (hash event_id : String) (now : ℕ) (user id : String) (s : State service)
      → Good service (Sole hash id) s
      → (revoke_token service event_id now user id s).0 ≡ ok tt
      → Good service (Dead hash) (revoke_token service event_id now user id s).1
  unfolding revoke_token
  revoke-Dead hash event_id now user id s sole = elim (Option-cases (Dict.get s.tokens id)) [
    | inl missing ↦ rw missing (λ h. cc)
    | inr (r, there) ↦ elim (Bool-cases (r.user_id == user)) [
      | inr other ↦ rw there (rw other (λ h. cc))
      | inl mine ↦
          let (same, only) = sole.1 id r there in
          rw there (
            rw mine (λ h.
              put-Dead hash id r s (put-Good service id (revoked service r) s sole same only)))
    ]
  ]

  -- What is left of a validation when the one token with the hash is revoked.
  validate-Dead :
      (event_id : String) (now : ℕ) (raw scope : String) (s : State service)
      → Good service (Dead (sha256_hex raw)) s
      → validate_token_and_scope service event_id now raw scope s ≡ (err unauthorized, s)
  validate-Dead event_id now raw scope s dead =
      go (validate_token_and_scope service event_id now raw scope s)
        (validate_token-Outcome service event_id now raw scope s).holds
    where
      is_dead : (r : PatRecord) → found service raw s ≡ some r → r.is_revoked ≡ true
      is_dead r there =
          let (k, at, hit) = find-get (has_hash (sha256_hex raw)) s.tokens r dead.0 there in
          (dead.1 k r at).1 ((eq_iff r.token_hash (sha256_hex raw)).0 hit)

      go :
          (result : Result PatRecord × State service)
          → Either
              (Admitted service now raw scope s)
              (λ e s'. (s' ≡ s) × Refused service now raw scope s e)
              result
          → result ≡ (err unauthorized, s)
      go (ok r', s') (r, there, (alive, fresh, listed), is, stored) =
          absurd (false≢true (sym alive ∙ is_dead r there))
      go (err e, s') (same, inl (is, nothing)) = rw same (rw is refl)
      go (err e, s') (same, inr (r, there, inl (is, bad))) = rw same (rw is refl)
      go (err e, s') (same, inr (r, there, inr (is, fine, missing))) =
          let alive : r.is_revoked ≡ false = ground arith in
          absurd (false≢true (sym alive ∙ is_dead r there))

  -- A revoked token stays refused: after a history from an empty store in which a token is created
  -- and later revoked, and in which no other creation makes a token with its hash, the validation
  -- of the token answers 401 and changes nothing, at any time, for any scope and after any further
  -- requests that create no token with its hash.
  pub revoked_refused :
      (before between after : List (Op service)) (id event_id : String) (now : ℕ)
      (secret user : String) (dto : CreatePatDto) (trail : audit.events.Table) (event_id' : String)
      (now' : ℕ) (user' event_id'' : String) (now'' : ℕ) (scope : String)
      → All (λ op. makes service (sha256_hex (raw_token_of secret)) op ≡ false) before
      → All (λ op. makes service (sha256_hex (raw_token_of secret)) op ≡ false) between
      → All (λ op. makes service (sha256_hex (raw_token_of secret)) op ≡ false) after
      → (revoke_token service event_id' now' user' id
          (lived before between id event_id now secret user dto trail)).0
        ≡ ok tt
      → validate_token_and_scope service event_id'' now'' (raw_token_of secret) scope (
          run service after
            (revoke_token service event_id' now' user' id
              (lived before between id event_id now secret user dto trail)).1)
        ≡ (
          err unauthorized,
          run service after
              (revoke_token service event_id' now' user' id
                (lived before between id event_id now secret user dto trail)).1,
        )
  revoked_refused before between after id event_id now secret user dto trail event_id' now' user'
        event_id'' now'' scope quiet quiet' quiet'' done =
      let hash = sha256_hex (raw_token_of secret) in
      let sole = created-Sole before between id event_id now secret user dto trail quiet quiet' in
      validate-Dead event_id'' now'' (raw_token_of secret) scope _ (
        run-Good service hash after _ (Dead-IsStable hash) quiet''
          (revoke-Dead hash event_id' now' user' id _ sole done))
