-- ===== src/Auth/Pat/Usable.antt =====
-- A token serves from its creation until it expires.
use sentinel_vault.Common.{
  ℕ, String, true, false, ◌≡◌, refl, sym, ap, ◌∙◌, inl, inr, Option, none, some, List, [], All,
  eq_iff, eq_refl, Bool-cases, Option-cases, if◌then◌else◌, false≢true,
}
use sentinel_vault.Common.Exec.{Result, ok, err, unauthorized, forbidden}
use sentinel_vault.Common.Text.{is_empty}
use sentinel_vault.Common.Dict
use sentinel_vault.Common.Dict.{get-set}
use sentinel_vault.Common.Dict.Values.{find-get, find-none}
use sentinel_vault.Auth.Pat.{
  PatService, PatRecord, CreatePatDto, CreatePatResponseDto, response, State, new_token, used,
  raw_token_of, has_hash, is_expired, has_scope, non_empty_scopes, create_token,
  validate_token_and_scope, Op, run,
}
use sentinel_vault.Auth.Pat.Guard.{makes, Good, found}
use sentinel_vault.Auth.Pat.Life.{begin, lived, Sole, Sole-IsStable, created-Sole}
use sentinel_vault.Auth.Pat.Present.{run-Present, spares, Present}

module _ (service : PatService) where
  open service use {audit, sha256_hex}

  -- What a validation of the token answers.
  abbrev pub Verdict : ℕ → String → PatRecord → Result PatRecord
  Verdict now scope t =
      if is_expired now t
      then err unauthorized
      else if has_scope scope t
      then ok (used service now t)
      else err forbidden

  found-Present :
      (raw : String) (t : PatRecord) (s : State service)
      → t.token_hash ≡ sha256_hex raw
      → Good service (Sole service (sha256_hex raw) t.id) s
      → Present service t s
      → (last : Option ℕ) × (found service raw s ≡ some (record t { last_used_at = last }))
  found-Present raw t s hashed sole (last, present) = elim (Option-cases (found service raw s)) [
    | inl nothing ↦
        let miss =
          find-none (has_hash (sha256_hex raw)) s.tokens t.id (record t { last_used_at = last })
            nothing present in
        absurd (false≢true (sym miss ∙ (eq_iff t.token_hash (sha256_hex raw)).1 hashed))
    | inr (r, there) ↦
        let (k, at, hit) = find-get (has_hash (sha256_hex raw)) s.tokens r sole.0 there in
        let here : (k ≡ t.id) = (sole.1 k r at).1 ((eq_iff r.token_hash (sha256_hex raw)).0 hit) in
        (last, there ∙ sym at ∙ ap (Dict.get s.tokens) here ∙ present)
  ]

  validate-Verdict :
      (event_id : String) (now : ℕ) (raw scope : String) (t : PatRecord) (s : State service)
      → t.token_hash ≡ sha256_hex raw
      → t.is_revoked ≡ false
      → Good service (Sole service (sha256_hex raw) t.id) s
      → Present service t s
      → (validate_token_and_scope service event_id now raw scope s).0 ≡ Verdict now scope t
  unfolding validate_token_and_scope
  validate-Verdict event_id now raw scope t s hashed alive sole present =
      let (last, there) = found-Present raw t s hashed sole present in
      rw there (
        rw alive (elim (Bool-cases (is_expired now t)) [
          | inl late ↦ rw late refl
          | inr fresh ↦ rw fresh (elim (Bool-cases (has_scope scope t)) [
            | inl listed ↦ rw listed refl
            | inr missing ↦ rw missing refl
          ])
        ]))

  created-Present :
      (id event_id : String) (now : ℕ) (secret user : String) (dto : CreatePatDto)
      (s : State service) (answer : CreatePatResponseDto)
      → (create_token service id event_id now secret user dto s).0 ≡ ok answer
      → (answer.raw_token ≡ raw_token_of secret)
        × Present service
            (new_token service id now secret user dto answer.scopes)
            (create_token service id event_id now secret user dto s).1
  unfolding create_token
  created-Present id event_id now secret user dto s answer = elim (Bool-cases (is_empty dto.name)) [
    | inl empty ↦ rw empty (λ h. cc)
    | inr named ↦ elim (Option-cases (non_empty_scopes dto.scopes)) [
      | inl none_ ↦ rw named (rw none_ (λ h. cc))
      | inr (scopes, given) ↦ rw named (
          rw given (λ h.
            let r = new_token service id now secret user dto scopes in
            let is : (response service secret r ≡ answer) = cc in
            (
              sym (ap (λ (a : CreatePatResponseDto). a.raw_token) is),
              (
                none,
                get-set s.tokens id id r
                    ∙ rw eq_refl (
                        ap
                          (λ (a : CreatePatResponseDto).
                            some (new_token service id now secret user dto a.scopes))
                          is),
              ),
            )))
    ]
  ]

  -- A token serves until it expires: after a history from an empty store in which a token is
  -- created, and in which no other creation makes a token with its hash, and after the creation no
  -- request creates a token under its identifier, revokes it or clears the store, the validation of
  -- the text that its creation returned answers 401 once the token has expired, else 403 if it
  -- lacks the scope, and else the token as it was created with the time of this use.
  pub created_usable :
      (before after : List (Op service)) (id event_id : String) (now : ℕ) (secret user : String)
      (dto : CreatePatDto) (trail : audit.events.Table) (answer : CreatePatResponseDto)
      (event_id' : String) (now' : ℕ) (scope : String)
      → All (λ op. makes service (sha256_hex (raw_token_of secret)) op ≡ false) before
      → All (λ op. makes service (sha256_hex (raw_token_of secret)) op ≡ false) after
      → All (λ op. spares service id op ≡ true) after
      → (create_token service id event_id now secret user dto
          (run service before (begin service trail))).0
        ≡ ok answer
      → (validate_token_and_scope service event_id' now' answer.raw_token scope
          (lived service before after id event_id now secret user dto trail)).0
        ≡ Verdict now' scope (new_token service id now secret user dto answer.scopes)
  unfolding run
  created_usable before after id event_id now secret user dto trail answer event_id' now' scope
        quiet quiet' spared made =
      let hash = sha256_hex (raw_token_of secret) in
      let t = new_token service id now secret user dto answer.scopes in
      let s = run service before (begin service trail) in
      let (raw, present) = created-Present id event_id now secret user dto s answer made in
      let sole = created-Sole service before [] id event_id now secret user dto trail quiet tt in
      let still =
        run-Present service hash t after (create_token service id event_id now secret user dto s).1
          (Sole-IsStable service hash id) quiet' spared sole present in
      rw raw (
        validate-Verdict event_id' now' (raw_token_of secret) scope t
          (lived service before after id event_id now secret user dto trail) refl refl
          (created-Sole service before after id event_id now secret user dto trail quiet quiet')
          still)
