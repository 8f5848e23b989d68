-- ===== src/Analysis/Insights/Gate.antt =====
-- What an explanation sends and answers.
use sentinel_vault.Common.{
  ℕ, String, Bool, true, false, not, ◌||◌, false≢true, ◌≡◌, ◌≢◌, ◌⊎◌, refl, sym, subst, ◌∙◌, inl,
  inr, Option, none, some, List, [], ◌∷◌, any, filter, All, ◌==◌, eq_iff, arith, Bool-cases,
  if◌then◌else◌,
}
use sentinel_vault.Common.Text.{is_empty}
use sentinel_vault.Common.Dict
use sentinel_vault.Common.Dict.{Dict}
use sentinel_vault.Analysis.Guard.{
  check_string, check_items, is_email, has_scheme, has_high_entropy, FindingType, password_strength,
  url_scan, email_scan, breach_monitor, file_scan, weekly_digest, Value, null, text, array, number,
  boolean, object, Items, nil, cons, Payload, finding_type, check_entry, check_value, is_allowed,
  reject_if_raw_secret, violates, validate_schema,
}
use sentinel_vault.Analysis.Insights.{
  InsightsResult, fallback_insights, Sent, complete, complete_object, summary_of, actions_of,
  parse_response, parse_reply, or_fallback, signals_of, explain, generate_insights,
}

module _ {ℓ κ} {A : Type ℓ} where
  filter-All :
      (keep bad worse : A → Bool) (P : A → Type κ) (xs : List A)
      → any bad xs ≡ false
      → any worse xs ≡ false
      → ((x : A) → keep x ≡ true → bad x ≡ false → worse x ≡ false → P x)
      → All P (filter keep xs)
  filter-All keep bad worse P [] h k f = tt
  filter-All keep bad worse P (x ∷ xs) h k f =
      let rest = filter-All keep bad worse P xs (ground arith) (ground arith) f in
      elim (Bool-cases (keep x)) [
        | inl kept ↦ rw kept (f x kept (ground arith) (ground arith), rest)
        | inr dropped ↦ rw dropped rest
      ]

module _ (is_high : List ℕ → ℕ → Bool) (parse_json : String → Option (Dict Value)) where
  -- The text is no e-mail address, names no URL scheme and is not of high entropy.
  abbrev pub IsHarmless : String → Type 0
  IsHarmless s =
      (is_email s ≡ false) × (has_scheme s ≡ false) × (has_high_entropy is_high s ≡ false)

  -- The texts that stand directly in an array.
  abbrev texts_in : Items → List String
  texts_in nil = []
  texts_in (cons (text s) items) = s ∷ texts_in items
  texts_in (cons v items) = texts_in items

  -- A value that is a text, or the texts that stand directly in it, if it is an array.
  abbrev pub texts_of : Value → List String
  texts_of (text s) = s ∷ []
  texts_of (array items) = texts_in items
  texts_of v = []

  -- A signal has a key of its type, other than the type itself, and it is no text that is not
  -- harmless, and no array with such a text directly in it.
  abbrev pub IsSignal : FindingType → String × Value → Type 0
  IsSignal type entry =
      (is_allowed is_high type entry.0 ≡ true)
      × All IsHarmless (texts_of entry.1)
      × (entry.0 ≢ "finding_type")

  check_string-IsHarmless : (s : String) → check_string is_high s ≡ false → IsHarmless s
  check_string-IsHarmless s h = (ground arith, ground arith, ground arith)

  items-IsHarmless :
      (items : Items) → check_items is_high items ≡ false → All IsHarmless (texts_in items)
  items-IsHarmless nil h = tt
  items-IsHarmless (cons (text s) items) h =
      (check_string-IsHarmless s (ground arith), items-IsHarmless items (ground arith))
  items-IsHarmless (cons null items) h = items-IsHarmless items h
  items-IsHarmless (cons (number n) items) h = items-IsHarmless items h
  items-IsHarmless (cons (boolean b) items) h = items-IsHarmless items h
  items-IsHarmless (cons (array inner) items) h = items-IsHarmless items h
  items-IsHarmless (cons (object fields) items) h = items-IsHarmless items h

  value-IsHarmless : (v : Value) → check_value is_high v ≡ false → All IsHarmless (texts_of v)
  value-IsHarmless (text s) h = (check_string-IsHarmless s h, tt)
  value-IsHarmless (array items) h = items-IsHarmless items h
  value-IsHarmless (number n) h = tt
  value-IsHarmless (boolean b) h = tt
  value-IsHarmless null h = tt
  value-IsHarmless (object fields) h = tt

  -- Each signal of a message is one of its type.
  abbrev pub IsSafe : FindingType × Payload → Type 0
  IsSafe message = All (IsSignal message.0) message.1

  signals-IsSafe :
      (type : FindingType) (payload : Payload)
      → any (check_entry is_high) payload ≡ false
      → any (λ entry. not (is_allowed is_high type entry.0)) payload ≡ false
      → IsSafe (type, signals_of is_high parse_json payload)
  signals-IsSafe type payload clean allowed =
      filter-All (λ entry. not (entry.0 == "finding_type")) (check_entry is_high)
        (λ entry. not (is_allowed is_high type entry.0)) (IsSignal type) payload clean allowed
        (λ entry kept fine listed.
          let apart : entry.0 == "finding_type" ≡ false = ground (arith, kept) in
          (
            ground (arith, listed),
            value-IsHarmless entry.1 (ground (arith, fine, apart)),
            λ e. false≢true (sym apart ∙ (eq_iff entry.0 "finding_type").1 e),
          ))

  -- The answer has a text and at least one action.
  abbrev pub IsWhole : InsightsResult → Type 0
  IsWhole result = (is_empty result.summary ≡ false) × (result.recommended_actions ≢ [])

  fallback-IsWhole : (type : FindingType) → IsWhole (fallback_insights type)
  fallback-IsWhole password_strength = (refl, λ h. cc)
  fallback-IsWhole url_scan = (refl, λ h. cc)
  fallback-IsWhole email_scan = (refl, λ h. cc)
  fallback-IsWhole breach_monitor = (refl, λ h. cc)
  fallback-IsWhole file_scan = (refl, λ h. cc)
  fallback-IsWhole weekly_digest = (refl, λ h. cc)

  summary_of-full : (v : Option Value) (s : String) → summary_of v ≡ some s → is_empty s ≡ false
  summary_of-full none s h = cc
  summary_of-full (some (text t)) s h = elim (Bool-cases (is_empty t)) [
    | inl empty ↦ let bad : (none ≡ some s) = sym (rw empty refl) ∙ h in cc
    | inr full ↦
        let same : (some t ≡ some s) = sym (rw full refl) ∙ h in
        let is : (t ≡ s) = cc in subst (λ x. is_empty x ≡ false) is full
  ]
  summary_of-full (some (array items)) s h = cc
  summary_of-full (some (number n)) s h = cc
  summary_of-full (some (boolean b)) s h = cc
  summary_of-full (some null) s h = cc
  summary_of-full (some (object fields)) s h = cc

  complete-IsWhole :
      (v : Option Value) (o : Option String) (actions : Option (List String)) (r : InsightsResult)
      → summary_of v ≡ o
      → complete o actions ≡ some r
      → IsWhole r
  complete-IsWhole v none actions r e h = cc
  complete-IsWhole v (some s) none r e h = cc
  complete-IsWhole v (some s) (some []) r e h = cc
  complete-IsWhole v (some s) (some (a ∷ rest)) r e h =
      let is : (record { summary = s; recommended_actions = a ∷ rest } ≡ r) = cc in
      subst IsWhole is (summary_of-full v s e, λ g. cc)

  object-IsWhole :
      (o : Option (Dict Value)) (r : InsightsResult)
      → complete_object is_high parse_json o ≡ some r
      → IsWhole r
  object-IsWhole none r h = cc
  object-IsWhole (some parsed) r h =
      complete-IsWhole (Dict.get parsed "summary") _
        (actions_of (Dict.get parsed "recommended_actions")) r refl h

  reply-IsWhole :
      (reply : Option String) (r : InsightsResult)
      → parse_reply is_high parse_json reply ≡ some r
      → IsWhole r
  unfolding parse_response
  reply-IsWhole none r h = cc
  reply-IsWhole (some raw) r h = object-IsWhole _ r h

  or_fallback-IsWhole :
      (type : FindingType) (o : Option InsightsResult)
      → ((r : InsightsResult) → o ≡ some r → IsWhole r)
      → IsWhole (or_fallback is_high parse_json type o)
  or_fallback-IsWhole type none whole = fallback-IsWhole type
  or_fallback-IsWhole type (some r) whole = whole r refl

  -- Whether a guard rejects the payload.
  abbrev pub is_rejected : Payload → Bool
  is_rejected payload = reject_if_raw_secret is_high payload || validate_schema is_high payload

  abbrev pub Explained : Bool → Payload → Sent → Option InsightsResult × Sent → Type 0
  Explained has_key payload sent (result, sent') =
      (type : FindingType) × (r : InsightsResult) × (finding_type payload ≡ some type)
      × (result ≡ some r)
      × IsWhole r
      × IsSafe (type, signals_of is_high parse_json payload)
      × (sent' ≡ (if has_key then (type, signals_of is_high parse_json payload) ∷ sent else sent))

  explain-Explained :
      (has_key : Bool) (reply : Option String) (o : Option FindingType) (payload : Payload)
      (sent : Sent)
      → finding_type payload ≡ o
      → any (check_entry is_high) payload ≡ false
      → violates is_high o payload ≡ false
      → Explained has_key payload sent (explain is_high parse_json has_key reply o payload sent)
  explain-Explained has_key reply none payload sent e clean fits = cc
  explain-Explained true reply (some type) payload sent e clean fits = (
    type,
    or_fallback is_high parse_json type (parse_reply is_high parse_json reply),
    e,
    refl,
    or_fallback-IsWhole type (parse_reply is_high parse_json reply) (reply-IsWhole reply),
    signals-IsSafe type payload clean fits,
    refl,
  )
  explain-Explained false reply (some type) payload sent e clean fits = (
    type,
    fallback_insights type,
    e,
    refl,
    fallback-IsWhole type,
    signals-IsSafe type payload clean fits,
    refl,
  )

  -- A payload is refused exactly if a guard rejects it, and then nothing is sent. Otherwise there is
  -- an answer with a text and at least one action, whatever Gemini replies and also if it fails, and
  -- if its key is set, one message is sent, whose signals are those of the payload: each has an
  -- allowed key of the payload's type, and it is no text, and no array with a text directly in it,
  -- that is an e-mail address, has "://" in it, or has 20 characters or more and a high entropy.
  -- Texts that stand deeper, in an object or in an array inside an array, are not looked at.
  pub generate_insights-cases :
      (has_key : Bool) (reply : Option String) (payload : Payload) (sent : Sent)
      → ((is_rejected payload ≡ true)
          × (generate_insights is_high parse_json has_key reply payload sent ≡ (none, sent)))
        ⊎ ((is_rejected payload ≡ false)
            × Explained has_key payload sent
                (generate_insights is_high parse_json has_key reply payload sent))
  unfolding generate_insights reject_if_raw_secret validate_schema
  generate_insights-cases has_key reply payload sent =
      elim (Bool-cases (any (check_entry is_high) payload)) [
        | inl raw ↦ inl (ground (arith, raw), rw raw refl)
        | inr clean ↦ elim (Bool-cases (violates is_high (finding_type payload) payload)) [
          | inl misfit ↦ inl (ground (arith, misfit), rw clean (rw misfit refl))
          | inr fits ↦ inr (
            ground (arith, clean, fits),
            rw clean (
                rw fits (
                  explain-Explained has_key reply (finding_type payload) payload sent refl clean
                    fits)),
          )
        ]
      ]

  -- What a caller learns of the messages from the cases.
  pub generate-IsSafe :
      (has_key : Bool) (reply : Option String) (payload : Payload) (sent : Sent)
      → All IsSafe sent
      → All IsSafe (generate_insights is_high parse_json has_key reply payload sent).1
  generate-IsSafe has_key reply payload sent safe =
      elim (generate_insights-cases has_key reply payload sent) [
        | inl (rejected, e) ↦ rw e safe
        | inr (accepted, (type, r, typed, answered, whole, sound, e)) ↦
            subst (All IsSafe) (sym e)
              (add_message has_key (type, signals_of is_high parse_json payload) sound)
      ]
    where
      add_message :
          (b : Bool) (message : FindingType × Payload)
          → IsSafe message
          → All IsSafe (if b then message ∷ sent else sent)
      add_message true message sound = (sound, safe)
      add_message false message sound = safe
