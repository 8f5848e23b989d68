-- ===== src/Analysis/Reputation/History.antt =====
-- Verdicts after any history of lookups.
use sentinel_vault.Common.{
  ℕ, ◌+◌, ◌<◌, String, Bool, true, ◌≡◌, refl, sym, ap, subst, ◌∙◌, inl, inr, Option, none, some,
  List, [], ◌∷◌, ◌==◌, eq_iff, eq_refl, arith, Bool-cases, Option-cases,
}
use sentinel_vault.Common.Dict
use sentinel_vault.Common.Dict.{Dict, get-set}
use sentinel_vault.Analysis.Reputation.{
  Cached, cache_ttl_ms, is_known_bad, is_fresh, normalized, fresh_verdict, look_up_normalized,
  answer_from, lookup, Op, looks_up, clears_cache, step, run,
}

module _ (lower : String → String) (has_api_key : Bool) where
  -- A domain that the code knows as bad is cached as malicious, if at all.
  abbrev pub KnowsBad : Dict Cached → Type 0
  KnowsBad cache =
      (domain : String) (c : Cached)
      → Dict.get cache domain ≡ some c
      → is_known_bad domain ≡ true
      → c.verdict ≡ "malicious"

  set-KnowsBad :
      (now : ℕ) (domain : String) (answer : Option Bool) (cache : Dict Cached)
      → KnowsBad cache
      → KnowsBad (look_up_normalized lower has_api_key now domain answer cache).1
  set-KnowsBad now domain answer cache knows d c there bad =
      let row : Cached = record {
        verdict = fresh_verdict lower has_api_key domain answer;
        timestamp = now;
      } in
      elim (Bool-cases (domain == d)) [
        | inl same ↦
            let is : (row ≡ c) = ground (arith, get-set cache domain d row, same, there) in
            let here : is_known_bad domain ≡ true =
              subst (λ x. is_known_bad x ≡ true) (sym ((eq_iff domain d).0 same)) bad in
            ap (λ (x : Cached). x.verdict) (sym is) ∙ rw here refl
        | inr other ↦ knows d c (sym (get-set cache domain d row ∙ rw other refl) ∙ there) bad
      ]

  pub answer-KnowsBad :
      (now : ℕ) (domain : String) (answer : Option Bool) (cache : Dict Cached) (o : Option Cached)
      → KnowsBad cache
      → KnowsBad (answer_from lower has_api_key now domain answer cache o).1
  answer-KnowsBad now domain answer cache none knows = set-KnowsBad now domain answer cache knows
  answer-KnowsBad now domain answer cache (some c) knows = elim (Bool-cases (is_fresh now c)) [
    | inl fresh ↦ rw fresh knows
    | inr old ↦ rw old (set-KnowsBad now domain answer cache knows)
  ]

  step-KnowsBad :
      (op : Op lower has_api_key) (cache : Dict Cached)
      → KnowsBad cache
      → KnowsBad (step lower has_api_key op cache)
  unfolding step lookup Dict.get
  step-KnowsBad (looks_up now domain answer) cache knows =
      answer-KnowsBad now (normalized lower has_api_key domain) answer cache
        (Dict.get cache (normalized lower has_api_key domain)) knows
  step-KnowsBad clears_cache cache knows = λ d c there bad. cc

  run-KnowsBad :
      (ops : List (Op lower has_api_key)) (cache : Dict Cached)
      → KnowsBad cache
      → KnowsBad (run lower has_api_key ops cache)
  unfolding run
  run-KnowsBad [] cache knows = knows
  run-KnowsBad (op ∷ ops) cache knows =
      run-KnowsBad ops (step lower has_api_key op cache) (step-KnowsBad op cache knows)

  pub lookup-malicious :
      (now : ℕ) (domain : String) (answer : Option Bool) (cache : Dict Cached)
      → KnowsBad cache
      → is_known_bad (normalized lower has_api_key domain) ≡ true
      → (lookup lower has_api_key now domain answer cache).0 ≡ "malicious"
  unfolding lookup
  lookup-malicious now domain answer cache knows bad =
      let name = normalized lower has_api_key domain in
      elim (Option-cases (Dict.get cache name)) [
        | inl unseen ↦ rw unseen (rw bad refl)
        | inr (c, there) ↦ rw there (elim (Bool-cases (is_fresh now c)) [
          | inl fresh ↦ rw fresh (knows name c there bad)
          | inr old ↦ rw old (rw bad refl)
        ])
      ]

  pub empty-KnowsBad : KnowsBad []
  unfolding Dict.get
  empty-KnowsBad d c there bad = cc

  -- After any history of lookups from an empty cache, the verdict on a domain that is on the local
  -- list or has "security-alert" in it, in lower case and without white space around it, is
  -- malicious, at any time and whatever Safe Browsing answers.
  pub known_bad_malicious :
      (ops : List (Op lower has_api_key)) (now : ℕ) (domain : String) (answer : Option Bool)
      → is_known_bad (normalized lower has_api_key domain) ≡ true
      → (lookup lower has_api_key now domain answer (run lower has_api_key ops [])).0 ≡ "malicious"
  known_bad_malicious ops now domain answer bad =
      lookup-malicious now domain answer (run lower has_api_key ops [])
        (run-KnowsBad ops [] empty-KnowsBad) bad

  -- A lookup less than a minute after a lookup of the same domain that stored its verdict gives the
  -- stored verdict again, whatever Safe Browsing would answer now, and leaves the cache alone.
  pub cached_minute :
      (now later : ℕ) (domain : String) (answer answer' : Option Bool) (cache : Dict Cached)
      → Dict.get cache (normalized lower has_api_key domain) ≡ none
      → later < now + cache_ttl_ms
      → lookup lower has_api_key later domain answer'
          (lookup lower has_api_key now domain answer cache).1
        ≡ lookup lower has_api_key now domain answer cache
  unfolding lookup
  cached_minute now later domain answer answer' cache unseen soon =
      let name = normalized lower has_api_key domain in
      let row : Cached = record {
        verdict = fresh_verdict lower has_api_key name answer;
        timestamp = now;
      } in
      let fresh : is_fresh later row ≡ true = ground arith in
      rw unseen (rw (get-set cache name name row) (rw eq_refl (rw fresh refl)))
