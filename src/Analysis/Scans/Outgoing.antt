-- ===== src/Analysis/Scans/Outgoing.antt =====
-- What the analysis sends and answers after any history.
use sentinel_vault.Common.{
  ℕ, String, Bool, true, false, false≢true, inl, inr, ◌≡◌, refl, sym, ap, ◌∙◌, Option, none, some,
  List, [], ◌∷◌, All, ◌==◌, if◌then◌else◌,
}
use sentinel_vault.Common.Dict.{Dict}
use sentinel_vault.Analysis.Reputation.{Cached, is_known_bad, normalized, lookup}
use sentinel_vault.Analysis.Reputation.History.{
  KnowsBad, answer-KnowsBad, empty-KnowsBad, lookup-malicious,
}
use sentinel_vault.Analysis.Guard.{Payload}
use sentinel_vault.Analysis.Insights.{InsightsResult}
use sentinel_vault.Analysis.Insights.Gate.{
  IsSafe, is_rejected, generate-IsSafe, generate_insights-cases,
}
use sentinel_vault.Analysis.Scans.{
  is_empty_list, SecurityAnalysisService, State, UrlScan, scan_result, insights, scan_url,
  url_payload, password_payload, email_payload, Op, scans_url, explains_password, explains_email,
  generates, step, run,
}

module _ (service : SecurityAnalysisService) where
  open service use {lower, has_safe_browsing_key, has_gemini_key, is_high, parse_json}

  abbrev pub AllSafe : State → Type 0
  AllSafe s = All (IsSafe is_high parse_json) s.sent

  insights-AllSafe :
      (reply : Option String) (payload : Payload) (s : State)
      → AllSafe s
      → AllSafe (insights service reply payload s).1
  unfolding insights
  insights-AllSafe reply payload s safe =
      generate-IsSafe is_high parse_json has_gemini_key reply payload s.sent safe

  step-AllSafe : (op : Op service) (s : State) → AllSafe s → AllSafe (step service op s)
  unfolding step scan_url insights
  step-AllSafe (scans_url now domain heuristics answer reply) s safe =
      generate-IsSafe is_high parse_json has_gemini_key reply
        (url_payload domain heuristics
          (lookup lower has_safe_browsing_key now domain answer s.cache).0)
        s.sent safe
  step-AllSafe (explains_password score patterns reply) s safe =
      insights-AllSafe reply (password_payload score patterns) s safe
  step-AllSafe (explains_email signals reply) s safe =
      insights-AllSafe reply (email_payload signals) s safe
  step-AllSafe (generates payload reply) s safe = insights-AllSafe reply payload s safe

  run-AllSafe : (ops : List (Op service)) (s : State) → AllSafe s → AllSafe (run service ops s)
  unfolding run
  run-AllSafe [] s safe = safe
  run-AllSafe (op ∷ ops) s safe = run-AllSafe ops (step service op s) (step-AllSafe op s safe)

  -- Each message that was sent to Gemini after any history of scans and explanations that starts
  -- with none sent has only signals with an allowed key of its type, and none of them is a text, or
  -- an array with a text directly in it, that is an e-mail address, has "://" in it, or has 20
  -- characters or more and a high entropy. Texts that stand deeper, in an object or in an array
  -- inside an array, are not looked at (Scans/Tests).
  pub sent_stays_safe :
      (ops : List (Op service)) (cache : Dict Cached)
      → AllSafe (run service ops (record { cache = cache; sent = [] }))
  sent_stays_safe ops cache = run-AllSafe ops (record { cache = cache; sent = [] }) tt

  lookup-KnowsBad :
      (now : ℕ) (domain : String) (answer : Option Bool) (cache : Dict Cached)
      → KnowsBad lower has_safe_browsing_key cache
      → KnowsBad lower has_safe_browsing_key
          (lookup lower has_safe_browsing_key now domain answer cache).1
  unfolding lookup
  lookup-KnowsBad now domain answer cache knows =
      answer-KnowsBad lower has_safe_browsing_key now
        (normalized lower has_safe_browsing_key domain) answer cache _ knows

  step-KnowsBad :
      (op : Op service) (s : State)
      → KnowsBad lower has_safe_browsing_key s.cache
      → KnowsBad lower has_safe_browsing_key (step service op s).cache
  unfolding step scan_url insights
  step-KnowsBad (scans_url now domain heuristics answer reply) s knows =
      lookup-KnowsBad now domain answer s.cache knows
  step-KnowsBad (explains_password score patterns reply) s knows = knows
  step-KnowsBad (explains_email signals reply) s knows = knows
  step-KnowsBad (generates payload reply) s knows = knows

  run-KnowsBad :
      (ops : List (Op service)) (s : State)
      → KnowsBad lower has_safe_browsing_key s.cache
      → KnowsBad lower has_safe_browsing_key (run service ops s).cache
  unfolding run
  run-KnowsBad [] s knows = knows
  run-KnowsBad (op ∷ ops) s knows = run-KnowsBad ops (step service op s) (step-KnowsBad op s knows)

  scan_result-malicious :
      (verdict : String) (heuristics : List String) (o : Option InsightsResult) (r : InsightsResult)
      → verdict ≡ "malicious"
      → o ≡ some r
      → (scan : UrlScan) × (scan_result verdict heuristics o ≡ some scan)
        × (scan.reputation_verdict ≡ "malicious")
        × (scan.is_malicious ≡ true)
  scan_result-malicious verdict heuristics none r bad h = cc
  scan_result-malicious verdict heuristics (some result) r bad h = (
    record {
      reputation_verdict = verdict;
      ai_insights = result;
      is_malicious =
          if verdict == "malicious"
          then true
          else (if is_empty_list heuristics then false else true);
    },
    refl,
    bad,
    rw bad refl,
  )

  -- After any history from an empty cache, a scan of a domain that is on the local list or has
  -- "security-alert" in it, in lower case and without white space around it, returns, and reports
  -- the verdict malicious and the domain as malicious, whatever the outside services answer, if the
  -- guard of payloads does not reject the domain and the flags of the scan.
  pub scan_known_bad :
      (ops : List (Op service)) (now : ℕ) (domain : String) (heuristics : List String)
      (answer : Option Bool) (reply : Option String)
      → is_known_bad (normalized lower has_safe_browsing_key domain) ≡ true
      → is_rejected is_high parse_json (url_payload domain heuristics "malicious") ≡ false
      → (scan : UrlScan) × ((scan_url service now domain heuristics answer reply
            (run service ops (record { cache = []; sent = [] }))).0
          ≡ some scan)
        × (scan.reputation_verdict ≡ "malicious")
        × (scan.is_malicious ≡ true)
  unfolding scan_url insights
  scan_known_bad ops now domain heuristics answer reply bad accepted =
      let start : State = record { cache = []; sent = [] } in
      let s = run service ops start in
      let verdict = (lookup lower has_safe_browsing_key now domain answer s.cache).0 in
      let malicious : verdict ≡ "malicious" =
        lookup-malicious lower has_safe_browsing_key now domain answer s.cache
          (run-KnowsBad ops start (empty-KnowsBad lower has_safe_browsing_key)) bad in
      elim (generate_insights-cases is_high parse_json has_gemini_key reply
        (url_payload domain heuristics verdict) s.sent) [
          | inl (rejected, e) ↦ absurd (
              false≢true (
                sym accepted
                ∙ ap (λ v. is_rejected is_high parse_json (url_payload domain heuristics v))
                    (sym malicious)
                ∙ rejected))
          | inr (fine, (type, r, typed, answered, whole, sound, sent)) ↦
              scan_result-malicious verdict heuristics _ r malicious answered
        ]
