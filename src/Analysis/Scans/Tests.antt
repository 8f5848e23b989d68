-- ===== src/Analysis/Scans/Tests.antt =====
-- Scans and explanations on concrete input.
use sentinel_vault.Common.{
  ℕ, String, Bool, true, false, ◌≡◌, ◌⊎◌, ◌↔◌, refl, Option, none, some, List, [], ◌∷◌,
}
use sentinel_vault.Common.Dict
use sentinel_vault.Common.Dict.{Dict}
use sentinel_vault.Common.Text.{trim, includes}
use sentinel_vault.Common.Number.{pos}
use sentinel_vault.Analysis.Reputation.{lookup}
use sentinel_vault.Analysis.Guard.{
  Value, text, texts, array, nil, cons, object, end, field, Payload, property_key, url_scan,
  char_codes, is_email, has_scheme, has_high_entropy, reject_if_raw_secret, validate_schema,
}
use sentinel_vault.Analysis.Guard.Email.{IsAddress, is_email_iff}
use sentinel_vault.Analysis.Insights.{
  generate_insights, parse_response, strip_opening, strip_closing,
}
use sentinel_vault.Analysis.Insights.Gate.{is_rejected, Explained, generate_insights-cases}
use sentinel_vault.Analysis.Scans.{
  SecurityAnalysisService, UrlScan, Op, scans_url, explains_password, generates, url_payload,
  scan_url, insights, step, run,
}
use sentinel_vault.Analysis.Scans.Outgoing.{AllSafe, sent_stays_safe, scan_known_bad}

-- Opens what the tests compute with.
scans_open : Unit {0}
unfolding lookup run step scan_url insights generate_insights parse_response strip_opening
    strip_closing reject_if_raw_secret validate_schema is_email has_scheme has_high_entropy trim
    includes property_key Dict.get Dict.set
scans_open = tt

-- Nothing has a high entropy here, and every text parses to the same object.
abbrev is_high : List ℕ → ℕ → Bool
is_high counts n = false

abbrev parse_json : String → Option (Dict Value)
parse_json s = some (("summary", text s) ∷ ("recommended_actions", texts ("act" ∷ [])) ∷ [])

abbrev service : SecurityAnalysisService
service = record {
  lower = λ s. s;
  has_safe_browsing_key = true;
  has_gemini_key = true;
  is_high = is_high;
  parse_json = parse_json;
}

addresses :
    (is_email "ann@mail.example.org" ≡ true)
    × (is_email "ann@example.o" ≡ false)
    × (is_email "a b@example.org" ≡ false)
    × (is_email "ann@@example.org" ≡ false)
    × (is_email "@example.org" ≡ false)
unfolding scans_open
addresses = (refl, refl, refl, refl, refl)

fences :
    (parse_response is_high parse_json "```JSON  {} ``` "
      ≡ some (record { summary = "{}"; recommended_actions = "act" ∷ [] }))
    × (parse_response is_high parse_json "" ≡ none)
unfolding scans_open
fences = (refl, refl)

is_email_iff_example :
    (is_email "ann@example.org" ≡ true) ↔ IsAddress false (char_codes "ann@example.org")
is_email_iff_example = is_email_iff "ann@example.org"

abbrev payload : Payload
payload = url_payload "a.b" ("punycode" ∷ []) "safe"

sent_once :
    (generate_insights is_high parse_json true (some "text") payload []).1
    ≡ (
      url_scan,
      ("domain", text "a.b")
          ∷ ("heuristic_flags", texts ("punycode" ∷ []))
          ∷ ("reputation_verdict", text "safe")
          ∷ [],
    )
      ∷ []
unfolding scans_open
sent_once = refl

refused :
    (generate_insights is_high parse_json true
        (some "text")
        (url_payload "https://a.b/c" [] "safe")
        []
      ≡ (none, []))
    × (generate_insights is_high parse_json true (some "text") (("password", text "x") ∷ payload) []
        ≡ (none, []))
unfolding scans_open
refused = (refl, refl)

-- An e-mail address inside an object is sent, and so is one in an array inside an array; the type
-- may be an array of one text.
abbrev deep : Value
deep = object (field "x" (text "ann@example.org") end)

abbrev inner : Value
inner = array (cons (texts ("ann@example.org" ∷ [])) nil)

deep_is_sent :
    (generate_insights is_high parse_json true
      (some "text")
      (("finding_type", texts ("url_scan" ∷ []))
        ∷ ("domain", deep)
        ∷ ("heuristic_flags", inner)
        ∷ [])
      []).1
    ≡ (url_scan, ("domain", deep) ∷ ("heuristic_flags", inner) ∷ []) ∷ []
unfolding scans_open
deep_is_sent = refl

generate_insights-cases_example :
    ((is_rejected is_high parse_json payload ≡ true)
      × (generate_insights is_high parse_json true none payload [] ≡ (none, [])))
    ⊎ ((is_rejected is_high parse_json payload ≡ false)
        × Explained is_high parse_json true payload []
            (generate_insights is_high parse_json true none payload []))
generate_insights-cases_example = generate_insights-cases is_high parse_json true none payload []

abbrev ops : List (Op service)
ops =
    scans_url 1 "a.b" [] (some false) (some "text")
    ∷ generates (("secret", text "x") ∷ payload) none
    ∷ explains_password (pos 2) ("dictionary" ∷ []) none
    ∷ []

sent_stays_safe_example : AllSafe service (run service ops (record { cache = []; sent = [] }))
sent_stays_safe_example = sent_stays_safe service ops []

scan_known_bad_example :
    (scan : UrlScan) × ((scan_url service 9 " phishing-site.xyz" []
        (some false)
        none
        (run service ops (record { cache = []; sent = [] }))).0
      ≡ some scan)
    × (scan.reputation_verdict ≡ "malicious")
    × (scan.is_malicious ≡ true)
unfolding scans_open
scan_known_bad_example =
    scan_known_bad service ops 9 " phishing-site.xyz" [] (some false) none refl refl
