-- ===== src/Analysis/Scans.antt =====
-- `SecurityAnalysisService` (backend/security-analysis-service/src/security-analysis/
-- security-analysis.service.ts), which asks UrlReputationService for a verdict and AiInsightsService
-- for an explanation. The score of a password and the count of flags are whole numbers. Other
-- callers of AiInsightsService give it a payload of their own.
pub mod Outgoing
mod Tests
use sentinel_vault.Common.{
  ℕ, suc, String, Bool, true, false, ◌||◌, Option, none, some, List, [], ◌∷◌, ◌==◌, if◌then◌else◌,
}
use sentinel_vault.Common.Dict.{Dict}
use sentinel_vault.Common.Number.{ℤ}
use sentinel_vault.Analysis.Reputation.{Cached, lookup}
use sentinel_vault.Analysis.Guard.{Value, text, texts, number, boolean, Payload}
use sentinel_vault.Analysis.Insights.{InsightsResult, Sent, generate_insights}

pub record UrlScan : Type 0 where
  pub reputation_verdict : String
  pub ai_insights : InsightsResult
  pub is_malicious : Bool

pub record EmailSignals : Type 0 where
  pub spf_result : String
  pub dkim_result : String
  pub dmarc_result : String
  pub sender_domain_match : Bool
  pub url_flag_count : ℤ

pub record SecurityAnalysisService : Type 0 where
  pub lower : String → String
  pub has_safe_browsing_key : Bool
  pub has_gemini_key : Bool
  pub is_high : List ℕ → ℕ → Bool
  pub parse_json : String → Option (Dict Value)

pub record State : Type 0 where
  pub cache : Dict Cached
  pub sent : Sent

abbrev pub is_empty_list : List String → Bool
is_empty_list [] = true
is_empty_list (x ∷ xs) = false

abbrev pub url_payload : String → List String → String → Payload
url_payload domain heuristics verdict =
    ("finding_type", text "url_scan")
    ∷ ("domain", text domain)
    ∷ ("heuristic_flags", texts heuristics)
    ∷ ("reputation_verdict", text verdict)
    ∷ []

abbrev pub password_payload : ℤ → List String → Payload
password_payload score patterns =
    ("finding_type", text "password_strength")
    ∷ ("score", number score)
    ∷ ("matched_patterns", texts patterns)
    ∷ []

abbrev pub email_payload : EmailSignals → Payload
email_payload signals =
    ("finding_type", text "email_scan")
    ∷ ("spf_result", text signals.spf_result)
    ∷ ("dkim_result", text signals.dkim_result)
    ∷ ("dmarc_result", text signals.dmarc_result)
    ∷ ("sender_domain_match", boolean signals.sender_domain_match)
    ∷ ("url_flag_count", number signals.url_flag_count)
    ∷ []

abbrev pub scan_result : String → List String → Option InsightsResult → Option UrlScan
scan_result verdict heuristics none = none
scan_result verdict heuristics (some insights) = some (record {
  reputation_verdict = verdict;
  ai_insights = insights;
  is_malicious =
      if verdict == "malicious" then true else (if is_empty_list heuristics then false else true);
})

module _ (service : SecurityAnalysisService) where
  open service use {lower, has_safe_browsing_key, has_gemini_key, is_high, parse_json}

  unfoldable pub insights : Option String → Payload → State → Option InsightsResult × State
  insights reply payload s =
      let (result, sent) =
        generate_insights is_high parse_json has_gemini_key reply payload s.sent in
      (result, record s { sent = sent })

  unfoldable pub scan_url :
      ℕ → String → List String → Option Bool → Option String → State → Option UrlScan × State
  unfolding insights
  scan_url now domain heuristics answer reply s =
      let (verdict, cache) = lookup lower has_safe_browsing_key now domain answer s.cache in
      let (result, s') =
        insights reply (url_payload domain heuristics verdict) (record s { cache = cache }) in
      (scan_result verdict heuristics result, s')

  abbrev pub explain_password_strength :
      ℤ → List String → Option String → State → Option InsightsResult × State
  explain_password_strength score patterns reply = insights reply (password_payload score patterns)

  abbrev pub explain_email_scan :
      EmailSignals → Option String → State → Option InsightsResult × State
  explain_email_scan signals reply = insights reply (email_payload signals)

  pub data Op : Type 0 where
    scans_url : ℕ → String → List String → Option Bool → Option String → Op
    explains_password : ℤ → List String → Option String → Op
    explains_email : EmailSignals → Option String → Op
    generates : Payload → Option String → Op

  unfoldable pub step : Op → State → State
  unfolding insights scan_url
  step (scans_url now domain heuristics answer reply) s =
      (scan_url now domain heuristics answer reply s).1
  step (explains_password score patterns reply) s =
      (explain_password_strength score patterns reply s).1
  step (explains_email signals reply) s = (explain_email_scan signals reply s).1
  step (generates payload reply) s = (insights reply payload s).1

  unfoldable pub run : List Op → State → State
  run [] s = s
  run (op ∷ ops) s = run ops (step op s)
