-- ===== src/Analysis/Insights.antt =====
-- `AiInsightsService` (backend/security-analysis-service/src/ai-insights/ai-insights.service.ts) and
-- the fallback texts of insights-payload.ts. `JSON.parse` is a parameter, none where it throws or
-- gives null. What Gemini replies is an argument: the text of its first candidate, or none if the
-- call fails. The state is the list of the messages sent to Gemini, each with the type that chooses
-- its system prompt and the signals that are printed in it; the texts of the prompts and the printing
-- by `JSON.stringify` are left out, and so is the log.
pub mod Gate
use sentinel_vault.Common.{
  ℕ, ◌-◌, String, Bool, true, false, not, ◌&&◌, ◌||◌, Option, none, some, List, [], ◌∷◌, filter,
  ◌==◌, eqb, all, if◌then◌else◌,
}
use sentinel_vault.Common.Text.{is_empty, is_space, trim, trim_start, starts_with}
use sentinel_vault.Common.Dict
use sentinel_vault.Common.Dict.{Dict}
use sentinel_vault.Analysis.Guard.{
  FindingType, password_strength, url_scan, email_scan, breach_monitor, file_scan, weekly_digest,
  Value, null, text, array, number, boolean, object, Items, nil, cons, Payload, finding_type,
  char_codes, reject_if_raw_secret, validate_schema,
}
use Prim.Native.Char.{code}

pub record InsightsResult : Type 0 where
  pub summary : String
  pub recommended_actions : List String

abbrev pub fallback_insights : FindingType → InsightsResult
fallback_insights password_strength = record {
  summary =
      "This password has been scored for strength using pattern analysis. Weak passwords are the leading cause of account compromise. A strong password uses at least 16 characters with no recognisable words.";
  recommended_actions =
      "Use a randomly generated password of 16+ characters."
      ∷ "Enable two-factor authentication on this account."
      ∷ "Store the new password in your SentinelVault vault." ∷ [];
}
fallback_insights url_scan = record {
  summary =
      "This URL was analysed against local heuristics and reputation data. Phishing sites frequently use lookalike domains or IP addresses. Avoid entering credentials on pages reached through unsolicited links.";
  recommended_actions =
      "Verify the domain spelling matches the organisation you expect."
      ∷ "Look for a valid HTTPS certificate on the destination page."
      ∷ "Do not enter passwords or payment details if any flag was raised." ∷ [];
}
fallback_insights email_scan = record {
  summary =
      "The email headers were analysed for authentication failures. Spoofed sender addresses are the most common entry point for phishing. SPF, DKIM, and DMARC failures together strongly indicate a spoofed message.";
  recommended_actions =
      "Do not click links or open attachments in this email."
      ∷ "Contact the apparent sender via a known-good channel to verify."
      ∷ "Report the message to your email provider as phishing." ∷ [];
}
fallback_insights breach_monitor = record {
  summary =
      "Your email address was found in one or more data breach datasets. Exposed credentials are frequently sold and used in credential-stuffing attacks. Any password shared with a breached service should be changed immediately.";
  recommended_actions =
      "Change the password on every account that used the breached service."
      ∷ "Enable two-factor authentication where possible."
      ∷ "Check whether saved vault items share this password and update them." ∷ [];
}
fallback_insights file_scan = record {
  summary =
      "The file was analysed for common malware indicators. Signature mismatches and double extensions are hallmarks of executables disguised as documents. Macro-enabled Office files can execute code automatically when opened.";
  recommended_actions =
      "Do not open this file unless you fully trust its source."
      ∷ "Run a full antivirus scan before executing any flagged file."
      ∷ "Submit the file to VirusTotal for a deeper analysis if still uncertain." ∷ [];
}
fallback_insights weekly_digest = record {
  summary =
      "Your weekly security digest shows a stable posture. Keep checking and updating weak or reused passwords to protect your online accounts.";
  recommended_actions =
      "Enable two-factor authentication on all critical accounts."
      ∷ "Replace reused passwords with generated ones." ∷ "Run a dark-web check periodically." ∷ [];
}

-- A letter of a pattern with the flag `i`, by the code of its small form.
abbrev pub is_letter : ℕ → ℕ → Bool
is_letter c small = eqb c small || eqb c (small - 32)

abbrev pub tail_after : ℕ → String → String
tail_after n String.[] = ""
tail_after ℕ.zero s = s
tail_after (ℕ.suc n) (String.◌∷◌ c s) = tail_after n s

-- ``/^```json/i``
abbrev pub opens_json : List ℕ → Bool
opens_json (a ∷ b ∷ c ∷ j ∷ s ∷ o ∷ n ∷ rest) =
    eqb a 96
    && (eqb b 96
        && (eqb c 96
            && (is_letter j 106 && (is_letter s 115 && (is_letter o 111 && is_letter n 110)))))
opens_json s = false

-- ``replace(/^```json\s*/i, '')``
unfoldable pub strip_opening : String → String
unfolding trim_start is_space
strip_opening s = if opens_json (char_codes s) then trim_start (tail_after 7 s) else s

-- ``replace(/```\s*$/, '')``: the first fence that only white space follows.
unfoldable pub strip_closing : String → String
unfolding starts_with is_space
strip_closing String.[] = ""
strip_closing (String.◌∷◌ c s) =
    let rest = strip_closing s in
    if starts_with (String.◌∷◌ c s) "```" && all is_space (char_codes (tail_after 2 s))
    then ""
    else String.◌∷◌ c rest

abbrev pub summary_of : Option Value → Option String
summary_of (some (text s)) = if is_empty s then none else some s
summary_of v = none

abbrev pub strings : Items → List String
strings nil = []
strings (cons (text s) items) = s ∷ strings items
strings (cons v items) = strings items

abbrev pub actions_of : Option Value → Option (List String)
actions_of (some (array items)) = some (strings items)
actions_of v = none

-- `if (!summary || !actions || actions.length === 0) throw`
abbrev pub complete : Option String → Option (List String) → Option InsightsResult
complete none actions = none
complete (some s) none = none
complete (some s) (some []) = none
complete (some s) (some (a ∷ rest)) = some (record { summary = s; recommended_actions = a ∷ rest })

abbrev pub Sent : Type 0
Sent = List (FindingType × Payload)

module _ (is_high : List ℕ → ℕ → Bool) (parse_json : String → Option (Dict Value)) where
  abbrev pub complete_object : Option (Dict Value) → Option InsightsResult
  complete_object none = none
  complete_object (some parsed) =
      complete (summary_of (Dict.get parsed "summary"))
        (actions_of (Dict.get parsed "recommended_actions"))

  -- None where the source throws.
  unfoldable pub parse_response : String → Option InsightsResult
  unfolding strip_opening strip_closing trim
  parse_response raw = complete_object (parse_json (trim (strip_closing (strip_opening raw))))

  abbrev pub parse_reply : Option String → Option InsightsResult
  parse_reply none = none
  parse_reply (some raw) = parse_response raw

  abbrev pub or_fallback : FindingType → Option InsightsResult → InsightsResult
  or_fallback type none = fallback_insights type
  or_fallback type (some result) = result

  -- `const { finding_type: _ft, ...signals } = payload`
  abbrev pub signals_of : Payload → Payload
  signals_of payload = filter (λ entry. not (entry.0 == "finding_type")) payload

  abbrev pub explain :
      Bool → Option String → Option FindingType → Payload → Sent → Option InsightsResult × Sent
  explain has_key reply none payload sent = (none, sent)
  explain has_key reply (some type) payload sent =
      if has_key
      then (some (or_fallback type (parse_reply reply)), (type, signals_of payload) ∷ sent)
      else (some (fallback_insights type), sent)

  -- None where the source throws that the payload is rejected.
  unfoldable pub generate_insights :
      Bool → Option String → Payload → Sent → Option InsightsResult × Sent
  generate_insights has_key reply payload sent =
      if reject_if_raw_secret is_high payload
      then (none, sent)
      else if validate_schema is_high payload
      then (none, sent)
      else explain has_key reply (finding_type payload) payload sent
