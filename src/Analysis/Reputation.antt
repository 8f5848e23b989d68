-- ===== src/Analysis/Reputation.antt =====
-- `UrlReputationService` (backend/security-analysis-service/src/url-reputation/
-- url-reputation.service.ts): verdicts on domains, from a list in the code or from Google Safe
-- Browsing, with a cache. `toLowerCase` and whether an API key is set are parameters. What Safe
-- Browsing answers to a lookup is an argument of it: whether it has matches, or none if the call
-- fails.
pub mod History
mod Tests
use sentinel_vault.Common.{
  ℕ, ◌+◌, ◌*◌, String, Bool, true, false, ◌||◌, Option, none, some, List, [], ◌∷◌, any, ◌==◌, ltb,
  if◌then◌else◌,
}
use sentinel_vault.Common.Text.{trim, includes}
use sentinel_vault.Common.Dict
use sentinel_vault.Common.Dict.{Dict}

pub record Cached : Type 0 where
  pub verdict : String
  pub timestamp : ℕ

abbrev pub cache_ttl_ms : ℕ
cache_ttl_ms = 60 * 1000

abbrev pub local_blacklist : List String
local_blacklist =
    "malicious-domain.com" ∷ "phishing-site.xyz" ∷ "xn--pple-43d.com" ∷ "аpple.com" ∷ "192.168.1.1"
    ∷ "[2001:db8::1]" ∷ []

abbrev pub is_blacklisted : String → Bool
is_blacklisted domain = any (λ d. d == domain) local_blacklist

abbrev pub is_known_bad : String → Bool
is_known_bad domain = is_blacklisted domain || includes domain "security-alert"

-- `Date.now() - cached.timestamp < this.CACHE_TTL_MS`
abbrev pub is_fresh : ℕ → Cached → Bool
is_fresh now c = ltb now (c.timestamp + cache_ttl_ms)

-- The verdict of Safe Browsing; a failed call leaves that of the list.
abbrev pub browsed : String → Option Bool → String
browsed domain none = if is_blacklisted domain then "malicious" else "unknown"
browsed domain (some matches) = if matches then "malicious" else "safe"

module _ (lower : String → String) (has_api_key : Bool) where
  abbrev pub normalized : String → String
  normalized domain = lower (trim domain)

  abbrev pub fresh_verdict : String → Option Bool → String
  fresh_verdict domain answer =
      if is_known_bad domain
      then "malicious"
      else if has_api_key
      then browsed domain answer
      else "safe"

  abbrev pub look_up_normalized : ℕ → String → Option Bool → Dict Cached → String × Dict Cached
  look_up_normalized now domain answer cache =
      let verdict = fresh_verdict domain answer in
      (verdict, Dict.set cache domain (record { verdict = verdict; timestamp = now }))

  abbrev pub answer_from :
      ℕ → String → Option Bool → Dict Cached → Option Cached → String × Dict Cached
  answer_from now domain answer cache none = look_up_normalized now domain answer cache
  answer_from now domain answer cache (some c) =
      if is_fresh now c then (c.verdict, cache) else look_up_normalized now domain answer cache

  unfoldable pub lookup : ℕ → String → Option Bool → Dict Cached → String × Dict Cached
  lookup now domain answer cache =
      answer_from now (normalized domain) answer cache (Dict.get cache (normalized domain))

  abbrev pub clear_cache : Dict Cached → Dict Cached
  clear_cache cache = []

  pub data Op : Type 0 where
    looks_up : ℕ → String → Option Bool → Op
    clears_cache : Op

  unfoldable pub step : Op → Dict Cached → Dict Cached
  step (looks_up now domain answer) cache = (lookup now domain answer cache).1
  step clears_cache cache = clear_cache cache

  unfoldable pub run : List Op → Dict Cached → Dict Cached
  run [] cache = cache
  run (op ∷ ops) cache = run ops (step op cache)
