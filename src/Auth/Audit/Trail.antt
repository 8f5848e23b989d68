-- ===== src/Auth/Audit/Trail.antt =====
-- What the audit trail holds and what a page of it shows.
use sentinel_vault.Common.{
  ℕ, zero, suc, ◌≤◌, String, Bool, true, false, not, ◌≡◌, ◌≢◌, refl, sym, ap, subst, ◌∙◌, inl, inr,
  Option, none, some, List, [], ◌∷◌, All, any, length, filter, ◌==◌, eq_iff, eq_refl, arith,
  Bool-cases,
}
use sentinel_vault.Common.Text.{includes}
use sentinel_vault.Common.Dict.{Dict}
use sentinel_vault.Common.Equality.{string_eq}
use sentinel_vault.Common.Exec.{Result, ok, err}
use sentinel_vault.Common.Repository.{descending}
use sentinel_vault.Auth.Audit.{
  AuditService, AuditEvent, LogEventParams, MetaValue, event_time, is_type, wanted_event,
  is_forbidden, new_event, log_event, get_user_audit_logs, run, take, skip, sanitize_metadata,
}

module _ {ℓ} {A : Type ℓ} where
  filter-not : (p : A → Bool) (xs : List A) → any p (filter (λ x. not (p x)) xs) ≡ false
  filter-not p [] = refl
  filter-not p (x ∷ xs) = ground (arith, filter-not p xs)

  take_all : (n : ℕ) (xs : List A) → length xs ≤ n → take n xs ≡ xs
  take_all zero [] h = refl
  take_all zero (x ∷ xs) h = ground arith
  take_all (suc n) [] h = refl
  take_all (suc n) (x ∷ xs) h = ap (λ ys. x ∷ ys) (take_all n xs (ground arith))

module _ {ℓ κ} {A : Type ℓ} (P : A → Type κ) where
  take-All : (n : ℕ) (xs : List A) → All P xs → All P (take n xs)
  take-All zero xs all = tt
  take-All (suc n) [] all = tt
  take-All (suc n) (x ∷ xs) all = (all.0, take-All n xs all.1)

  skip-All : (n : ℕ) (xs : List A) → All P xs → All P (skip n xs)
  skip-All zero xs all = all
  skip-All (suc n) [] all = tt
  skip-All (suc n) (x ∷ xs) all = skip-All n xs all.1

module _ {ℓ κ μ} {A : Type ℓ} {P : A → Type κ} {Q : A → Type μ} where
  pub map-All : (xs : List A) → ((x : A) → P x → Q x) → All P xs → All Q xs
  map-All [] f all = tt
  map-All (x ∷ xs) f all = (f x all.0, map-All xs f all.1)

module _ (audit : AuditService) where
  open audit use {events, lower}

  -- The key has in lower case none of these words in it.
  abbrev pub IsHarmless : String → Type 0
  IsHarmless key =
      (includes (lower key) "password" ≡ false)
      × (includes (lower key) "plaintext" ≡ false)
      × (includes (lower key) "secret" ≡ false)
      × (includes (lower key) "seedphrase" ≡ false)
      × (includes (lower key) "privatekey" ≡ false)
      × (includes (lower key) "token" ≡ false)
      × (includes (lower key) "content" ≡ false)
      × (includes (lower key) "masterkey" ≡ false)
      × (includes (lower key) "vaultkey" ≡ false)

  -- All keys of the event's metadata are harmless; those inside its values are not looked at.
  abbrev pub IsClean : AuditEvent → Type 0
  IsClean e =
      (meta : Dict MetaValue) → e.metadata ≡ some meta → All (λ entry. IsHarmless entry.0) meta

  allowed-IsHarmless : (key : String) → is_forbidden audit key ≡ false → IsHarmless key
  allowed-IsHarmless key h = (
    ground arith,
    ground arith,
    ground arith,
    ground arith,
    ground arith,
    ground arith,
    ground arith,
    ground arith,
    ground arith,
  )

  clean-All :
      (meta : Dict MetaValue)
      → any (λ entry. is_forbidden audit entry.0) meta ≡ false
      → All (λ entry. IsHarmless entry.0) meta
  clean-All [] h = tt
  clean-All (entry ∷ meta) h =
      (allowed-IsHarmless entry.0 (ground arith), clean-All meta (ground arith))

  abbrev pub AllClean : events.Table → Type 0
  AllClean t = (id : String) (e : AuditEvent) → events.at t id ≡ some e → IsClean e

  new_event-IsClean :
      (id : String) (now : ℕ) (params : LogEventParams) → IsClean (new_event audit id now params)
  new_event-IsClean id now params meta h = clean-All meta (go params.metadata h)
    where
      go :
          (given : Option (Dict MetaValue))
          → sanitize_metadata audit given ≡ some meta
          → any (λ entry. is_forbidden audit entry.0) meta ≡ false
      go none h = cc
      go (some m) h =
          let same : (filter (λ entry. not (is_forbidden audit entry.0)) m ≡ meta) = cc in
          subst (λ x. any (λ entry. is_forbidden audit entry.0) x ≡ false) same
            (filter-not (λ entry. is_forbidden audit entry.0) m)

  log_event-AllClean :
      (id : String) (now : ℕ) (params : LogEventParams) (t : events.Table)
      → AllClean t
      → AllClean (log_event audit id now params t).1
  unfolding log_event
  log_event-AllClean id now params t clean k e there = elim (Bool-cases (id == k)) [
    | inl same ↦
        let is : (new_event audit id now params ≡ e) =
          ground (arith, events.at-save (new_event audit id now params) t k, same, there) in
        subst IsClean is (new_event-IsClean id now params)
    | inr other ↦
        clean k e (sym (events.at-save (new_event audit id now params) t k ∙ rw other refl) ∙ there)
  ]

  run-AllClean :
      (ops : List (String × ℕ × LogEventParams)) (t : events.Table)
      → AllClean t
      → AllClean (run audit ops t)
  unfolding run
  run-AllClean [] t clean = clean
  run-AllClean ((id, now, params) ∷ ops) t clean =
      run-AllClean ops _ (log_event-AllClean id now params t clean)

  -- What a caller may see on a page of its events.
  abbrev pub OnPage : String → Option String → events.Table → AuditEvent → Type 0
  OnPage user type t e =
      (e.user_id ≡ user) × (is_type type e ≡ true) × (events.at t e.id ≡ some e) × IsClean e

  page-OnPage :
      (user : String) (type : Option String) (t : events.Table)
      → AllClean t
      → All (OnPage user type t) (events.find (descending event_time) (wanted_event user type) t)
  page-OnPage user type t clean =
      map-All _
        (λ e (hit, there).
          (ground (arith, eq_iff e.user_id user), ground arith, there, clean e.id e there))
        (events.find-sound (descending event_time) (wanted_event user type) t)

  abbrev pub Page : (List AuditEvent → Type 0) → Result (List AuditEvent × ℕ) → Type 0
  Page P (ok (events, total)) = P events
  Page P (err e) = ⊥

  -- After a history of events, from a table in which no event has such a key, each event on each
  -- page of `getUserAuditLogs` is a stored event of the user, of the type asked for if one is, and
  -- no key of its metadata, apart from keys inside the values, has in lower case "password",
  -- "plaintext", "secret", "seedphrase", "privatekey", "token", "content", "masterkey" or
  -- "vaultkey" in it.
  pub Page-All :
      (ops : List (String × ℕ × LogEventParams)) (user : String) (type : Option String)
      (limit offset : ℕ) (t : events.Table)
      → AllClean t
      → Page
          (All (OnPage user type (run audit ops t)))
          (get_user_audit_logs audit user type limit offset (run audit ops t)).0
  unfolding get_user_audit_logs
  Page-All ops user type limit offset t clean =
      take-All _ limit _
        (skip-All _ offset _ (page-OnPage user type (run audit ops t) (run-AllClean ops t clean)))

  log_event-at :
      (id : String) (now : ℕ) (params : LogEventParams) (t : events.Table) (k : String)
      → k ≢ id
      → events.at (log_event audit id now params t).1 k ≡ events.at t k
  unfolding log_event
  log_event-at id now params t k other =
      events.at-save (new_event audit id now params) t k ∙ ground (arith, eq_iff id k)

  run-at :
      (ops : List (String × ℕ × LogEventParams)) (t : events.Table) (k : String)
      → All (λ op. k ≢ op.0) ops
      → events.at (run audit ops t) k ≡ events.at t k
  unfolding run
  run-at [] t k other = refl
  run-at ((id, now, params) ∷ ops) t k other =
      run-at ops _ k other.1 ∙ log_event-at id now params t k other.0

  -- A logged event stays listed: after `logEvent`, and after any further events with other
  -- identifiers, the event of that identifier is on the first page of its user, of its type or of
  -- all, if the page is as long as the list.
  pub logged_listed :
      (id : String) (now : ℕ) (params : LogEventParams) (ops : List (String × ℕ × LogEventParams))
      (type : Option String) (limit : ℕ) (t : events.Table)
      → is_type type (new_event audit id now params) ≡ true
      → All (λ op. id ≢ op.0) ops
      → length (
          events.find
            (descending event_time)
            (wanted_event params.user_id type)
            (run audit ops (log_event audit id now params t).1))
        ≤ limit
      → (events.at (run audit ops (log_event audit id now params t).1) id
          ≡ some (new_event audit id now params))
        × Page
            (λ page. any (λ (e : AuditEvent). e.id == id) page ≡ true)
            (get_user_audit_logs audit params.user_id type limit 0
              (run audit ops (log_event audit id now params t).1)).0
  unfolding get_user_audit_logs log_event
  logged_listed id now params ops type limit t typed others long =
      let t' = run audit ops (log_event audit id now params t).1 in
      let there : events.at t' id ≡ some (new_event audit id now params) =
        run-at ops _ id others
        ∙ events.at-save (new_event audit id now params) t id
        ∙ rw eq_refl refl in
      let hit : wanted_event params.user_id type (new_event audit id now params) ≡ true =
        ground (arith, eq_refl params.user_id) in
      (
        there,
        rw (take_all limit _ long) (
            events.find-complete (descending event_time) (wanted_event params.user_id type) t' id
              (new_event audit id now params) there hit),
      )
