-- ===== src/Analysis/Breaches/Once.antt =====
-- A breach is reported once.
use sentinel_vault.Common.{
  ℕ, String, Bool, true, false, not, ◌≡◌, refl, sym, ap, subst, ◌∙◌, inl, inr, Option, none, some,
  List, [], ◌∷◌, All, is_some, ◌==◌, eq_iff, arith, Bool-cases, Option-cases, map,
}
use sentinel_vault.Common.Text.{is_empty}
use sentinel_vault.Common.Equality.{string_eq, pair_eq}
use sentinel_vault.Common.Exec.{ok, err, internal_error}
use sentinel_vault.Analysis.Breaches.{
  BreachService, BreachEntry, BreachRow, HibpAnswer, returned, Tables, source_of, new_opt_in,
  encrypt_email, insert_new, store_new, is_opted_in, opt_in, opt_out, update_breaches, check_email,
  get_email, fetch_breaches_for_email, run_check_and_diff, Op, opts_in, opts_out, checks, step, run,
}
use sentinel_vault.Analysis.Breaches.Stored.{
  insert_new-Stored, inserted-Stored, Stored-insert_new, Stored,
}

module _ (service : BreachService) where
  open service use {opt_ins, entries}

  -- The hash is watched, and the breaches are stored for it.
  abbrev pub Watched : String → List BreachEntry → Tables service → Type 0
  Watched hash incoming s =
      (is_opted_in service hash s ≡ true) × All (λ b. Stored service hash b s.entry_table) incoming

  map-Stored :
      (hash : String) (t t' : entries.Table) (incoming : List BreachEntry)
      → ((b : BreachEntry) → Stored service hash b t → Stored service hash b t')
      → All (λ b. Stored service hash b t) incoming
      → All (λ b. Stored service hash b t') incoming
  map-Stored hash t t' [] f h = tt
  map-Stored hash t t' (b ∷ incoming) f h = (f b h.0, map-Stored hash t t' incoming f h.1)

  -- Whether the request does not end the watch on the hash.
  abbrev pub spares : String → Op service → Bool
  spares hash (opts_in now iv h email) = true
  spares hash (opts_out h) = not (h == hash)
  spares hash (checks now h answer) = true

  opt_in-Watched :
      (hash : String) (incoming : List BreachEntry) (now : ℕ) (iv h email : String)
      (s : Tables service)
      → Watched hash incoming s
      → Watched hash incoming (opt_in service now iv h email s).1
  unfolding opt_in
  opt_in-Watched hash incoming now iv h email s watched =
      let row =
        new_opt_in service now h (encrypt_email service iv email) (opt_ins.at s.opt_in_table h) in
      (
        rw (opt_ins.at-save row s.opt_in_table hash) (elim (Bool-cases (h == hash)) [
          | inl same ↦ rw same refl
          | inr other ↦ rw other watched.0
        ]),
        watched.1,
      )

  kept_watch :
      (hash h : String) (s : Tables service)
      → h == hash ≡ false
      → is_opted_in service hash s ≡ true
      → is_some (opt_ins.at (opt_ins.delete (λ o. o.email_hash == h) s.opt_in_table) hash) ≡ true
  kept_watch hash h s other watching =
      rw (opt_ins.at-delete (λ o. o.email_hash == h) s.opt_in_table hash)
        (elim (Option-cases (opt_ins.at s.opt_in_table hash)) [
          | inl missing ↦ let bad : (false ≡ true) = sym (rw missing refl) ∙ watching in cc
          | inr (o, there) ↦
              let key = opt_ins.at-key s.opt_in_table hash o there in
              rw there (ground (arith, key, other, eq_iff o.email_hash h, eq_iff h hash))
        ])

  kept-Stored :
      (hash h : String) (b : BreachEntry) (t : entries.Table)
      → h == hash ≡ false
      → Stored service hash b t
      → Stored service hash b (entries.delete (λ r. r.email_hash == h) t)
  kept-Stored hash h b t other stored =
      rw (entries.at-delete (λ r. r.email_hash == h) t (hash, source_of b))
        (elim (Option-cases (entries.at t (hash, source_of b))) [
          | inl missing ↦ let bad : (false ≡ true) = sym (rw missing refl) ∙ stored in cc
          | inr (r, there) ↦
              let key =
                ap (λ (k : String × String). k.0) (entries.at-key t (hash, source_of b) r there) in
              rw there (ground (arith, key, other, eq_iff r.email_hash h, eq_iff h hash))
        ])

  opt_out-Watched :
      (hash : String) (incoming : List BreachEntry) (h : String) (s : Tables service)
      → h == hash ≡ false
      → Watched hash incoming s
      → Watched hash incoming (opt_out service h s).1
  unfolding opt_out
  opt_out-Watched hash incoming h s other watched = (
    kept_watch hash h s other watched.0,
    map-Stored hash s.entry_table (entries.delete (λ r. r.email_hash == h) s.entry_table) incoming
        (λ b stored. kept-Stored hash h b s.entry_table other stored) watched.1,
  )

  update-Watched :
      (hash : String) (incoming : List BreachEntry) (now : ℕ) (h : String) (new : List BreachEntry)
      (s : Tables service)
      → Watched hash incoming s
      → Watched hash incoming (update_breaches service now h new s).1
  unfolding update_breaches
  update-Watched hash incoming now h [] s watched = watched
  update-Watched hash incoming now h (b ∷ new) s watched =
      elim (Bool-cases (is_opted_in service h s)) [
        | inr out ↦ rw out watched
        | inl watching ↦ rw watching (
          watched.0,
          map-Stored hash s.entry_table (insert_new service now h (b ∷ new) s.entry_table).1
              incoming
              (λ x there. insert_new-Stored service now h hash (b ∷ new) x s.entry_table there)
              watched.1,
        )
      ]

  check-Watched :
      (hash : String) (incoming : List BreachEntry) (now : ℕ) (h : String) (answer : HibpAnswer)
      (email : Option String) (s : Tables service)
      → Watched hash incoming s
      → Watched hash incoming (check_email service now h answer email s).1
  check-Watched hash incoming now h answer none s watched = watched
  check-Watched hash incoming now h answer (some email) s watched =
      elim (Bool-cases (is_empty email)) [
        | inl empty ↦ rw empty watched
        | inr full ↦
            rw full (
              update-Watched hash incoming now h (fetch_breaches_for_email service answer) s
                watched)
      ]

  step-Watched :
      (hash : String) (incoming : List BreachEntry) (op : Op service) (s : Tables service)
      → spares hash op ≡ true
      → Watched hash incoming s
      → Watched hash incoming (step service op s)
  unfolding step run_check_and_diff
  step-Watched hash incoming (opts_in now iv h email) s spared watched =
      opt_in-Watched hash incoming now iv h email s watched
  step-Watched hash incoming (opts_out h) s spared watched =
      opt_out-Watched hash incoming h s (ground (arith, spared)) watched
  step-Watched hash incoming (checks now h answer) s spared watched =
      check-Watched hash incoming now h answer (get_email service h s) s watched

  run-Watched :
      (hash : String) (incoming : List BreachEntry) (ops : List (Op service)) (s : Tables service)
      → All (λ op. spares hash op ≡ true) ops
      → Watched hash incoming s
      → Watched hash incoming (run service ops s)
  unfolding run
  run-Watched hash incoming [] s spared watched = watched
  run-Watched hash incoming (op ∷ ops) s spared watched =
      run-Watched hash incoming ops (step service op s) spared.1
        (step-Watched hash incoming op s spared.0 watched)

  updated-Watched :
      (now : ℕ) (hash : String) (b : BreachEntry) (incoming new : List BreachEntry)
      (s : Tables service)
      → (update_breaches service now hash (b ∷ incoming) s).0 ≡ ok new
      → Watched hash (b ∷ incoming) (update_breaches service now hash (b ∷ incoming) s).1
  unfolding update_breaches
  updated-Watched now hash b incoming new s h = elim (Bool-cases (is_opted_in service hash s)) [
    | inr out ↦ let bad : (err internal_error ≡ ok new) = sym (rw out refl) ∙ h in cc
    | inl watching ↦
        let e : (update_breaches service now hash (b ∷ incoming) s).1
            ≡ (store_new service now hash (b ∷ incoming) s).1 =
          rw watching refl in
        subst (Watched hash (b ∷ incoming)) (sym e)
          (watching, inserted-Stored service now hash (b ∷ incoming) s.entry_table)
  ]

  nothing_new :
      (now : ℕ) (hash : String) (incoming : List BreachEntry) (s : Tables service)
      → Watched hash incoming s
      → update_breaches service now hash incoming s ≡ (ok [], s)
  unfolding update_breaches
  nothing_new now hash [] s watched = refl
  nothing_new now hash (b ∷ incoming) s watched = rw watched.0 (
      ap
        (λ (p : List BreachRow × entries.Table).
          (ok (map returned p.0), record s { entry_table = p.1 }))
        (Stored-insert_new service now hash (b ∷ incoming) s.entry_table watched.1))

  -- A breach is reported once: after `updateBreaches` has returned for some breaches, the same
  -- breaches give no new one and change nothing, after any further requests that do not end the
  -- watch on the hash.
  pub reported_once :
      (now now' : ℕ) (hash : String) (incoming new : List BreachEntry) (ops : List (Op service))
      (s : Tables service)
      → (update_breaches service now hash incoming s).0 ≡ ok new
      → All (λ op. spares hash op ≡ true) ops
      → update_breaches service now' hash incoming
          (run service ops (update_breaches service now hash incoming s).1)
        ≡ (ok [], run service ops (update_breaches service now hash incoming s).1)
  unfolding update_breaches
  reported_once now now' hash [] new ops s done spared = refl
  reported_once now now' hash (b ∷ incoming) new ops s done spared =
      nothing_new now' hash (b ∷ incoming)
        (run service ops (update_breaches service now hash (b ∷ incoming) s).1)
        (run-Watched hash (b ∷ incoming) ops _ spared
          (updated-Watched now hash b incoming new s done))
