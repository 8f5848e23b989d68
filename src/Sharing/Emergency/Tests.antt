-- ===== src/Sharing/Emergency/Tests.antt =====
-- Emergency access on tables in memory.
use sentinel_vault.Common.{ℕ, ◌+◌, ◌*◌, ◌≤◌, String, true, ◌≡◌, refl, none, some, List, [], ◌∷◌}
use sentinel_vault.Common.Number.{pos, negsuc}
use sentinel_vault.Common.Exec.{ok, err, not_found}
use sentinel_vault.Common.Equality.{string_eq}
use sentinel_vault.Common.Repository.Memory.{memory}
use sentinel_vault.Sharing.Emergency.{
  EmergencyService, EmergencyContact, AccessRequest, contact_key, request_key, new_contact,
  new_request, resolved, granted, denied, is_party, contact_key_of, has_contact_id,
}
use sentinel_vault.Sharing.Emergency.Handlers.{
  Tables, add_contact, revoke_contact, request_access, deny_request, get_request_status, cancel_all,
  Op, add, submits, look, revoke, run, step,
}
use sentinel_vault.Sharing.Emergency.Origin.{Submission}
use sentinel_vault.Sharing.Emergency.Release.{released, key_after_waiting, denied_no_key}
use sentinel_vault.Sharing.Emergency.Revocation.{Revoked, revoke_cancels}

-- Opens what the tests compute with.
emergency_open : Unit {0}
unfolding add_contact revoke_contact request_access deny_request get_request_status cancel_all step
    run
emergency_open = tt

abbrev service : EmergencyService
service = record { contacts = memory contact_key; requests = memory request_key }

abbrev none_yet : Tables service
none_yet = (([], tt), ([], tt))

-- Ann designates Bob, who may read after two hours.
abbrev bob : EmergencyContact
bob = new_contact "c1" 0 "ann" "b@x" "bob" (pos 2) (some "k")

abbrev asked : AccessRequest
asked = new_request "r1" 1000 bob

abbrev waiting : Tables service
waiting = ((bob ∷ [], (refl, tt)), (asked ∷ [], (refl, tt)))

abbrev opening : List (Op service)
opening = add "c1" 0 "ann" "b@x" "bob" (some (pos 2)) (some "k") ∷ submits "r1" 1000 "bob" "c1" ∷ []

opened :
    ((run service opening none_yet).0.0 ≡ bob ∷ [])
    × ((run service opening none_yet).1.0 ≡ asked ∷ [])
unfolding emergency_open
opened = (refl, refl)

early_and_late :
    ((get_request_status service 7200999 "bob" "r1" waiting).0 ≡ ok (asked, none))
    × ((get_request_status service 7201000 "bob" "r1" waiting).0
        ≡ ok (resolved granted 7201000 asked, some "k"))
    × ((get_request_status service 7201000 "eve" "r1" waiting).0 ≡ err not_found)
unfolding emergency_open
early_and_late = (refl, refl, refl)

-- The key of a request that was granted stays readable after the contact is revoked.
granted_then_revoked :
    let s = run service (look 7201000 "bob" "r1" ∷ revoke 7201001 "ann" "c1" ∷ []) waiting in
    released (get_request_status service 7201002 "bob" "r1" s).0 ≡ some "k"
unfolding emergency_open
granted_then_revoked = refl

released_late :
    released (get_request_status service 7201000 "bob" "r1" (run service opening none_yet)).0
    ≡ some "k"
unfolding emergency_open
released_late = refl

key_after_waiting_example :
    let after = (get_request_status service 7201000 "bob" "r1" (run service opening none_yet)).1 in
    (r : AccessRequest) × (c : EmergencyContact) × (start : ℕ) × (t : ℕ) × (service.requests.at
        after.1 "r1"
      ≡ some r)
    × (is_party "bob" r ≡ true)
    × (contact_key_of (service.contacts.find_one (has_contact_id r.contact_id) after.0) ≡ some "k")
    × Submission service opening none_yet "r1" start c
    × (r.contact_id ≡ c.id)
    × (r.status ≡ granted)
    × (r.resolved_at ≡ some t)
    × ((hours : ℕ) → c.waiting_period_hours ≡ pos hours → start + hours * 3600000 ≤ t)
key_after_waiting_example =
    key_after_waiting service opening none_yet 7201000 "bob" "r1" "k" (λ k. refl) released_late

-- A number of hours that is negative grants at once.
negative_hours :
    let s =
      run service
        (add "c1" 0 "ann" "b@x" "bob" (some (negsuc 0)) (some "k")
          ∷ submits "r1" 1000 "bob" "c1"
          ∷ [])
        none_yet in
    released (get_request_status service 1000 "bob" "r1" s).0 ≡ some "k"
unfolding emergency_open
negative_hours = refl

refused : (deny_request service 2000 "ann" "r1" waiting).0 ≡ ok (resolved denied 2000 asked)
unfolding emergency_open
refused = refl

denied_no_key_example :
    released
      (get_request_status service 9000000 "bob" "r1" (
        run service
          (submits "r2" 3000 "bob" "c1" ∷ look 8000000 "bob" "r1" ∷ [])
          (deny_request service 2000 "ann" "r1" waiting).1)).0
    ≡ none
denied_no_key_example =
    denied_no_key service 2000 9000000 "ann" "bob" "r1"
      (submits "r2" 3000 "bob" "c1" ∷ look 8000000 "bob" "r1" ∷ []) waiting
      (resolved denied 2000 asked) refused (refl, (refl, tt))

abbrev settled : Tables service
settled = ((bob ∷ [], (refl, tt)), (resolved denied 2000 asked ∷ [], (refl, tt)))

went_through : (revoke_contact service 5000 "ann" "c1" waiting).0 ≡ ok tt
unfolding emergency_open
went_through = refl

abbrev later : List (Op service)
later = add "c2" 6000 "ann" "b@x" "bob" none (some "k2") ∷ look 7000 "bob" "r1" ∷ []

revoke_cancels_example :
    let after = (revoke_contact service 5000 "ann" "c1" waiting).1 in
    Revoked service 5000 "ann" "c1" waiting after
    × ((uuid : String) (now' : ℕ) (user : String)
        → request_access service uuid now' user "c1" (run service later after)
          ≡ (err not_found, run service later after))
revoke_cancels_example =
    revoke_cancels service 5000 "ann" "c1" waiting later went_through (refl, (refl, tt))
