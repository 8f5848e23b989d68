-- ===== src/Sharing/ShareLink/Access.antt =====
-- What every stored share link satisfies, in every state that the service can reach.
use sentinel_vault.Common.{
  ◌+◌, ◌*◌, ◌≤◌, String, true, false, ◌≡◌, some, List, [], ◌∷◌, eq_iff, arith, eqb, inl, inr,
  Option-cases,
}
use sentinel_vault.Common.Dict
use sentinel_vault.Common.Dict.{get-set}
use sentinel_vault.Sharing.ShareLink.{
  ShareLinkRecord, Links, hour_ms, Op, create, consume, revoke, reset, step, run,
}
use sentinel_vault.Sharing.ShareLink.Lifetime.{clamp_hours_bounds}

-- A one-time link has been read once if it is marked as consumed, and never if it is not; another
-- link is never marked as consumed. The identifier is the key. The expiry lies between one hour
-- and seven days after the creation.
pub record IsValid (k : String) (r : ShareLinkRecord) : Type 0 where
  pub keyed : r.share_id ≡ k
  pub once : r.one_time_view ≡ true → r.is_consumed ≡ eqb r.view_count 1
  pub at_most_once : r.one_time_view ≡ true → r.view_count ≤ 1
  pub unmarked : r.one_time_view ≡ false → r.is_consumed ≡ false
  pub lives : r.created_at + hour_ms ≤ r.expires_at
  pub dies : r.expires_at ≤ r.created_at + 168 * hour_ms

abbrev pub AllValid : Links → Type 0
AllValid links = (k : String) (r : ShareLinkRecord) → Dict.get links k ≡ some r → IsValid k r

step-AllValid : (op : Op) (links : Links) → AllValid links → AllValid (step op links)
unfolding step
step-AllValid (create share_id now owner dto) links h k r e =
    grind (arith, get-set, eq_iff share_id k, clamp_hours_bounds dto.expiry_hours, h k r)
step-AllValid (consume now share_id) links h k r e = elim (Option-cases (Dict.get links share_id)) [
  | inl missing ↦ grind (arith, h k r)
  | inr (found, stored) ↦ grind (arith, get-set, eq_iff share_id k, h k r, h share_id found stored)
]
step-AllValid (revoke owner share_id) links h k r e =
    elim (Option-cases (Dict.get links share_id)) [
      | inl missing ↦ grind (arith, h k r)
      | inr (found, stored) ↦
          grind (arith, get-set, eq_iff share_id k, h k r, h share_id found stored)
    ]
step-AllValid reset links h k r e = unfold Dict.get in ground arith

run_from-AllValid : (ops : List Op) (links : Links) → AllValid links → AllValid (run ops links)
unfolding run
run_from-AllValid [] links h = h
run_from-AllValid (op ∷ ops) links h =
    run_from-AllValid ops (step op links) (step-AllValid op links h)

-- Every link that the service can hold after any requests, from an empty store, is valid: its
-- identifier is its key, a one-time link is marked as consumed exactly when it has been read
-- once and is never read twice, another link is never marked, and no link lives for less than an
-- hour or more than seven days.
pub links_stay_valid : (ops : List Op) → AllValid (run ops [])
links_stay_valid ops = run_from-AllValid ops [] (λ k r e. unfold Dict.get in ground arith)
