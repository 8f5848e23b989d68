-- ===== src/Sharing/ShareInvite/Invariant.antt =====
-- What the invitations satisfy, in every state that the service can reach.
use sentinel_vault.Common.{
  String, true, not, ◌≡◌, inl, inr, some, List, [], ◌∷◌, eq_iff, arith, Option-cases, is_some,
}
use sentinel_vault.Common.Dict
use sentinel_vault.Common.Dict.{get-set, get-any}
use sentinel_vault.Sharing.ShareInvite.{
  ShareInvite, Invites, is_pending, is_accepted, blocks, Op, creates, accepts, declines, step, run,
}

-- The fingerprint is marked as verified exactly if the invitation is accepted, and a time of
-- response is there exactly if it is no longer pending.
pub record IsValid (k : String) (inv : ShareInvite) : Type 0 where
  pub keyed : inv.invite_id ≡ k
  pub verified : inv.fingerprint_verified ≡ is_accepted inv.status
  pub responded : is_some inv.responded_at ≡ not (is_pending inv.status)

-- No two pending invitations are for the same folder and recipient.
abbrev pub NoTwins : Invites → Type 0
NoTwins invites =
    (j k : String) (a b : ShareInvite)
    → Dict.get invites j ≡ some a
    → Dict.get invites k ≡ some b
    → a.folder_id ≡ b.folder_id
    → a.recipient_user_id ≡ b.recipient_user_id
    → is_pending a.status ≡ true
    → is_pending b.status ≡ true
    → j ≡ k

abbrev pub AllValid : Invites → Type 0
AllValid invites = (k : String) (inv : ShareInvite) → Dict.get invites k ≡ some inv → IsValid k inv

step-AllValid : (op : Op) (invites : Invites) → AllValid invites → AllValid (step op invites)
unfolding step
step-AllValid (creates id now sender dto) invites h k inv e =
    grind (arith, get-set, eq_iff id k, h k inv)
step-AllValid (accepts now caller dto) invites h k inv e =
    elim (Option-cases (Dict.get invites dto.invite_id)) [
      | inl missing ↦ grind (arith, h k inv)
      | inr (old, found) ↦
          grind (arith, get-set, eq_iff dto.invite_id k, h k inv, h dto.invite_id old found)
    ]
step-AllValid (declines now caller id) invites h k inv e =
    elim (Option-cases (Dict.get invites id)) [
      | inl missing ↦ grind (arith, h k inv)
      | inr (old, found) ↦ grind (arith, get-set, eq_iff id k, h k inv, h id old found)
    ]

step-NoTwins : (op : Op) (invites : Invites) → NoTwins invites → NoTwins (step op invites)
unfolding step
step-NoTwins (creates id now sender dto) invites h j k a b ea eb f r pa pb = grind (
  arith,
  get-set,
  eq_iff id j,
  eq_iff id k,
  h j k a b,
  get-any (blocks dto) invites j a,
  get-any (blocks dto) invites k b,
  eq_iff a.folder_id dto.folder_id,
  eq_iff b.folder_id dto.folder_id,
  eq_iff a.recipient_user_id dto.recipient_user_id,
  eq_iff b.recipient_user_id dto.recipient_user_id,
)
step-NoTwins (accepts now caller dto) invites h j k a b ea eb f r pa pb =
    grind (arith, get-set, eq_iff dto.invite_id j, eq_iff dto.invite_id k, h j k a b)
step-NoTwins (declines now caller id) invites h j k a b ea eb f r pa pb =
    grind (arith, get-set, eq_iff id j, eq_iff id k, h j k a b)

run_from-invariant :
    (ops : List Op) (invites : Invites)
    → AllValid invites × NoTwins invites
    → AllValid (run ops invites) × NoTwins (run ops invites)
unfolding run
run_from-invariant [] invites h = h
run_from-invariant (op ∷ ops) invites h =
    run_from-invariant ops (step op invites)
      (step-AllValid op invites h.0, step-NoTwins op invites h.1)

-- After any requests, from no invitations: each invitation stands under its identifier, its
-- fingerprint is marked as verified exactly if it is accepted, it has a time of response exactly
-- if it is not pending, and no two pending invitations are for the same folder and recipient.
pub run-invariant : (ops : List Op) → AllValid (run ops []) × NoTwins (run ops [])
run-invariant ops = run_from-invariant ops [] (
  λ k inv e. unfold Dict.get in ground arith,
  λ j k a b ea eb f r pa pb. unfold Dict.get in ground arith,
)
