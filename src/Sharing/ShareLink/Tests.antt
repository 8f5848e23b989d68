-- ===== src/Sharing/ShareLink/Tests.antt =====
-- Share links on concrete requests.
use sentinel_vault.Common.{
  ◌+◌, ◌*◌, false, ◌≡◌, refl, none, some, List, [], ◌∷◌, eq_iff, arith, if◌then◌else◌, leb, ◌≤◌,
}
use sentinel_vault.Common.Dict
use sentinel_vault.Common.Exec.{ok, err, gone, not_found, succeeds}
use sentinel_vault.Sharing.ShareLink.{
  ShareLinkRecord, CreateShareLinkDto, Links, plus, minus, clamp_hours, hour_ms, create_share_link,
  get_and_consume_share_link, revoke_share_link, Op, create, consume, revoke, reset, run, new_link,
  public_view,
}
use sentinel_vault.Sharing.ShareLink.Lifetime.{
  one_time_read_once, revoked_unreadable, link_lifetime,
}

-- Opens what the tests compute with.
share_links : Unit {0}
unfolding create_share_link get_and_consume_share_link revoke_share_link clamp_hours Dict.get
    Dict.set
share_links = tt

abbrev request : CreateShareLinkDto
request = record {
  encrypted_blob = "c2VjcmV0";
  nonce = "bm9uY2U=";
  item_title = some "Login";
  expiry_hours = some (plus 2);
  one_time_view = none;
}

abbrev link : ShareLinkRecord
link = new_link "s1" 1000 "ann" request

abbrev store : Links
store = ("s1", link) ∷ []

hours_clamped :
    (clamp_hours none ≡ 24)
    × (clamp_hours (some (plus 0)) ≡ 24)
    × (clamp_hours (some (plus 500)) ≡ 168)
    × (clamp_hours (some (minus 4)) ≡ 1)
unfolding share_links
hours_clamped = (refl, refl, refl, refl)

created : (create_share_link "s1" 1000 "ann" request []).1 ≡ store
unfolding share_links
created = refl

read_twice :
    ((get_and_consume_share_link 2000 "s1" store).0 ≡ ok (public_view link))
    × ((get_and_consume_share_link 2001 "s1" (get_and_consume_share_link 2000 "s1" store).1).0
        ≡ err gone)
unfolding share_links
read_twice = (refl, refl)

expired : (get_and_consume_share_link 7201001 "s1" store).0 ≡ err gone
unfolding share_links
expired = refl

revoked : (revoke_share_link "ann" "s1" store).0 ≡ ok tt
unfolding share_links
revoked = refl

not_the_owner : revoke_share_link "bob" "s1" store ≡ (err not_found, store)
unfolding share_links
not_the_owner = refl

one_time_read_once_example :
    succeeds
      (get_and_consume_share_link 3000 "s1"
        (run (revoke "bob" "s1" ∷ []) (get_and_consume_share_link 2000 "s1" store).1)).0
    ≡ false
one_time_read_once_example =
    one_time_read_once "s1" store 2000 3000 (public_view link) (revoke "bob" "s1" ∷ []) read_twice.0
      refl (tt, tt)

revoked_unreadable_example :
    succeeds
      (get_and_consume_share_link 3000 "s1"
        (run (reset ∷ []) (revoke_share_link "ann" "s1" store).1)).0
    ≡ false
revoked_unreadable_example = revoked_unreadable "s1" store "ann" 3000 (reset ∷ []) revoked (tt, tt)

abbrev others : List Op
others = consume 1500 "s2" ∷ revoke "bob" "s1" ∷ create "s3" 1600 "bob" request ∷ []

link_lifetime_example :
    let (made, links') = create_share_link "s1" 1000 "ann" request [] in
    (made ≡ ok ("s1", link.expires_at))
    × (1000 + hour_ms ≤ link.expires_at)
    × (link.expires_at ≤ 1000 + 168 * hour_ms)
    × (link.encrypted_blob ≡ request.encrypted_blob)
    × (link.nonce ≡ request.nonce)
    × ((get_and_consume_share_link 5000 "s1" (run others links')).0
        ≡ (if leb 5000 link.expires_at then ok (public_view link) else err gone))
link_lifetime_example =
    link_lifetime "s1" "ann" 1000 5000 request [] others (ground (arith, eq_iff "c2VjcmV0" ""))
      (ground (arith, eq_iff "bm9uY2U=" ""))
      (ground (arith, eq_iff "s2" "s1", eq_iff "bob" "ann", eq_iff "s3" "s1"))
