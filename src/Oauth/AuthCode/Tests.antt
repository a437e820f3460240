-- ===== src/Oauth/AuthCode/Tests.antt =====
-- The theorems on authorization codes at concrete inputs.
use ndy_hub.Common.{Key, none, List, [], ◌∷◌, ◌≤◌, ◌≡◌, refl, arith}
use ndy_hub.Common.Handler.{err}
use ndy_hub.Common.Table.{find, count}
use ndy_hub.Oauth.AuthCode.{AuthCode, new_code, has_code, claim, expired}
use ndy_hub.Oauth.AuthCode
use ndy_hub.Oauth.AuthCode.Redemption.{redeem-issue}
use ndy_hub.Oauth.AuthCode.Races.{
  World, Reach, here, next, passes, claims, start, note, redemptions, redemptions-le-one,
}

abbrev params : AuthCode.IssueParams
params = record {
  user_id = 1;
  client_id = 2;
  redirect_uri = 3;
  scope = 4;
  code_challenge = none;
  code_challenge_method = none;
}

abbrev codes : List AuthCode
codes = new_code 7 params 1000 ∷ []

-- Two requests have read the code before either claims it.
abbrev both_read : World
both_read = record { codes = codes; in_flight = 7 ∷ 7 ∷ []; redeemed = [] }

abbrev first_claimed : World
first_claimed = record {
  codes = (claim 7 2001 codes).1;
  in_flight = 7 ∷ [];
  redeemed = note 7 (claim 7 2001 codes).0 [];
}

abbrev both_claimed : World
both_claimed = record {
  codes = (claim 7 2002 first_claimed.codes).1;
  in_flight = [];
  redeemed = note 7 (claim 7 2002 first_claimed.codes).0 first_claimed.redeemed;
}

both_claimed-Reach : Reach (start codes) both_claimed
unfolding AuthCode.check find
both_claimed-Reach =
    next
      (next
        (next (next here (passes (start codes) 7 2 3 2000 {r = new_code 7 params 1000} refl)) (
          passes (record (start codes) { in_flight = 7 ∷ [] }) 7 2 3 2000
            {r = new_code 7 params 1000} refl))
        (claims both_read 7 2001 [] (7 ∷ []) refl))
      (claims first_claimed 7 2002 [] [] refl)

codes-one : (c : Key) → count (has_code c) codes ≤ 1
unfolding count
codes-one c = ground arith

redemptions-le-one_example : redemptions 7 both_claimed ≤ 1
redemptions-le-one_example = redemptions-le-one codes both_claimed 7 codes-one both_claimed-Reach

redeem-issue_example :
    (AuthCode.redeem 8 2 3 70_000 (AuthCode.issue 8 params 2000 codes).1).0 ≡ err expired
unfolding find
redeem-issue_example = redeem-issue codes 8 params 2000 2 3 70_000 refl
