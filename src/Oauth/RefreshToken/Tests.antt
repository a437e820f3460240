-- ===== src/Oauth/RefreshToken/Tests.antt =====
-- The theorems on refresh tokens at concrete inputs.
use ndy_hub.Common.{Key, none, [], ◌∷◌, ◌+◌, ◌≡◌, refl}
use ndy_hub.Common.Handler.{err}
use ndy_hub.Common.Table.{find, update}
use ndy_hub.Oauth.RefreshToken.{
  RefreshToken, Store, Grant, invalid_token, has_hash, is_live_in, new_token, grant_of, rotate,
}
use ndy_hub.Oauth.RefreshToken
use ndy_hub.Oauth.RefreshToken.Rotation.{replacement, reuse_revokes_replacement}
use ndy_hub.Oauth.RefreshToken.Races
use ndy_hub.Oauth.RefreshToken.Races.{rotated_by_two}

-- A hash that keeps small tokens apart.
abbrev hash : Key → Key
hash token = token + 100

abbrev token_params : RefreshToken.IssueParams
token_params = record {
  user_id = 1;
  client_db_id = 2;
  scope = 4;
  family_id = none;
  device_id = none;
}

abbrev row : RefreshToken
row = new_token 50 (hash 9) 60 token_params 1000

abbrev tokens : Store
tokens = record { tokens = row ∷ []; security_events = []; notified = [] }

reuse_revokes_replacement_example :
    let s2 =
      (RefreshToken.issue hash 51 10 61
        (replacement (grant_of row) 2 5)
        2000
        (rotate hash 9 2 2000 tokens).1).1 in
    let (res, s3) = rotate hash 9 2 3000 s2 in
    (res ≡ err invalid_token) × ((rotate hash 10 2 4000 s3).0 ≡ err invalid_token)
unfolding rotate RefreshToken.issue find update
reuse_revokes_replacement_example =
    reuse_revokes_replacement hash tokens 9 2 2000 3000 4000 {g = grant_of row} 51 10 61 5 2000 2
      refl refl

rotated_by_two_example :
    (w : Races.World) × Races.Reach hash (Races.idle hash tokens) w
    × (w.in_flight ≡ [])
    × (w.granted ≡ row ∷ row ∷ [])
    × (row ≡ row)
unfolding RefreshToken.check find
rotated_by_two_example = rotated_by_two hash tokens 9 2 2000 2001 {r = row} {r' = row} refl refl
