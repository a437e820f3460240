-- ===== src/Trust/Tests.antt =====
-- The theorems on scores, tiers and profiles at concrete inputs.
use ndy_hub.Common.{false, none, some, [], ◌∷◌, ◌+◌, ◌≤◌, ◌≡◌, refl}
use ndy_hub.Trust.{
  level_0, level_3, third_party_credential, oauth_token_reuse_detected, User, expired,
  DeviceApproval, PassportClaim, TrustProfile, Store, counts, penalties, bonuses, compute_score,
  compute_tier,
}
use ndy_hub.Trust.Score.{compute_score-exact}

-- A user of level 3 with a device, a claim of a third party, a token reuse long ago and a device
-- approval that ran out.
abbrev known : User
known = record {
  id = 1;
  verification_level = level_3;
  created_at = 0;
  suspended = false;
  totp_enabled_at = some 5;
  sms_phone_e164 = none;
}

abbrev fresh : User
fresh = record {
  id = 2;
  verification_level = level_0;
  created_at = 0;
  suspended = false;
  totp_enabled_at = none;
  sms_phone_e164 = none;
}

abbrev ran_out : DeviceApproval
ran_out = record { user_id = 1; status = expired; approved_at = none; denied_at = none }

abbrev business : PassportClaim
business = record { user_id = 1; claim_key = 40; provenance = third_party_credential }

abbrev store : Store
store = record {
  users = known ∷ fresh ∷ [];
  passkeys = 1 ∷ [];
  backup_codes = [];
  devices = record { user_id = 1; revoked_at = none } ∷ [];
  device_approvals = ran_out ∷ [];
  claims = business ∷ [];
  events = record { user_id = 1; type = oauth_token_reuse_detected; created_at = 0 } ∷ [];
  profiles = [];
}

compute_score-exact_example :
    let c = counts 40 store 1 100 in
    (compute_score 40 store known 100 + penalties c ≡ 50 + bonuses known c 100)
    × (11 ≤ compute_score 40 store known 100)
    × (compute_score 40 store known 100 ≤ 100)
compute_score-exact_example = compute_score-exact 40 store known 100 refl

abbrev profile : TrustProfile
profile = record {
  user_id = 1;
  tier = compute_tier 40 store 1 level_3;
  score = compute_score 40 store known 100;
  computed_at = 100;
}
