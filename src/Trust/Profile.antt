-- ===== src/Trust/Profile.antt =====
-- The stored profile: `recompute` and `getTrustProfile`.
use ndy_hub.Common.{Key, Time, some, List, ◌==◌, Option-cases, ◌≤◌, ◌≡◌, refl, inl, inr, arith}
use ndy_hub.Common.Handler.{ok}
use ndy_hub.Common.Table.{find, count}
use ndy_hub.Common.Table.Laws.{
  find_holds, find-update, find-insert, count-insert, count-update_same, find-none-count,
}
use ndy_hub.Trust.{
  User, Store, TrustProfile, is_profile, upsert, recompute, get_trust_profile, compute_score,
  compute_tier,
}

find-upsert :
    (p : TrustProfile) (profiles : List TrustProfile)
    → find (is_profile p.user_id) (upsert p profiles) ≡ some p
unfolding upsert
find-upsert p profiles = elim (Option-cases (find (is_profile p.user_id) profiles)) [
  | inl missing ↦ rw missing (ground (arith, find-insert (is_profile p.user_id) p profiles))
  | inr (q, found) ↦ rw found (
      ground (
        arith,
        find_holds (is_profile p.user_id) profiles found,
        find-update (is_profile p.user_id) (is_profile p.user_id)
            (λ q. record q { tier = p.tier; score = p.score; computed_at = p.computed_at }) profiles
            (λ r. refl),
      ))
]

upsert-one_row :
    (p : TrustProfile) (profiles : List TrustProfile) (user : Key)
    → count (is_profile user) profiles ≤ 1
    → count (is_profile user) (upsert p profiles) ≤ 1
unfolding upsert
upsert-one_row p profiles user h = ground (
  arith,
  find-none-count (is_profile p.user_id) profiles,
  count-insert (is_profile user) p profiles,
  count-update_same (is_profile user) (is_profile p.user_id)
      (λ q. record q { tier = p.tier; score = p.score; computed_at = p.computed_at }) profiles
      (λ r e. refl),
)

-- What `recompute` computes for a user.
abbrev computed : Key → Store → User → Key → Time → TrustProfile
computed k s u user now = record {
  user_id = user;
  tier = compute_tier k s user u.verification_level;
  score = compute_score k s u now;
  computed_at = now;
}

-- Reading a profile after a recomputation that succeeded gives what the recomputation returned, at
-- whatever time it is read.
pub get-recompute :
    (business_verified_key : Key) (s : Store) (user : Key) (now later : Time) {p : TrustProfile}
    → (recompute business_verified_key user now s).0 ≡ ok p
    → get_trust_profile (recompute business_verified_key user now s).1 user later ≡ p
unfolding recompute get_trust_profile
get-recompute k s user now later {p} e =
    elim (Option-cases (find (λ (v : User). v.id == user) s.users)) [
      | inl missing ↦ absurd (ground arith)
      | inr (u, found) ↦ ground (arith, found, find-upsert (computed k s u user now) s.profiles)
    ]

-- No user gets a second profile row: recomputation keeps at most one row for every user.
pub recompute-one_row :
    (business_verified_key : Key) (s : Store) (user other_user : Key) (now : Time)
    → count (is_profile other_user) s.profiles ≤ 1
    → count (is_profile other_user) (recompute business_verified_key user now s).1.profiles ≤ 1
unfolding recompute
recompute-one_row k s user other_user now h =
    elim (Option-cases (find (λ (v : User). v.id == user) s.users)) [
      | inl missing ↦ ground (arith, missing)
      | inr (u, found) ↦
          ground (arith, found, upsert-one_row (computed k s u user now) s.profiles other_user h)
    ]
