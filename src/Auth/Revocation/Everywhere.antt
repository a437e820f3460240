-- ===== src/Auth/Revocation/Everywhere.antt =====
-- Signing out everywhere: the sessions, the active devices and the refresh tokens of those devices.
use ndy_hub.Common.{
  Key, Time, Bool, true, false, ◌&&◌, Option, none, some, List, [], ◌∷◌, is_none, Bool-cases,
  ==_iff, ◌≤◌, ◌≡◌, refl, ◌⊎◌, inl, inr, arith,
}
use ndy_hub.Common.Table.{update, count, select}
use ndy_hub.Common.Table.Laws.{In, count-update_self, count-update_le}
use ndy_hub.Oauth.RefreshToken
use ndy_hub.Auth.Rows.{Device, device_revoked}
use ndy_hub.Auth.Sessions.{is_live, revoke_at, record_event}
use ndy_hub.Auth.Revocation.{
  Store, is_active, on_accounts, is_member, is_in, revoke_device_at, revoke_token_at,
  revoke_devices, active_devices, ids_of, revoke_all_devices, is_session_of, revoke_sessions,
  revoke_all_sessions,
}

-- A write that reaches each row of a test, and takes it out, leaves none.
count-update_all :
    {A : Type 0} (q p : A → Bool) (f : A → A) (rows : List A)
    → ((r : A) → In r rows → q r ≡ true → p r ≡ true)
    → ((r : A) → p r ≡ true → q (f r) ≡ false)
    → count q (update p f rows) ≡ 0
unfolding count update
count-update_all q p f [] h k = refl
count-update_all q p f (x ∷ rows) h k =
    ground (arith, h x (inl refl), k x, count-update_all q p f rows (λ r i. h r (inr i)) k)

member-select :
    (q : Device → Bool) (rows : List Device) (d : Device)
    → In d rows
    → q d ≡ true
    → is_member d.id (ids_of (select q rows)) ≡ true
unfolding select
member-select q [] d i h = absurd i
member-select q (x ∷ rows) d (inl same) h = ground (arith, same, h, ==_iff d.id d.id)
member-select q (x ∷ rows) d (inr i) h = ground (arith, member-select q rows d i h)

-- A live refresh token that is tagged with the device.
abbrev pub is_tagged : Key → RefreshToken.RefreshToken → Bool
is_tagged device r = is_in (device ∷ []) r.device_id && is_none r.revoked_at

in_mono :
    (k : Key) (ids : List Key) (o : Option Key)
    → is_member k ids ≡ true
    → is_in (k ∷ []) o ≡ true
    → is_in ids o ≡ true
in_mono k ids none m e = e
in_mono k ids (some j) m e = let same : k ≡ j = (==_iff k j).0 (ground (arith, e)) in rw same at m

list-cases : {A : Type 0} (l : List A) → (l ≡ []) ⊎ ((x : A) × (xs : List A) × (l ≡ x ∷ xs))
list-cases [] = inl refl
list-cases (x ∷ xs) = inr (x, xs, refl)

select_empty : {A : Type 0} (q : A → Bool) (rows : List A) → select q rows ≡ [] → count q rows ≡ 0
unfolding select count
select_empty q [] e = refl
select_empty q (x ∷ rows) e = elim (Bool-cases (q x)) [
  | inl t ↦ absurd (ground (arith, e, t))
  | inr t ↦ ground (arith, t, select_empty q rows (ground (arith, e, t)))
]

module _ (user_id : Key) (now : Time) (s : Store) where
  abbrev ids : List Key
  ids = ids_of (active_devices user_id s)

  revoke_all_devices-cases :
      ((active_devices user_id s ≡ []) × ((revoke_all_devices user_id now s).1 ≡ s))
      ⊎ ((revoke_all_devices user_id now s).1
          ≡ on_accounts (record_event user_id device_revoked none) (revoke_devices ids now s))
  unfolding revoke_all_devices
  revoke_all_devices-cases = elim (list-cases (active_devices user_id s)) [
    | inl empty ↦ inl (empty, ground (arith, empty))
    | inr (d, ds, some_device) ↦ inr (ground (arith, some_device))
  ]

  active-member :
      (d : Device)
      → In d s.accounts.devices
      → is_active user_id d ≡ true
      → is_member d.id ids ≡ true
  active-member d i h = member-select (is_active user_id) s.accounts.devices d i h

  revoke_all_devices-devices :
      count (is_active user_id) (revoke_all_devices user_id now s).1.accounts.devices ≡ 0
  revoke_all_devices-devices = elim revoke_all_devices-cases [
    | inl (empty, same) ↦ rw same (select_empty (is_active user_id) s.accounts.devices empty)
    | inr done ↦ rw done (
        count-update_all (is_active user_id) (λ d. is_member d.id ids) (revoke_device_at now)
          s.accounts.devices (λ d i e. active-member d i e) (λ d e. ground arith))
  ]

  revoke_all_devices-sessions_le :
      count (is_session_of user_id) (revoke_all_devices user_id now s).1.accounts.sessions
      ≤ count (is_session_of user_id) s.accounts.sessions
  revoke_all_devices-sessions_le = elim revoke_all_devices-cases [
    | inl (empty, same) ↦ rw same (omega arith)
    | inr done ↦ rw done (
        count-update_le (is_session_of user_id) (λ x. is_in ids x.device_id && is_live x)
          (revoke_at now) s.accounts.sessions (λ x e k. ground (arith, e, k)))
  ]

  revoke_all_devices-tokens :
      (d : Device)
      → In d s.accounts.devices
      → is_active user_id d ≡ true
      → count (is_tagged d.id) (revoke_all_devices user_id now s).1.tokens ≡ 0
  revoke_all_devices-tokens d i h = elim revoke_all_devices-cases [
    | inl (empty, same) ↦ absurd (ground (arith, active-member d i h, empty))
    | inr done ↦ rw done (
        count-update_all (is_tagged d.id) (λ r. is_in ids r.device_id && is_none r.revoked_at)
          (revoke_token_at now) s.tokens
          (λ r j e.
            ground
              (arith, e, in_mono d.id ids r.device_id (active-member d i h) (ground (arith, e))))
          (λ r e. ground arith))
  ]

-- After signing out everywhere no session and no device of the user is live, and no refresh token
-- tagged with a device of the user that was active until then.
pub sign_out_everywhere :
    (user_id : Key) (now : Time) (s : Store)
    → let t = (revoke_all_sessions user_id now s).1 in
      (count (is_session_of user_id) t.accounts.sessions ≡ 0)
      × (count (is_active user_id) t.accounts.devices ≡ 0)
      × ((d : Device)
          → In d s.accounts.devices
          → is_active user_id d ≡ true
          → count (is_tagged d.id) t.tokens ≡ 0)
unfolding revoke_all_sessions
sign_out_everywhere user_id now s =
    let u : Store = on_accounts (revoke_sessions user_id now) s in
    (
      ground (
        arith,
        revoke_all_devices-sessions_le user_id now u,
        count-update_self (is_session_of user_id) (revoke_at now) s.accounts.sessions
            (λ x e. ground arith),
      ),
      revoke_all_devices-devices user_id now u,
      λ d i h. revoke_all_devices-tokens user_id now u d i h,
    )
