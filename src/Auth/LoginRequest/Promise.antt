-- ===== src/Auth/LoginRequest/Promise.antt =====
-- What a login request promises, and what each database statement does to the row it finds.
use ndy_hub.Common.{
  Key, Time, Bool, true, Option, none, some, List, ◌∷◌, if◌then◌else◌, Bool-cases, Option-cases,
  ◌≡◌, refl, inl, inr, arith,
}
use mathlib.Core.Option
use ndy_hub.Auth.LoginRequest.{
  Status, pending, approved, denied, expired, Request, is_pending, is_approved, has_token, is_open,
  is_exchangeable, expire, grant, refuse, mark_issued,
}

-- What a request is to its users. An approval is granted by a user until it is exchanged.
pub data View : Type 0 where
  absent waiting refused lapsed : View
  granted exchanged : Option Key → View

-- The promise, with the users of the sessions that were given: a request is decided once, a grant
-- is spent on one session of its user, and a date that has passed may close it at any time.
pub data Spec : View × List Key → View × List Key → Type 0 where
  stays : (v : View × List Key) → Spec v v
  asks : (l : List Key) → Spec (absent, l) (waiting, l)
  grants : (u : Key) (l : List Key) → Spec (waiting, l) (granted (some u), l)
  refuses : (l : List Key) → Spec (waiting, l) (refused, l)
  lapses : (v : View) (l : List Key) → Spec (v, l) (lapsed, l)
  spends : (u : Key) (l : List Key) → Spec (granted (some u), l) (exchanged (some u), u ∷ l)

abbrev pub view_status : Status → Option Key → Option Time → View
view_status pending u t = waiting
view_status denied u t = refused
view_status expired u t = lapsed
view_status approved u none = granted u
view_status approved u (some t) = exchanged u

abbrev pub view_row : Option Request → View
view_row none = absent
view_row (some r) = view_status r.status r.user_id r.session_issued_at

is_pending_sound : (st : Status) → is_pending st ≡ true → st ≡ pending
is_pending_sound pending e = refl
is_pending_sound approved e = absurd (cc)
is_pending_sound denied e = absurd (cc)
is_pending_sound expired e = absurd (cc)

is_approved_sound : (st : Status) → is_approved st ≡ true → st ≡ approved
is_approved_sound approved e = refl
is_approved_sound pending e = absurd (cc)
is_approved_sound denied e = absurd (cc)
is_approved_sound expired e = absurd (cc)

-- No session has been issued for a request that waits.
abbrev pub Unissued : Request → Type 0
Unissued r = is_pending r.status ≡ true → r.session_issued_at ≡ none

-- What an `updateMany` does to the row that a read finds.
abbrev pub changed : (Request → Bool) → (Request → Request) → Request → Request
changed p f r = if p r then f r else r

pub changed-Spec :
    (p : Request → Bool) (f : Request → Request) (l l' : List Key) (o : Option Request)
    → (o ≡ none → l' ≡ l)
    → ((r : Request)
        → o ≡ some r
        → Spec (view_row (some r), l) (view_row (some (changed p f r)), l'))
    → Spec (view_row o, l) (view_row (Option.map (changed p f) o), l')
changed-Spec p f l l' none same h = rw (same refl) (stays (absent, l))
changed-Spec p f l l' (some r) same h = h r refl

pub grant-Spec :
    (token user_id : Key) (now : Time) (l : List Key) (r : Request)
    → Unissued r
    → Spec
        (view_row (some r), l)
        (view_row (some (changed (is_open token) (grant user_id now) r)), l)
grant-Spec token user_id now l r unissued = elim (Bool-cases (is_open token r)) [
  | inr shut ↦ rw shut (stays (view_row (some r), l))
  | inl unlocked ↦
      let waits : is_pending r.status ≡ true = ground (arith, unlocked) in
      rw (unlocked, is_pending_sound r.status waits, unissued waits) (grants user_id l)
]

pub refuse-Spec :
    (token : Key) (now : Time) (l : List Key) (r : Request)
    → Spec (view_row (some r), l) (view_row (some (changed (is_open token) (refuse now) r)), l)
refuse-Spec token now l r = elim (Bool-cases (is_open token r)) [
  | inr shut ↦ rw shut (stays (view_row (some r), l))
  | inl unlocked ↦ rw (unlocked, is_pending_sound r.status (ground (arith, unlocked))) (refuses l)
]

pub expire-Spec :
    (token : Key) (l : List Key) (r : Request)
    → Spec (view_row (some r), l) (view_row (some (changed (has_token token) expire r)), l)
expire-Spec token l r = elim (Bool-cases (has_token token r)) [
  | inr other ↦ rw other (stays (view_row (some r), l))
  | inl found ↦ rw found (lapses (view_row (some r)) l)
]

pub spend-Spec :
    (token user_id : Key) (now : Time) (l : List Key) (r : Request)
    → is_exchangeable token r ≡ true
    → r.user_id ≡ some user_id
    → Spec
        (view_row (some r), l)
        (view_row (some (changed (is_exchangeable token) (mark_issued now) r)), user_id ∷ l)
spend-Spec token user_id now l r can mine =
    let ok_status : is_approved r.status ≡ true = ground (arith, can) in
    let unspent : r.session_issued_at ≡ none = elim (Option-cases r.session_issued_at) [
      | inl e ↦ e
      | inr (t, e) ↦ absurd (ground (arith, can, e))
    ] in
    rw (can, is_approved_sound r.status ok_status, mine, unspent) (spends user_id l)
