-- ===== src/Auth/DeviceApproval/Decision.antt =====
-- When a device is approved, and that a request is decided once.
use ndy_hub.Common.{
  ℕ, Key, Time, Bool, true, false, some, List, ltb, ◌==◌, Bool-cases, Option-cases, ==_iff, ◌≡◌,
  refl, ◌⊎◌, inl, inr, arith,
}
use ndy_hub.Common.Handler.{ok, err, Handler}
use ndy_hub.Common.Table.{find, update, count}
use ndy_hub.Common.Table.Laws.{find_holds, find-update}
use ndy_hub.Auth.DeviceApproval.{
  expired, Request, Failure, no_such_request, not_pending, is_pending, has_id, is_open, accept,
  refuse, find_active_or_expire, load, approve, deny,
}

-- The request is the user's, and waits for its decision in time.
pub record Waits (id user_id : Key) (now : Time) (rows : List Request) (r : Request) : Type 0 where
  pub found : find (has_id id) rows ≡ some r
  pub mine : r.user_id ≡ user_id
  pub waiting : is_pending r.status ≡ true
  pub in_time : ltb r.expires_at now ≡ false

load-Waits :
    (id user_id : Key) (now : Time) (rows : List Request)
    → ((r : Request) × Waits id user_id now rows r × (load id user_id now rows ≡ (ok r, rows)))
      ⊎ ((f : Failure) × ((load id user_id now rows).0 ≡ err f))
unfolding load find_active_or_expire
load-Waits id user_id now rows = elim (Option-cases (find (has_id id) rows)) [
  | inl missing ↦ inr (no_such_request, ground (arith, missing))
  | inr (r, found) ↦ elim (Bool-cases (is_pending r.status)) [
    | inr closed ↦ elim (Bool-cases (r.user_id == user_id)) [
      | inr other ↦ inr (no_such_request, ground (arith, found, closed, other))
      | inl mine ↦ inr (not_pending r.status, ground (arith, found, closed, mine))
    ]
    | inl waiting ↦ elim (Bool-cases (ltb r.expires_at now)) [
      | inl late ↦ elim (Bool-cases (r.user_id == user_id)) [
        | inr other ↦ inr (no_such_request, ground (arith, found, waiting, late, other))
        | inl mine ↦ inr (not_pending expired, ground (arith, found, waiting, late, mine))
      ]
      | inr in_time ↦ elim (Bool-cases (r.user_id == user_id)) [
        | inr other ↦ inr (no_such_request, ground (arith, found, waiting, in_time, other))
        | inl mine ↦ inl (
          r,
          record {
            found = found;
            mine = (==_iff r.user_id user_id).0 mine;
            waiting = waiting;
            in_time = in_time;
          },
          ground (arith, found, waiting, in_time, mine),
        )
      ]
    ]
  ]
]

approve-written :
    (id user_id submitted : Key) (now : Time) (rows : List Request) (q : Request)
    → (approve id user_id submitted now rows).0 ≡ ok q
    → (r : Request) × Waits id user_id now rows r
      × (submitted ≡ r.match_code)
      × (q ≡ accept now r)
      × ((approve id user_id submitted now rows).1 ≡ update (is_open id) (accept now) rows)
unfolding approve
approve-written id user_id submitted now rows q e = elim (load-Waits id user_id now rows) [
  | inr (f, failed) ↦ absurd (ground (arith, e, failed))
  | inl (r, w, read) ↦ elim (Bool-cases (submitted == r.match_code)) [
    | inr wrong ↦ absurd (ground (arith, e, read, wrong))
    | inl same ↦ elim (Bool-cases (count (is_open id) rows == 0)) [
      | inl gone ↦ absurd (ground (arith, e, read, same, gone))
      | inr here ↦ (
        r,
        w,
        (==_iff submitted r.match_code).0 same,
        ground (
          arith,
          e,
          read,
          same,
          here,
          w.found,
          w.waiting,
          find_holds (has_id id) rows w.found,
          find-update (has_id id) (is_open id) (accept now) rows (λ v. refl),
        ),
        ground (arith, e, read, same, here),
      )
    ]
  ]
]

-- A device is approved only by its user, while the request waits in time, and with the code shown.
pub approve-Waits :
    (id user_id submitted : Key) (now : Time) (rows : List Request) (q : Request)
    → (approve id user_id submitted now rows).0 ≡ ok q
    → (r : Request) × Waits id user_id now rows r × (submitted ≡ r.match_code) × (q ≡ accept now r)
approve-Waits id user_id submitted now rows q e =
    let (r, w, same, accepted, _) = approve-written id user_id submitted now rows q e in
    (r, w, same, accepted)

find-decided :
    (id : Key) (f : Request → Request) (rows : List Request) {r : Request}
    → ((q : Request) → (f q).id ≡ q.id)
    → find (has_id id) rows ≡ some r
    → is_pending r.status ≡ true
    → find (has_id id) (update (is_open id) f rows) ≡ some (f r)
find-decided id f rows {r} keep found waiting = ground (
  arith,
  found,
  waiting,
  find_holds (has_id id) rows found,
  find-update (has_id id) (is_open id) f rows (λ q. rw (keep q) refl),
)

-- A decided request stays as it is: a later approval or denial by its user is refused.
closed_refused :
    (id user_id submitted : Key) (now : Time) (rows : List Request) {r : Request}
    → find (has_id id) rows ≡ some r
    → r.user_id ≡ user_id
    → is_pending r.status ≡ false
    → (approve id user_id submitted now rows ≡ (err (not_pending r.status), rows))
      × (deny id user_id now rows ≡ (err (not_pending r.status), rows))
unfolding approve deny load find_active_or_expire
closed_refused id user_id submitted now rows {r} found mine closed =
    (ground (arith, found, mine, closed), ground (arith, found, mine, closed))

abbrev pub decide : Bool → Key → Key → ℕ → Time → Handler (List Request) Failure Request
decide true id user_id submitted now = approve id user_id submitted now
decide false id user_id submitted now = deny id user_id now

decide-Closed :
    (yes_or_no : Bool) (id user_id submitted : Key) (now : Time) (rows : List Request) (q : Request)
    → (decide yes_or_no id user_id submitted now rows).0 ≡ ok q
    → (find (has_id id) (decide yes_or_no id user_id submitted now rows).1 ≡ some q)
      × (q.user_id ≡ user_id)
      × (is_pending q.status ≡ false)
unfolding approve deny
decide-Closed true id user_id submitted now rows q e =
    let (r, w, same, accepted, written) = approve-written id user_id submitted now rows q e in
    (
      rw (written, accepted) (find-decided id (accept now) rows (λ v. refl) w.found w.waiting),
      rw accepted w.mine,
      rw accepted refl,
    )
decide-Closed false id user_id submitted now rows q e = elim (load-Waits id user_id now rows) [
  | inr (f, failed) ↦ absurd (ground (arith, e, failed))
  | inl (r, w, read) ↦
      let there = find-decided id (refuse now) rows (λ v. refl) w.found w.waiting in
      let refused : q ≡ refuse now r = ground (arith, e, read, there) in
      (ground (arith, refused, read, there), rw refused w.mine, rw refused refl)
]

-- A request is decided once: after its approval or its denial, each further decision by its user is
-- refused and changes nothing.
pub decided_once :
    (first second : Bool) (id user_id submitted submitted' : Key) (now later : Time)
    (rows : List Request) (q : Request)
    → (decide first id user_id submitted now rows).0 ≡ ok q
    → let t = (decide first id user_id submitted now rows).1 in
      decide second id user_id submitted' later t ≡ (err (not_pending q.status), t)
decided_once first true id user_id submitted submitted' now later rows q e =
    let (found, mine, closed) = decide-Closed first id user_id submitted now rows q e in
    (closed_refused id user_id submitted' later (decide first id user_id submitted now rows).1 found
      mine closed).0
decided_once first false id user_id submitted submitted' now later rows q e =
    let (found, mine, closed) = decide-Closed first id user_id submitted now rows q e in
    (closed_refused id user_id submitted' later (decide first id user_id submitted now rows).1 found
      mine closed).1
