-- ===== src/Auth/LoginRequest/OneSession.antt =====
-- At most one session per login request, for the user who approved it.
use ndy_hub.Common.{
  Key, Time, Bool, true, false, some, List, [], ◌∷◌, ◌++◌, Bool-cases, Option-cases, ◌≤◌, ◌≡◌, refl,
  ap, ◌⊎◌, inl, inr, arith,
}
use ndy_hub.Common.Handler.{ok}
use ndy_hub.Common.Table.{find, update, count, insert}
use ndy_hub.Common.Table.Laws.{
  All, count-insert, count-update_same, find-none-count, All-insert, All-update, All-imp,
}
use ndy_hub.Auth.LoginRequest.{
  Status, pending, approved, denied, expired, Request, is_pending, is_approved, has_token, is_open,
  is_exchangeable, new_request, expire, grant, refuse, mark_issued, create, is_due,
  find_active_or_expire, claim_approval, claim_exchange, check_exchange,
}
use ndy_hub.Auth.LoginRequest.Promise.{
  View, exchanged, lapsed, grants, refuses, lapses, spends, Spec, view_row, stays, asks, Unissued,
  changed,
}
use ndy_hub.Auth.LoginRequest.Refinement.{
  World, noted, Step, creates, expires, approves, denies, passes, claims, Reach, here, next,
  users_of, seen, Decided, Sound, Decided-update, Decided-insert, All-remove, create-cases,
  Step-Spec, claim-rows,
}

create-Sound :
    (w : World) (token : Key) (now : Time)
    → Sound w
    → Sound (record w { requests = (create token now w.requests).1 })
create-Sound w token now h = elim (create-cases token now w.requests) [
  | inl same ↦ rw same h
  | inr (free, new) ↦ rw new (record {
    rows = λ c. ground (
      arith,
      h.rows c,
      find-none-count (has_token token) w.requests,
      free,
      count-insert (has_token c) (new_request token now) w.requests,
    );
    unissued = All-insert Unissued (new_request token now) w.requests h.unissued (λ e. refl);
    decided =
        All-imp (Decided w.requests) (Decided (insert (new_request token now) w.requests))
          w.in_flight (λ x d. Decided-insert (new_request token now) w.requests x d) h.decided;
  })
]

-- A write that keeps the tokens and decides no request again.
update-Sound :
    (w : World) (p : Request → Bool) (f : Request → Request)
    → ((c : Key) (r : Request) → has_token c (f r) ≡ has_token c r)
    → ((r : Request)
        → is_pending r.status ≡ false
        → (is_pending (changed p f r).status ≡ false) × ((changed p f r).user_id ≡ r.user_id))
    → ((r : Request) → p r ≡ true → Unissued r → Unissued (f r))
    → Sound w
    → Sound (record w { requests = update p f w.requests })
update-Sound w p f keep closed fresh h = record {
  rows = λ c.
      ground (arith, h.rows c, count-update_same (has_token c) p f w.requests (λ r e. keep c r));
  unissued = All-update Unissued p f w.requests fresh h.unissued;
  decided =
      All-imp (Decided w.requests) (Decided (update p f w.requests)) w.in_flight
        (λ x d. Decided-update p f w.requests x keep closed d) h.decided;
}

approved_closed : (st : Status) → is_approved st ≡ true → is_pending st ≡ false
approved_closed approved e = refl
approved_closed pending e = absurd (cc)
approved_closed denied e = refl
approved_closed expired e = refl

closed-changed :
    (p : Request → Bool) (f : Request → Request) (r : Request)
    → (p r ≡ true → (is_pending (f r).status ≡ false) × ((f r).user_id ≡ r.user_id))
    → is_pending r.status ≡ false
    → (is_pending (changed p f r).status ≡ false) × ((changed p f r).user_id ≡ r.user_id)
closed-changed p f r h closed = elim (Bool-cases (p r)) [
  | inl t ↦ rw t (h t)
  | inr t ↦ rw t (closed, refl)
]

passes-Decided :
    (rows : List Request) (token user_id : Key) (now : Time)
    → (check_exchange token now rows).0 ≡ ok user_id
    → Decided rows (token, user_id)
unfolding check_exchange find_active_or_expire
passes-Decided rows token user_id now e = elim (Option-cases (find (has_token token) rows)) [
  | inl missing ↦ absurd (ground (arith, e, missing))
  | inr (r, found) ↦ elim (Bool-cases (is_due now r)) [
    | inl due ↦ absurd (ground (arith, e, found, due))
    | inr early ↦ elim (Bool-cases (is_approved r.status)) [
      | inr other ↦ absurd (ground (arith, e, found, early, other))
      | inl ok_status ↦ elim (Option-cases r.user_id) [
        | inl nobody ↦ absurd (ground (arith, e, found, early, ok_status, nobody))
        | inr (u, mine) ↦ elim (Option-cases r.session_issued_at) [
          | inr (time, spent) ↦ absurd (ground (arith, e, found, early, ok_status, mine, spent))
          | inl unspent ↦ (
            r,
            found,
            approved_closed r.status ok_status,
            ground (arith, e, found, early, ok_status, mine, unspent),
          )
        ]
      ]
    ]
  ]
]

claim-Sound :
    (w : World) (token : Key) (now : Time) (in_flight issued : List (Key × Key))
    → Sound w
    → All (Decided w.requests) in_flight
    → Sound (record {
      requests = (claim_exchange token now w.requests).1;
      in_flight = in_flight;
      issued = issued;
    })
claim-Sound w token now in_flight issued h d =
    let u : World = record { requests = w.requests; in_flight = in_flight; issued = issued } in
    let k : Sound u = record { rows = h.rows; unissued = h.unissued; decided = d } in
    elim (claim-rows token now w.requests) [
      | inr (failed, same) ↦ rw same k
      | inl (done, some_row, written) ↦ rw written (
          update-Sound u (is_exchangeable token) (mark_issued now) (λ c r. refl)
            (λ r e. closed-changed (is_exchangeable token) (mark_issued now) r (λ t. (e, refl)) e)
            (λ r e unissued waits.
              absurd (ground (arith, e, waits, approved_closed r.status (ground (arith, e)))))
            k)
    ]

Step-Sound : {w v : World} → Step w v → Sound w → Sound v
unfolding claim_approval
Step-Sound (creates w token now) h = create-Sound w token now h
Step-Sound (expires w token) h =
    update-Sound w (has_token token) expire (λ c r. refl)
      (λ r e. closed-changed (has_token token) expire r (λ t. (refl, refl)) e)
      (λ r e u waits. absurd cc) h
Step-Sound (approves w token user_id now) h =
    update-Sound w (is_open token) (grant user_id now) (λ c r. refl)
      (λ r e.
        closed-changed (is_open token) (grant user_id now) r (λ t. absurd (ground (arith, t, e))) e)
      (λ r e u waits. absurd cc) h
Step-Sound (denies w token now) h =
    update-Sound w (is_open token) (refuse now) (λ c r. refl)
      (λ r e. closed-changed (is_open token) (refuse now) r (λ t. (refl, refl)) e)
      (λ r e u waits. absurd cc) h
Step-Sound (passes w token user_id now e) h = record {
  rows = h.rows;
  unissued = h.unissued;
  decided = (passes-Decided w.requests token user_id now e, h.decided);
}
Step-Sound (claims w token user_id now before after e) h =
    claim-Sound w token now (before ++ after)
      (noted (claim_exchange token now w.requests).0 (token, user_id) w.issued) h
      (All-remove (Decided w.requests) before after (token, user_id) (rw e at h.decided)).1

Reach-Sound : {w v : World} → Sound w → Reach w v → Sound v
Reach-Sound h here = h
Reach-Sound h (next r st) = Step-Sound st (Reach-Sound h r)

pub data SpecReach (a : View × List Key) : View × List Key → Type 0 where
  begin : SpecReach a a
  extend : {b c : View × List Key} → SpecReach a b → Spec b c → SpecReach a c

abbrev pub start : List Request → World
start rows = record { requests = rows; in_flight = []; issued = [] }

start-Sound :
    (rows : List Request)
    → ((c : Key) → count (has_token c) rows ≤ 1)
    → All Unissued rows
    → Sound (start rows)
start-Sound rows distinct unissued = record { rows = distinct; unissued = unissued; decided = tt }

seen-Reach :
    {w v : World} → Sound w → Reach w v → (token : Key) → SpecReach (seen token w) (seen token v)
seen-Reach h here token = begin
seen-Reach h (next {u} r st) token =
    extend (seen-Reach h r token) (Step-Spec st (Reach-Sound h r) token)

-- The statements of all requests, in any order, keep the promise for each token: from a table with
-- one row for a token at most, and no session issued for a request that waits, what they make of the
-- row and of the sessions given is a run of the promised steps.
pub Reach-Spec :
    (rows : List Request) (w : World) (token : Key)
    → ((c : Key) → count (has_token c) rows ≤ 1)
    → All Unissued rows
    → Reach (start rows) w
    → SpecReach (seen token (start rows)) (seen token w)
Reach-Spec rows w token distinct unissued run =
    seen-Reach (start-Sound rows distinct unissued) run token

-- What the promise says of the sessions given: none, or one for the user whose grant was spent.
abbrev Given : View × List Key → Type 0
Given (v, []) = Unit
Given (v, u ∷ l) = (l ≡ []) × ((v ≡ exchanged (some u)) ⊎ (v ≡ lapsed))

Spec-Given : {a b : View × List Key} → Spec a b → Given a → Given b
Spec-Given (stays v) g = g
Spec-Given (asks []) g = tt
Spec-Given (asks (u ∷ l)) (e, inl p) = absurd (cc)
Spec-Given (asks (u ∷ l)) (e, inr p) = absurd (cc)
Spec-Given (grants u []) g = tt
Spec-Given (grants u (x ∷ l)) (e, inl p) = absurd (cc)
Spec-Given (grants u (x ∷ l)) (e, inr p) = absurd (cc)
Spec-Given (refuses []) g = tt
Spec-Given (refuses (u ∷ l)) (e, inl p) = absurd (cc)
Spec-Given (refuses (u ∷ l)) (e, inr p) = absurd (cc)
Spec-Given (lapses v []) g = tt
Spec-Given (lapses v (u ∷ l)) (e, _) = (e, inr refl)
Spec-Given (spends u []) g = (refl, inl refl)
Spec-Given (spends u (x ∷ l)) (e, inl p) = absurd (cc)
Spec-Given (spends u (x ∷ l)) (e, inr p) = absurd (cc)

SpecReach-Given : {a b : View × List Key} → SpecReach a b → Given a → Given b
SpecReach-Given begin g = g
SpecReach-Given (extend r st) g = Spec-Given st (SpecReach-Given r g)

Given-cases :
    (v : View) (l : List Key)
    → Given (v, l)
    → (l ≡ []) ⊎ ((u : Key) × (l ≡ u ∷ []) × ((v ≡ exchanged (some u)) ⊎ (v ≡ lapsed)))
Given-cases v [] g = inl refl
Given-cases v (u ∷ l) (e, g) = inr (u, ap (λ k. u ∷ k) e, g)

-- However the statements of concurrent requests interleave, the exchanges of a login request give
-- at most one session, and then the request is spent on the user of that session, or marked
-- expired by a late write. The table has one row for a token at most, and no session issued for a
-- request that waits.
pub one_session :
    (rows : List Request) (w : World) (token : Key)
    → ((c : Key) → count (has_token c) rows ≤ 1)
    → All Unissued rows
    → Reach (start rows) w
    → (users_of token w.issued ≡ [])
      ⊎ ((u : Key) × (users_of token w.issued ≡ u ∷ [])
          × ((view_row (find (has_token token) w.requests) ≡ exchanged (some u))
              ⊎ (view_row (find (has_token token) w.requests) ≡ lapsed)))
unfolding users_of
one_session rows w token distinct unissued run =
    Given-cases (view_row (find (has_token token) w.requests)) (users_of token w.issued)
      (SpecReach-Given (Reach-Spec rows w token distinct unissued run) tt)
