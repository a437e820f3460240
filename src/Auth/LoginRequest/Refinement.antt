-- ===== src/Auth/LoginRequest/Refinement.antt =====
-- Login requests keep their promise, at the level of single database statements.
use ndy_hub.Common.{
  Key, Time, Bool, false, none, some, List, [], ◌∷◌, ◌++◌, ◌==◌, if◌then◌else◌, Bool-cases,
  Option-cases, ==_iff, ◌≤◌, ◌≡◌, refl, ◌⊎◌, inl, inr, arith,
}
use ndy_hub.Common.Handler.{Result, ok, err}
use ndy_hub.Common.Table.{find, update, count, insert}
use ndy_hub.Common.Table.Laws.{
  All, find-update, find-update_other, find-insert, update-count_zero, All-find,
}
use mathlib.Core.Path.{subst}
use ndy_hub.Auth.LoginRequest.{
  Request, Failure, already_exchanged, is_pending, has_token, is_open, is_exchangeable, new_request,
  expire, grant, refuse, mark_issued, create, claim_approval, write_denial, claim_exchange,
  check_exchange,
}
use ndy_hub.Common.Table.Unique.{count-found}
use ndy_hub.Auth.LoginRequest.Promise.{
  View, absent, Spec, view_row, stays, asks, Unissued, changed, changed-Spec, grant-Spec,
  refuse-Spec, expire-Spec, spend-Spec,
}

-- The table, the token and the user of each exchange that has passed its guards and not yet
-- claimed, and those of each session that an exchange has given.
pub record World : Type 0 where
  pub requests : List Request
  pub in_flight : List (Key × Key)
  pub issued : List (Key × Key)

abbrev pub noted : Result Failure Unit → Key × Key → List (Key × Key) → List (Key × Key)
noted (ok _) x issued = x ∷ issued
noted (err _) x issued = issued

-- One statement of the database. The `update` that marks a request expired has only its token in
-- its `where`, and runs at any time after the read that found the date passed.
pub data Step : World → World → Type 0 where
  creates :
      (w : World) (token : Key) (now : Time)
      → Step w (record w { requests = (create token now w.requests).1 })
  expires :
      (w : World) (token : Key)
      → Step w (record w { requests = update (has_token token) expire w.requests })
  approves :
      (w : World) (token user_id : Key) (now : Time)
      → Step w (record w { requests = (claim_approval token user_id now w.requests).1 })
  denies :
      (w : World) (token : Key) (now : Time)
      → Step w (record w { requests = write_denial token now w.requests })
  passes :
      (w : World) (token user_id : Key) (now : Time)
      → (check_exchange token now w.requests).0 ≡ ok user_id
      → Step w (record w { in_flight = (token, user_id) ∷ w.in_flight })
  claims :
      (w : World) (token user_id : Key) (now : Time) (before after : List (Key × Key))
      → w.in_flight ≡ before ++ ((token, user_id) ∷ after)
      → Step w (record {
        requests = (claim_exchange token now w.requests).1;
        in_flight = before ++ after;
        issued = noted (claim_exchange token now w.requests).0 (token, user_id) w.issued;
      })

pub data Reach (w : World) : World → Type 0 where
  here : Reach w w
  next : {u v : World} → Reach w u → Step u v → Reach w v

-- The users of the sessions given for a token.
unfoldable pub users_of : Key → List (Key × Key) → List Key
users_of token [] = []
users_of token ((k, u) ∷ issued) =
    if k == token then u ∷ users_of token issued else users_of token issued

abbrev pub seen : Key → World → View × List Key
seen token w = (view_row (find (has_token token) w.requests), users_of token w.issued)

-- The row of a token that was approved by the user, whatever has become of it.
abbrev pub Decided : List Request → Key × Key → Type 0
Decided rows (token, user_id) =
    (r : Request) × (find (has_token token) rows ≡ some r)
    × (is_pending r.status ≡ false)
    × (r.user_id ≡ some user_id)

pub record Sound (w : World) : Type 0 where
  pub rows : (c : Key) → count (has_token c) w.requests ≤ 1
  pub unissued : All Unissued w.requests
  pub decided : All (Decided w.requests) w.in_flight

pub Decided-update :
    (p : Request → Bool) (f : Request → Request) (rows : List Request) (x : Key × Key)
    → ((c : Key) (r : Request) → has_token c (f r) ≡ has_token c r)
    → ((r : Request)
        → is_pending r.status ≡ false
        → (is_pending (changed p f r).status ≡ false) × ((changed p f r).user_id ≡ r.user_id))
    → Decided rows x
    → Decided (update p f rows) x
Decided-update p f rows (token, user_id) keep h (r, found, closed, mine) = (
  changed p f r,
  ground (arith, found, find-update (has_token token) p f rows (keep token)),
  (h r closed).0,
  ground (arith, h r closed, mine),
)

pub Decided-insert :
    (q : Request) (rows : List Request) (x : Key × Key) → Decided rows x → Decided (insert q rows) x
Decided-insert q rows (token, user_id) (r, found, closed, mine) =
    (r, ground (arith, found, find-insert (has_token token) q rows), closed, mine)

pub All-remove :
    {A : Type 0} (P : A → Type 0) (before after : List A) (x : A)
    → All P (before ++ (x ∷ after))
    → P x × All P (before ++ after)
All-remove P [] after x h = h
All-remove P (y ∷ before) after x h =
    let (px, rest) = All-remove P before after x h.1 in (px, (h.0, rest))

pub create-cases :
    (token : Key) (now : Time) (rows : List Request)
    → ((create token now rows).1 ≡ rows)
      ⊎ ((find (has_token token) rows ≡ none)
          × ((create token now rows).1 ≡ insert (new_request token now) rows))
unfolding create
create-cases token now rows = elim (Option-cases (find (has_token token) rows)) [
  | inl free ↦ inr (free, ground (arith, free))
  | inr (r, taken) ↦ inl (ground (arith, taken))
]

insert-Spec :
    (token : Key) (now : Time) (rows : List Request) (c : Key) (l : List Key)
    → Spec
        (view_row (find (has_token c) rows), l)
        (view_row (find (has_token c) (insert (new_request token now) rows)), l)
insert-Spec token now rows c l = elim (Option-cases (find (has_token c) rows)) [
  | inr (r, found) ↦
      rw (find-insert (has_token c) (new_request token now) rows, found)
        (stays (view_row (some r), l))
  | inl missing ↦ elim (Bool-cases (token == c)) [
    | inl same ↦ rw (find-insert (has_token c) (new_request token now) rows, missing, same) (asks l)
    | inr other ↦
        rw (find-insert (has_token c) (new_request token now) rows, missing, other)
          (stays (absent, l))
  ]
]

create-Spec :
    (token : Key) (now : Time) (rows : List Request) (c : Key) (l : List Key)
    → Spec
        (view_row (find (has_token c) rows), l)
        (view_row (find (has_token c) (create token now rows).1), l)
create-Spec token now rows c l = elim (create-cases token now rows) [
  | inl same ↦ rw same (stays (view_row (find (has_token c) rows), l))
  | inr (free, new) ↦ rw new (insert-Spec token now rows c l)
]

update-Spec :
    (p : Request → Bool) (f : Request → Request) (rows : List Request) (c : Key) (l : List Key)
    → ((r : Request) → has_token c (f r) ≡ has_token c r)
    → ((r : Request)
        → find (has_token c) rows ≡ some r
        → Spec (view_row (some r), l) (view_row (some (changed p f r)), l))
    → Spec
        (view_row (find (has_token c) rows), l)
        (view_row (find (has_token c) (update p f rows)), l)
update-Spec p f rows c l keep h =
    rw (find-update (has_token c) p f rows keep)
      (changed-Spec p f l l (find (has_token c) rows) (λ e. refl) h)

pub claim-rows :
    (token : Key) (now : Time) (rows : List Request)
    → (((claim_exchange token now rows).0 ≡ ok tt)
        × (1 ≤ count (is_exchangeable token) rows)
        × ((claim_exchange token now rows).1
            ≡ update (is_exchangeable token) (mark_issued now) rows))
      ⊎ (((claim_exchange token now rows).0 ≡ err already_exchanged)
          × ((claim_exchange token now rows).1 ≡ rows))
unfolding claim_exchange
claim-rows token now rows = elim (Bool-cases (count (is_exchangeable token) rows == 0)) [
  | inl zero_rows ↦ inr (
    ground (arith, zero_rows),
    ground (arith, update-count_zero (is_exchangeable token) (mark_issued now) rows, zero_rows),
  )
  | inr some_rows ↦ inl (ground (arith, some_rows), ground (arith, some_rows), refl)
]

spent-Spec :
    (token user_id : Key) (now : Time) (rows : List Request) (l : List Key) {r : Request}
    → find (has_token token) rows ≡ some r
    → r.user_id ≡ some user_id
    → count (has_token token) rows ≤ 1
    → 1 ≤ count (is_exchangeable token) rows
    → Spec
        (view_row (find (has_token token) rows), l)
        (
          view_row (find (has_token token) (update (is_exchangeable token) (mark_issued now) rows)),
          user_id ∷ l,
        )
spent-Spec token user_id now rows l {r} found mine one some_row =
    let (q, found', can) =
      count-found (is_exchangeable token) (has_token token) rows (λ q e. ground (arith, e)) one
        some_row in
    let same : q ≡ r = cc in
    rw
      (
        find-update (has_token token) (is_exchangeable token) (mark_issued now) rows (λ q. refl),
        found,
      )
      (spend-Spec token user_id now l r (rw same at can) mine)

claim-Spec :
    (token user_id : Key) (now : Time) (rows : List Request) (issued : List (Key × Key)) (c : Key)
    → Decided rows (token, user_id)
    → count (has_token token) rows ≤ 1
    → Spec
        (view_row (find (has_token c) rows), users_of c issued)
        (
          view_row (find (has_token c) (claim_exchange token now rows).1),
          users_of c (noted (claim_exchange token now rows).0 (token, user_id) issued),
        )
unfolding users_of
claim-Spec token user_id now rows issued c (r, found, closed, mine) one =
    elim (claim-rows token now rows) [
      | inr (failed, same) ↦
          rw (failed, same) (stays (view_row (find (has_token c) rows), users_of c issued))
      | inl (done, some_row, written) ↦ elim (Bool-cases (token == c)) [
        | inr other ↦
            rw
              (
                done,
                written,
                other,
                find-update_other (has_token c) (is_exchangeable token) (mark_issued now) rows
                    (λ q. refl) (λ q e. ground (arith, e, other)),
              )
              (stays (view_row (find (has_token c) rows), users_of c issued))
        | inl same ↦
            let p : token ≡ c = (==_iff token c).0 same in
            subst
              (λ k.
                Spec (view_row (find (has_token k) rows), users_of k issued)
                  (
                    view_row (find (has_token k) (claim_exchange token now rows).1),
                    users_of k (noted (claim_exchange token now rows).0 (token, user_id) issued),
                  ))
              p
              (rw (done, written, (==_iff token token).1 refl)
                (spent-Spec token user_id now rows (users_of token issued) found mine one some_row))
      ]
    ]

pub Step-Spec : {w v : World} → Step w v → Sound w → (c : Key) → Spec (seen c w) (seen c v)
unfolding claim_approval
Step-Spec (creates w token now) h c = create-Spec token now w.requests c (users_of c w.issued)
Step-Spec (expires w token) h c =
    update-Spec (has_token token) expire w.requests c (users_of c w.issued) (λ r. refl)
      (λ r e. expire-Spec token (users_of c w.issued) r)
Step-Spec (approves w token user_id now) h c =
    update-Spec (is_open token) (grant user_id now) w.requests c (users_of c w.issued) (λ r. refl)
      (λ r e.
        grant-Spec token user_id now (users_of c w.issued) r
          (All-find Unissued (has_token c) w.requests h.unissued e))
Step-Spec (denies w token now) h c =
    update-Spec (is_open token) (refuse now) w.requests c (users_of c w.issued) (λ r. refl)
      (λ r e. refuse-Spec token now (users_of c w.issued) r)
Step-Spec (passes w token user_id now e) h c = stays (seen c w)
Step-Spec (claims w token user_id now before after e) h c =
    claim-Spec token user_id now w.requests w.issued c
      (All-remove (Decided w.requests) before after (token, user_id) (rw e at h.decided)).0
      (h.rows token)
