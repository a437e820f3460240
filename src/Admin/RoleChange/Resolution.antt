-- ===== src/Admin/RoleChange/Resolution.antt =====
-- A request is decided once.
use ndy_hub.Common.{
  Key, Time, false, Option, some, List, [], ◌∷◌, ◌==◌, Bool-cases, Option-cases, ◌≡◌, refl, inl,
  inr, arith,
}
use ndy_hub.Common.Handler.{ok, err}
use ndy_hub.Common.Table.{find, update}
use ndy_hub.Common.Table.Laws.{find-update, find-insert}
use mathlib.Core.Path.{subst}
use ndy_hub.Admin.RoleChange.{
  Status, approved, rejected, Request, Store, Actor, already_resolved, is_user, is_request,
  is_pending, reviewable, resolve, approve, reject,
}
use ndy_hub.Admin.RoleChange.DualControl.{
  create-requests, approve-requests, reject-requests, reviewable-cases, Call, creates, approves,
  rejects, run, run_all,
}

-- The request under `id` is decided.
abbrev pub IsResolved : Key → Store → Type 0
IsResolved id s =
    (r : Request) × (find (is_request id) s.requests ≡ some r) × (is_pending r.status ≡ false)

approve-IsResolved :
    (s : Store) (actor : Actor) (id : Key) (reason : Option Key) (now : Time) (r : Request)
    → (approve actor id reason now s).0 ≡ ok r
    → IsResolved id (approve actor id reason now s).1
unfolding approve
approve-IsResolved s actor id reason now r e = elim (reviewable-cases s actor id) [
  | inl (x, eq) ↦ absurd (ground (arith, eq))
  | inr (q, may, eq) ↦ elim (Option-cases (find (is_user q.target_user_id) s.users)) [
    | inl missing ↦ absurd (ground (arith, eq, missing))
    | inr (u, found) ↦ (
      resolve approved actor reason now q,
      ground (
        arith,
        eq,
        found,
        may.found,
        find-update (is_request id) (is_request q.id) (resolve approved actor reason now) s.requests
            (λ x. refl),
      ),
      refl,
    )
  ]
]

reject-IsResolved :
    (s : Store) (actor : Actor) (id : Key) (reason : Option Key) (now : Time) (r : Request)
    → (reject actor id reason now s).0 ≡ ok r
    → IsResolved id (reject actor id reason now s).1
unfolding reject
reject-IsResolved s actor id reason now r e = elim (reviewable-cases s actor id) [
  | inl (x, eq) ↦ absurd (ground (arith, eq))
  | inr (q, may, eq) ↦ (
    resolve rejected actor reason now q,
    ground (
      arith,
      eq,
      may.found,
      find-update (is_request id) (is_request q.id) (resolve rejected actor reason now) s.requests
          (λ x. refl),
    ),
    refl,
  )
]

approve-decided :
    (s : Store) (id : Key) (actor : Actor) (reason : Option Key) (now : Time)
    → IsResolved id s
    → approve actor id reason now s ≡ (err already_resolved, s)
unfolding approve reviewable
approve-decided s id actor reason now (r, found, done) = ground (arith, found, done)

reject-decided :
    (s : Store) (id : Key) (actor : Actor) (reason : Option Key) (now : Time)
    → IsResolved id s
    → reject actor id reason now s ≡ (err already_resolved, s)
unfolding reject reviewable
reject-decided s id actor reason now (r, found, done) = ground (arith, found, done)

resolve-IsResolved :
    (rows : List Request) (k : Status) (actor : Actor) (reason : Option Key) (now : Time)
    (decided : Key) (id : Key) (r : Request)
    → is_pending k ≡ false
    → find (is_request id) rows ≡ some r
    → is_pending r.status ≡ false
    → (x : Request) × (find
          (is_request id)
          (update (is_request decided) (resolve k actor reason now) rows)
        ≡ some x)
      × (is_pending x.status ≡ false)
resolve-IsResolved rows k actor reason now decided id r p found done =
    elim (Bool-cases (r.id == decided)) [
      | inl same ↦ (
        resolve k actor reason now r,
        ground (
          arith,
          found,
          same,
          find-update (is_request id) (is_request decided) (resolve k actor reason now) rows
              (λ x. refl),
        ),
        p,
      )
      | inr other ↦ (
        r,
        ground (
          arith,
          found,
          other,
          find-update (is_request id) (is_request decided) (resolve k actor reason now) rows
              (λ x. refl),
        ),
        done,
      )
    ]

run-IsResolved : (call : Call) (s : Store) (id : Key) → IsResolved id s → IsResolved id (run call s)
run-IsResolved (creates new actor target role reason) s id (r, found, done) =
    elim (create-requests s new actor target role reason) [
      | inl same ↦ rw same (r, found, done)
      | inr (q, p, eq) ↦
          rw eq (r, ground (arith, found, find-insert (is_request id) q s.requests), done)
    ]
run-IsResolved (approves actor other reason now) s id (r, found, done) =
    elim (approve-requests s actor other reason now) [
      | inl same ↦ rw same (r, found, done)
      | inr (q, p, eq) ↦
          rw eq (resolve-IsResolved s.requests approved actor reason now q.id id r refl found done)
    ]
run-IsResolved (rejects actor other reason now) s id (r, found, done) =
    elim (reject-requests s actor other reason now) [
      | inl same ↦ rw same (r, found, done)
      | inr (q, p, eq) ↦
          rw eq (resolve-IsResolved s.requests rejected actor reason now q.id id r refl found done)
    ]

run_all-IsResolved :
    (calls : List Call) (s : Store) (id : Key) → IsResolved id s → IsResolved id (run_all calls s)
run_all-IsResolved [] s id h = h
run_all-IsResolved (call ∷ calls) s id h =
    run_all-IsResolved calls (run call s) id (run-IsResolved call s id h)

-- The admin API has answered the call with a decided request.
abbrev pub Decides : Key → Call → Store → Type 0
Decides id (creates new actor target role reason) s = ⊥
Decides id (approves actor other reason now) s =
    (other ≡ id) × (r : Request) × ((approve actor other reason now s).0 ≡ ok r)
Decides id (rejects actor other reason now) s =
    (other ≡ id) × (r : Request) × ((reject actor other reason now s).0 ≡ ok r)

decide-IsResolved :
    (call : Call) (s : Store) (id : Key) → Decides id call s → IsResolved id (run call s)
decide-IsResolved (creates new actor target role reason) s id d = absurd d
decide-IsResolved (approves actor other reason now) s id (same, r, e) =
    subst (λ k. IsResolved k (approve actor other reason now s).1) same
      (approve-IsResolved s actor other reason now r e)
decide-IsResolved (rejects actor other reason now) s id (same, r, e) =
    subst (λ k. IsResolved k (reject actor other reason now s).1) same
      (reject-IsResolved s actor other reason now r e)

-- Once a role change is approved or rejected, and whatever requests follow, another approval and
-- another rejection of it both fail as already resolved and change nothing.
pub decided_once :
    (s : Store) (id : Key) (call : Call) (later : List Call) (actor : Actor) (reason : Option Key)
    (now : Time)
    → Decides id call s
    → let t = run_all later (run call s) in
      (approve actor id reason now t ≡ (err already_resolved, t))
      × (reject actor id reason now t ≡ (err already_resolved, t))
decided_once s id call later actor reason now d =
    let h = run_all-IsResolved later (run call s) id (decide-IsResolved call s id d) in
    let t = run_all later (run call s) in
    (approve-decided t id actor reason now h, reject-decided t id actor reason now h)
