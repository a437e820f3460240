-- ===== src/Actions/Engine/Resolution.antt =====
-- What resolving an approval runs, and that an approval is resolved once.
use ndy_hub.Common.{
  Key, Time, Bool, true, false, some, List, ltb, Bool-cases, Option-cases, ==_iff, ◌≡◌, refl, ap,
  ◌⊎◌, inl, inr, arith,
}
use ndy_hub.Common.Handler.{ok, err}
use ndy_hub.Common.Table.{find, update}
use ndy_hub.Common.Table.Laws.{find_holds, find-update}
use ndy_hub.Actions.Registry.{Entry, find_action_definition}
use ndy_hub.Actions.Engine.{
  denied_by_user, LogEntry, ApprovalStatus, approved, denied_approval, Approval, Store, Domain,
  ActionResult, was_rejected, Failure, no_such_approval, already_resolved, approval_expired,
  no_such_action, is_pending, is_log, is_approval, resolve, execute_approved, load_approval, deny,
  confirm, resolve_approval,
}

found_after :
    (p : Approval → Bool) {approvals approvals' : List Approval} {a : Approval}
    → approvals' ≡ approvals
    → find p approvals ≡ some a
    → find p approvals' ≡ some a
found_after p e found = rw e found

module _ {D : Type 0} (domain : Domain D) where
  -- A pending approval in time, the entry that waits for it and the entry's action.
  pub record Waits (approval_id : Key) (now : Time) (s : Store D) (a : Approval) (l : LogEntry)
      (e : Entry) : Type 0 where
    pub found : find (is_approval approval_id) s.approvals ≡ some a
    pub open_status : is_pending a.status ≡ true
    pub in_time : ltb a.expires_at now ≡ false
    pub logged : find (is_log a.action_log_id) s.logs ≡ some l
    pub registered : find_action_definition l.input.action_key ≡ some e

  load-Waits :
      (approval_id : Key) (now : Time) (s : Store D)
      → ((a : Approval) × (l : LogEntry) × (e : Entry) × Waits approval_id now s a l e
          × (load_approval domain approval_id now s ≡ (ok (a, l, e), s)))
        ⊎ ((f : Failure) × ((load_approval domain approval_id now s).0 ≡ err f)
            × ((load_approval domain approval_id now s).1.domain ≡ s.domain)
            × ((load_approval domain approval_id now s).1.logs ≡ s.logs))
  unfolding load_approval
  load-Waits approval_id now s = elim (Option-cases (find (is_approval approval_id) s.approvals)) [
    | inl none_found ↦ inr (
      no_such_approval,
      ground (arith, none_found),
      ground (arith, none_found),
      ground (arith, none_found),
    )
    | inr (a, found) ↦ elim (Bool-cases (is_pending a.status)) [
      | inr closed ↦ inr (
        already_resolved,
        ground (arith, found, closed),
        ground (arith, found, closed),
        ground (arith, found, closed),
      )
      | inl open_status ↦ elim (Bool-cases (ltb a.expires_at now)) [
        | inl late ↦ inr (
          approval_expired,
          rw (found, open_status, late) refl,
          rw (found, open_status, late) refl,
          rw (found, open_status, late) refl,
        )
        | inr in_time ↦ elim (Option-cases (find (is_log a.action_log_id) s.logs)) [
          | inl unlogged ↦ inr (
            no_such_action,
            rw (found, open_status, in_time, unlogged) refl,
            rw (found, open_status, in_time, unlogged) refl,
            rw (found, open_status, in_time, unlogged) refl,
          )
          | inr (l, logged) ↦ elim (Option-cases (find_action_definition l.input.action_key)) [
            | inl unknown ↦ inr (
              no_such_action,
              rw (found, open_status, in_time, logged, unknown) refl,
              rw (found, open_status, in_time, logged, unknown) refl,
              rw (found, open_status, in_time, logged, unknown) refl,
            )
            | inr (e, known) ↦ inl (
              a,
              l,
              e,
              record {
                found = found;
                open_status = open_status;
                in_time = in_time;
                logged = logged;
                registered = known;
              },
              rw (found, open_status, in_time, logged, known) refl,
            )
          ]
        ]
      ]
    ]
  ]

  -- Resolving an approval changes what the domain services keep only where it approves, the
  -- approval is pending and in time, and then by running the action of the waiting entry once, for
  -- the user who asked for it and with the parameters asked for.
  pub resolve_approval-Waits :
      (approval_id user_id : Key) (approve : Bool) (now : Time) (s : Store D)
      → let t = (resolve_approval domain approval_id user_id approve now s).1 in
        (t.domain ≡ s.domain)
        ⊎ ((approve ≡ true)
            × (a : Approval) × (l : LogEntry) × (e : Entry) × Waits approval_id now s a l e
            × (t.domain
                ≡ (domain.perform e l.input.requested_by_user_id l.input.params s.domain).1))
  unfolding resolve_approval deny confirm execute_approved
  resolve_approval-Waits approval_id user_id approve now s = elim (load-Waits approval_id now s) [
    | inr (f, threw, same, _) ↦ inl (ground (arith, threw, same))
    | inl (a, l, e, waits, loaded) ↦ elim (Bool-cases approve) [
      | inr denies ↦ inl (ground (arith, loaded, denies))
      | inl approves ↦ inr (approves, a, l, e, waits, ground (arith, loaded, approves))
    ]
  ]

  load_closed :
      (approval_id : Key) (now : Time) (t : Store D) {a : Approval}
      → find (is_approval approval_id) t.approvals ≡ some a
      → is_pending a.status ≡ false
      → load_approval domain approval_id now t ≡ (err already_resolved, t)
  unfolding load_approval
  load_closed approval_id now t found closed = ground (arith, found, closed)

  closed_refused :
      (approval_id user_id : Key) (approve : Bool) (now : Time) (t : Store D) {a : Approval}
      → find (is_approval approval_id) t.approvals ≡ some a
      → is_pending a.status ≡ false
      → resolve_approval domain approval_id user_id approve now t ≡ (err already_resolved, t)
  unfolding resolve_approval
  closed_refused approval_id user_id approve now t found closed =
      ground (arith, load_closed approval_id now t found closed)

  find-resolve :
      (approval_id user_id : Key) (status : ApprovalStatus) (now : Time) (approvals : List Approval)
      {a : Approval}
      → find (is_approval approval_id) approvals ≡ some a
      → find
          (is_approval approval_id)
          (update (is_approval a.id) (resolve status user_id now) approvals)
        ≡ some (resolve status user_id now a)
  find-resolve approval_id user_id status now approvals {a} found = ground (
    arith,
    found,
    ==_iff a.id a.id,
    find-update (is_approval approval_id) (is_approval a.id) (resolve status user_id now) approvals
        (λ b. refl),
  )

  -- An approval that was resolved, either way, is closed: resolving it again at any time is refused
  -- and changes nothing.
  pub resolve_once :
      (approval_id user_id user_id' : Key) (approve approve' : Bool) (now later : Time)
      (s : Store D) (r : ActionResult)
      → (resolve_approval domain approval_id user_id approve now s).0 ≡ ok r
      → let t = (resolve_approval domain approval_id user_id approve now s).1 in
        resolve_approval domain approval_id user_id' approve' later t ≡ (err already_resolved, t)
  unfolding resolve_approval deny confirm execute_approved
  resolve_once approval_id user_id user_id' approve approve' now later s r done =
      elim (load-Waits approval_id now s) [
        | inr (f, threw, _, _) ↦ ground (arith, done, threw)
        | inl (a, l, e, waits, loaded) ↦ elim (Bool-cases approve) [
          | inr denies ↦
              closed_refused approval_id user_id' approve' later
                (resolve_approval domain approval_id user_id approve now s).1
                {a = resolve denied_approval user_id now a}
                (found_after (is_approval approval_id) (ground (arith, loaded, denies))
                  (find-resolve approval_id user_id denied_approval now s.approvals waits.found))
                refl
          | inl approves ↦
              closed_refused approval_id user_id' approve' later
                (resolve_approval domain approval_id user_id approve now s).1
                {a = resolve approved user_id now a}
                (found_after (is_approval approval_id) (ground (arith, loaded, approves))
                  (find-resolve approval_id user_id approved now s.approvals waits.found))
                refl
        ]
      ]

  Waits-loaded :
      (approval_id : Key) (now : Time) (s : Store D) (a : Approval) (l : LogEntry) (e : Entry)
      → Waits approval_id now s a l e
      → load_approval domain approval_id now s ≡ (ok (a, l, e), s)
  unfolding load_approval
  Waits-loaded approval_id now s a l e w =
      rw (w.found, w.open_status, w.in_time, w.logged, w.registered) refl

  -- The approval as the table has it after `user_id` has resolved it.
  abbrev pub ResolvedBy : Key → ApprovalStatus → Time → Approval → Store D → Type 0
  ResolvedBy user_id status now a t =
      find (is_approval a.id) t.approvals
      ≡ some
          (record a { status = status; resolved_by_user_id = some user_id; resolved_at = some now })

  find-approval_id :
      (approval_id : Key) (approvals : List Approval) {a : Approval}
      → find (is_approval approval_id) approvals ≡ some a
      → find (is_approval a.id) approvals ≡ some a
  find-approval_id approval_id approvals {a} found = ground (
    arith,
    found,
    find_holds (is_approval approval_id) approvals found,
    ==_iff a.id approval_id,
    ap is_approval,
  )

  -- Whoever resolves a pending approval in time is obeyed and recorded as the one who resolved it,
  -- a member of the workspace or not. An approval by any user runs the action once, for the one who
  -- asked and with the parameters asked for; a denial by any user leaves what the domain services
  -- keep as it was and answers with a rejection.
  pub resolve_approval_by_anyone :
      (approval_id user_id : Key) (now : Time) (s : Store D) (a : Approval) (l : LogEntry)
      (e : Entry)
      → Waits approval_id now s a l e
      → let (_, t) = resolve_approval domain approval_id user_id true now s in
        let (refusal, u) = resolve_approval domain approval_id user_id false now s in
        (t.domain ≡ (domain.perform e l.input.requested_by_user_id l.input.params s.domain).1)
        × ResolvedBy user_id approved now a t
        × (u.domain ≡ s.domain)
        × ResolvedBy user_id denied_approval now a u
        × (refusal ≡ ok (was_rejected l.id (some denied_by_user)))
  unfolding resolve_approval confirm execute_approved deny
  resolve_approval_by_anyone approval_id user_id now s a l e w =
      let read = Waits-loaded approval_id now s a l e w in
      let found = find-approval_id approval_id s.approvals w.found in
      (
        ground (arith, read),
        found_after (is_approval a.id) (ground (arith, read))
            (find-resolve a.id user_id approved now s.approvals found),
        ground (arith, read),
        found_after (is_approval a.id) (ground (arith, read))
            (find-resolve a.id user_id denied_approval now s.approvals found),
        ground (arith, read),
      )
