-- ===== src/Actions/Engine/Races.antt =====
-- `resolveApproval` under concurrent requests: its read with the guards and its `update` are two
-- statements, and the `update` does not test `status` again.
use ndy_hub.Common.{Key, Time, List, [], ◌∷◌, ◌++◌, ◌≡◌, refl}
use ndy_hub.Common.Handler.{Result, ok, err}
use ndy_hub.Actions.Registry.{Entry}
use ndy_hub.Actions.Engine.{
  LogEntry, Approval, Store, Domain, ActionResult, Failure, execute_approved, load_approval, deny,
  confirm,
}
use mathlib.Core.Path.{subst}

-- An approval that has passed its guards, with its entry and its action.
abbrev pub Loaded : Type 0
Loaded = Approval × LogEntry × Entry

abbrev pub passed : Result Failure Loaded → List Loaded → List Loaded
passed (ok r) loaded = r ∷ loaded
passed (err _) loaded = loaded

-- The store, what the requests have read that have not yet written, and the answers returned.
pub record World (D : Type 0) : Type 0 where
  pub store : Store D
  pub in_flight : List Loaded
  pub answers : List (Result Failure ActionResult)

module _ {D : Type 0} (domain : Domain D) where
  pub data Step : World D → World D → Type 0 where
    reads :
        (w : World D) (approval_id : Key) (now : Time)
        → Step w (record w {
          store = (load_approval domain approval_id now w.store).1;
          in_flight = passed (load_approval domain approval_id now w.store).0 w.in_flight;
        })
    confirms :
        (w : World D) (a : Approval) (l : LogEntry) (e : Entry) (user_id : Key) (now : Time)
        (before after : List Loaded)
        → w.in_flight ≡ before ++ ((a, l, e) ∷ after)
        → Step w (record {
          store = (confirm domain a l e user_id now w.store).1;
          in_flight = before ++ after;
          answers = (confirm domain a l e user_id now w.store).0 ∷ w.answers;
        })
    denies :
        (w : World D) (a : Approval) (l : LogEntry) (e : Entry) (user_id : Key) (now : Time)
        (before after : List Loaded)
        → w.in_flight ≡ before ++ ((a, l, e) ∷ after)
        → Step w (record {
          store = (deny domain a l user_id now w.store).1;
          in_flight = before ++ after;
          answers = (deny domain a l user_id now w.store).0 ∷ w.answers;
        })

  pub data Reach (w : World D) : World D → Type 0 where
    here : Reach w w
    next : {u v : World D} → Reach w u → Step u v → Reach w v

  abbrev pub idle : Store D → World D
  idle s = record { store = s; in_flight = []; answers = [] }

  read_ok :
      (w : World D) (approval_id : Key) (now : Time) {r : Loaded}
      → load_approval domain approval_id now w.store ≡ (ok r, w.store)
      → Step w (record w { in_flight = r ∷ w.in_flight })
  read_ok w approval_id now e =
      subst
        (λ (c : Result Failure Loaded × Store D).
          Step w (record w { store = c.1; in_flight = passed c.0 w.in_flight }))
        e (reads w approval_id now)

  -- Two requests that both read a pending approval before either writes both run its action: an
  -- interleaving of two confirmations ends with the action performed twice and none in flight.
  pub resolved_by_two :
      (s : Store D) (approval_id user_id : Key) (now now' : Time) (a : Approval) (l : LogEntry)
      (e : Entry)
      → load_approval domain approval_id now s ≡ (ok (a, l, e), s)
      → load_approval domain approval_id now' s ≡ (ok (a, l, e), s)
      → let run = λ (d : D). (domain.perform e l.input.requested_by_user_id l.input.params d).1 in
        (w : World D) × Reach (idle s) w
        × (w.in_flight ≡ [])
        × (w.store.domain ≡ run (run s.domain))
  unfolding confirm execute_approved
  resolved_by_two s approval_id user_id now now' a l e read read' =
      let first = (confirm domain a l e user_id now s).1 in
      (
        record {
          store = (confirm domain a l e user_id now' first).1;
          in_flight = [];
          answers =
              (confirm domain a l e user_id now' first).0
              ∷ (confirm domain a l e user_id now s).0
              ∷ [];
        },
        next
            (next
              (next (next here (read_ok (idle s) approval_id now read))
                (read_ok (record (idle s) { in_flight = (a, l, e) ∷ [] }) approval_id now' read'))
              (confirms (record (idle s) { in_flight = (a, l, e) ∷ (a, l, e) ∷ [] }) a l e user_id
                now [] ((a, l, e) ∷ []) refl))
            (confirms
              (record {
                store = first;
                in_flight = (a, l, e) ∷ [];
                answers = (confirm domain a l e user_id now s).0 ∷ [];
              })
              a l e user_id now' [] [] refl),
        refl,
        refl,
      )
