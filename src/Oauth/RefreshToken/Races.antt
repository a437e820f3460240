-- ===== src/Oauth/RefreshToken/Races.antt =====
-- `rotateRefreshToken` under concurrent requests: its read with the guards and its `update` are two
-- statements, and the `update` does not test `revokedAt` again.
use ndy_hub.Common.{Key, Time, List, [], ◌∷◌, ◌++◌, ◌≡◌, arith, refl}
use mathlib.Core.Path.{subst}
use ndy_hub.Common.Handler.{Result, ok, err}
use ndy_hub.Oauth.RefreshToken.{RefreshToken, Store, Failure, check, consume}

-- The store, the rows of the requests that have passed their guards and not yet written, and the
-- grants that have been returned.
pub record World : Type 0 where
  pub store : Store
  pub in_flight : List RefreshToken
  pub granted : List RefreshToken

-- A request that has written is answered with its grant, where the write did not throw.
abbrev pub answered : Result Failure Unit → RefreshToken → List RefreshToken → List RefreshToken
answered (ok _) r rows = r ∷ rows
answered (err _) r rows = rows

abbrev pub passed : Result Failure RefreshToken → List RefreshToken → List RefreshToken
passed (ok r) rows = r ∷ rows
passed (err _) rows = rows

module _ (hash_token : Key → Key) where
  pub data Step : World → World → Type 0 where
    reads :
        (w : World) (token client : Key) (now : Time)
        → Step w (record w {
          store = (check hash_token token client now w.store).1;
          in_flight = passed (check hash_token token client now w.store).0 w.in_flight;
        })
    writes :
        (w : World) (r : RefreshToken) (now : Time) (before after : List RefreshToken)
        → w.in_flight ≡ before ++ (r ∷ after)
        → Step w (record {
          store = (consume hash_token r now w.store).1;
          in_flight = before ++ after;
          granted = answered (consume hash_token r now w.store).0 r w.granted;
        })

  pub data Reach (w : World) : World → Type 0 where
    here : Reach w w
    next : {u v : World} → Reach w u → Step u v → Reach w v

  abbrev pub idle : Store → World
  idle s = record { store = s; in_flight = []; granted = [] }

  read_ok :
      (w : World) (token client : Key) (now : Time) {r : RefreshToken}
      → check hash_token token client now w.store ≡ (ok r, w.store)
      → Step w (record w { in_flight = r ∷ w.in_flight })
  read_ok w token client now e =
      subst
        (λ (c : Result Failure RefreshToken × Store).
          Step w (record w { store = c.1; in_flight = passed c.0 w.in_flight }))
        e (reads w token client now)

  same_row :
      (s : Store) (token client : Key) (now now' : Time) {r r' : RefreshToken}
      → check hash_token token client now s ≡ (ok r, s)
      → check hash_token token client now' s ≡ (ok r', s)
      → r ≡ r'
  unfolding check
  same_row s token client now now' e e' = ground arith

  -- Two requests that both read a token before either writes are both answered with its grant: a
  -- token that passes the guards at two moments can be exchanged twice, by an interleaving of two
  -- requests that ends with both grants returned and none in flight.
  pub rotated_by_two :
      (s : Store) (token client : Key) (now now' : Time) {r r' : RefreshToken}
      → check hash_token token client now s ≡ (ok r, s)
      → check hash_token token client now' s ≡ (ok r', s)
      → (w : World) × Reach (idle s) w × (w.in_flight ≡ []) × (w.granted ≡ r ∷ r' ∷ []) × (r ≡ r')
  unfolding consume
  rotated_by_two s token client now now' {r} {r'} e e' = (
    record {
      store = (consume hash_token r now (consume hash_token r' now' s).1).1;
      in_flight = [];
      granted = r ∷ r' ∷ [];
    },
    next
        (next
          (next (next here (read_ok (idle s) token client now e))
            (read_ok (record (idle s) { in_flight = r ∷ [] }) token client now' e'))
          (writes (record (idle s) { in_flight = r' ∷ r ∷ [] }) r' now' [] (r ∷ []) refl))
        (writes
          (record {
            store = (consume hash_token r' now' s).1;
            in_flight = r ∷ [];
            granted = r' ∷ [];
          })
          r now [] [] refl),
    refl,
    refl,
    same_row s token client now now' e e',
  )
