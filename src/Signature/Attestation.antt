-- ===== src/Signature/Attestation.antt =====
-- What counts as verified has been checked.
use ndy_hub.Common.{
  Key, Time, true, false, Option, none, some, Bool-cases, Option-cases, ==_iff, ◌+◌, ◌≡◌, refl, sym,
  ◌≢◌, inl, inr, arith,
}
use ndy_hub.Common.Handler.{Result, Result-cases, ok}
use ndy_hub.Common.Table.{find, update, insert}
use ndy_hub.Common.Table.Laws.{All, find-update, All-find, All-insert, All-update}
use mathlib.Core.Path.{subst}
use ndy_hub.Signature.{
  AttestationStatus, attestation_pending, verified, failed, SignatureRow, Store, Actor, Failure,
  is_signature, Claims, Jwt, attest, is_verified, claims, new_signature, AttestationView, claims_of,
  reattested, reattest, PublicView, verify, sign,
}
use ndy_hub.Signature.Outcomes.{sign-cases}

-- The proof of a signature that counts as verified passes the check.
abbrev pub IsProven : Jwt → SignatureRow → Type 0
IsProven jwt r =
    r.attestation_status ≡ verified
    → (jws : Key) × (r.attestation ≡ some jws) × (jwt.jwt_verify jws ≡ ok tt)

is_verified-inv : (k : AttestationStatus) → is_verified k ≡ true → k ≡ verified
is_verified-inv verified e = refl
is_verified-inv attestation_pending e = cc
is_verified-inv failed e = cc

attest-IsProven :
    (jwt : Jwt) (c : Claims)
    → (attest jwt c).status ≡ verified
    → (jws : Key) × ((attest jwt c).jws ≡ some jws) × (jwt.jwt_verify jws ≡ ok tt)
unfolding attest
attest-IsProven jwt c e = elim (Result-cases (jwt.sign_jwt c)) [
  | inr (x, bad) ↦ absurd (ground (arith, bad, e))
  | inl (jws, good) ↦ elim (Result-cases (jwt.jwt_verify jws)) [
    | inr (x, bad) ↦ absurd (ground (arith, good, bad, e))
    | inl (u, fine) ↦ (jws, ground (arith, good, fine), fine)
  ]
]

-- A retry keeps every signature that counts as verified proven.
pub reattest-IsProven :
    (jwt : Jwt) (id : Key) (now : Time) (s : Store)
    → All (IsProven jwt) s.signatures
    → All (IsProven jwt) (reattest jwt id now s).1.signatures
unfolding reattest
reattest-IsProven jwt id now s h = elim (Option-cases (find (is_signature id) s.signatures)) [
  | inl missing ↦ rw missing h
  | inr (r, found) ↦ elim (Bool-cases (is_verified r.attestation_status)) [
    | inl done ↦ rw (found, done) h
    | inr open' ↦
        rw (found, open')
          (All-update (IsProven jwt) (is_signature r.id)
            (reattested r (attest jwt (claims_of r)) now) s.signatures
            (λ x p k. attest-IsProven jwt (claims_of r)) h)
  ]
]

-- What a third party is handed out as the proof of a signature passes the check under the
-- server's key, where the stored signatures that count as verified are proven.
pub verify-proof :
    (jwt : Jwt) (id : Key) (s : Store) (view : PublicView) (jws : Key)
    → All (IsProven jwt) s.signatures
    → (verify id s).0 ≡ ok view
    → view.attestation ≡ some jws
    → (view.attestation_status ≡ verified) × (jwt.jwt_verify jws ≡ ok tt)
unfolding verify
verify-proof jwt id s view jws h e p = elim (Option-cases (find (is_signature id) s.signatures)) [
  | inl missing ↦ absurd (ground (arith, missing, e))
  | inr (r, found) ↦ elim (Bool-cases (is_verified r.attestation_status)) [
    | inr unproven ↦ absurd (ground (arith, found, unproven, e, p))
    | inl proven ↦
        let k = All-find (IsProven jwt) (is_signature id) s.signatures h found in
        let v = is_verified-inv r.attestation_status proven in
        let (j, q, fine) = k v in
        (ground (arith, found, e, v), ground (arith, found, proven, e, p, q, fine))
  ]
]

reattest_new :
    (jwt : Jwt) (id : Key) (now : Time) (s : Store) (r : SignatureRow)
    → find (is_signature id) s.signatures ≡ some r
    → is_verified r.attestation_status ≡ false
    → reattest jwt id now s ≡ (
        let a = attest jwt (claims_of r) in
        (
          ok (record { status = a.status; attempts = r.attestation_attempts + 1 }),
          record s { signatures = update (is_signature r.id) (reattested r a now) s.signatures },
        ))
unfolding reattest
reattest_new jwt id now s r found unproven = ground (arith, found, unproven)

reattest_done :
    (jwt : Jwt) (id : Key) (now : Time) (s : Store) (r : SignatureRow)
    → find (is_signature id) s.signatures ≡ some r
    → is_verified r.attestation_status ≡ true
    → reattest jwt id now s
      ≡ (ok (record { status = r.attestation_status; attempts = r.attestation_attempts }), s)
unfolding reattest
reattest_done jwt id now s r found done = ground (arith, found, done)

reattest_missing :
    (jwt : Jwt) (id : Key) (now : Time) (s : Store) (view : AttestationView)
    → find (is_signature id) s.signatures ≡ none
    → (reattest jwt id now s).0 ≢ ok view
unfolding reattest
reattest_missing jwt id now s view missing e = ground (arith, missing, e)

-- Once a retry has answered with `verified`, any further retry answers the same and changes nothing.
pub reattest_twice :
    (jwt jwt' : Jwt) (id : Key) (now later : Time) (s : Store) (view : AttestationView)
    → (reattest jwt id now s).0 ≡ ok view
    → view.status ≡ verified
    → let t = (reattest jwt id now s).1 in reattest jwt' id later t ≡ (ok view, t)
reattest_twice jwt jwt' id now later s view e v =
    elim (Option-cases (find (is_signature id) s.signatures)) [
      | inl missing ↦ absurd (reattest_missing jwt id now s view missing e)
      | inr (r, found) ↦ elim (Bool-cases (is_verified r.attestation_status)) [
        | inl done ↦
            let eq = reattest_done jwt id now s r found done in
            subst
              (λ (x : Result Failure AttestationView × Store).
                reattest jwt' id later x.1 ≡ (ok view, x.1))
              (sym eq) (ground (arith, reattest_done jwt' id later s r found done, eq, e))
        | inr unproven ↦
            let eq = reattest_new jwt id now s r found unproven in
            let a = attest jwt (claims_of r) in
            let t = record s {
              signatures = update (is_signature r.id) (reattested r a now) s.signatures;
            } in
            let found' : find (is_signature id) t.signatures ≡ some (reattested r a now r) =
              ground (
                arith,
                found,
                ==_iff r.id r.id,
                find-update (is_signature id) (is_signature r.id) (reattested r a now) s.signatures
                    (λ x. refl),
              ) in
            let proven : is_verified a.status ≡ true = ground (arith, eq, e, v) in
            subst
              (λ (x : Result Failure AttestationView × Store).
                reattest jwt' id later x.1 ≡ (ok view, x.1))
              (sym eq)
              (ground
                (arith, reattest_done jwt' id later t (reattested r a now r) found' proven, eq, e))
      ]
    ]

module _ (hash_token : Key → Key) where
  -- Where every stored signature that counts as verified has a proof that passes the check under
  -- the server's key, this holds after any signing too, whatever its outcome.
  pub sign-IsProven :
      (jwt : Jwt) (actor : Actor) (raw_token id : Key) (ip ua : Option Key) (now : Time) (s : Store)
      → All (IsProven jwt) s.signatures
      → All (IsProven jwt) (sign hash_token jwt actor raw_token id ip ua now s).1.signatures
  sign-IsProven jwt actor raw_token id ip ua now s h =
      elim (sign-cases hash_token jwt actor raw_token id ip ua now s) [
        | inl (x, bad, same, sigs) ↦ rw sigs h
        | inr (signer, request, usable, may, eq) ↦
            let a = attest jwt (claims id actor request now) in
            let same : (sign hash_token jwt actor raw_token id ip ua now s).1.signatures
                ≡ insert (new_signature id actor request ip ua a now) s.signatures =
              ground (arith, eq) in
            rw same (
              All-insert (IsProven jwt) (new_signature id actor request ip ua a now) s.signatures h
                (attest-IsProven jwt (claims id actor request now)))
      ]
