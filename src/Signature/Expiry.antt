-- ===== src/Signature/Expiry.antt =====
-- A signing link expires before its request does.
use ndy_hub.Common.{
  Key, Time, true, Option, some, leb, Option-cases, ◌≤◌, ◌≡◌, ap, ◌∙◌, inl, inr, arith,
}
use ndy_hub.Common.Handler.{Result, err}
use ndy_hub.Common.Table.{find}
use ndy_hub.Signature.{
  Request, Signer, Store, Actor, Failure, is_request, has_hash, is_past, Jwt, recompute_status,
  load_signer_for_signing, sign, decline,
}
use ndy_hub.Signature.Outcomes.{load-cases, identity-cases}

-- No slot outlives its request.
abbrev pub IsBounded : Store → Type 0
IsBounded s =
    (h : Key) (signer : Signer) (request : Request) (t : Time)
    → find (has_hash h) s.signers ≡ some signer
    → find (is_request signer.request_id) s.requests ≡ some request
    → request.expires_at ≡ some t
    → signer.expires_at ≤ t

module _ (hash_token : Key → Key) where
  past_request :
      (raw_token : Key) (now : Time) (s : Store) (x : Signer) (r : Request)
      → IsBounded s
      → find (has_hash (hash_token raw_token)) s.signers ≡ some x
      → find (is_request x.request_id) s.requests ≡ some r
      → is_past now r.expires_at ≡ true
      → leb x.expires_at now ≡ true
  past_request raw_token now s x r h found of_request past = elim (Option-cases r.expires_at) [
    | inl forever ↦ absurd (ground (arith, forever, past))
    | inr (t, ends) ↦
        ground (arith, h (hash_token raw_token) x r t found of_request ends, ends, past)
  ]

  load-unchanged :
      (raw_token : Key) (now : Time) (s : Store)
      → IsBounded s
      → (load_signer_for_signing hash_token raw_token now s).1 ≡ s
  load-unchanged raw_token now s h = elim (load-cases hash_token raw_token now s) [
    | inr (signer, request, usable, eq) ↦
        ap (λ (x : Result Failure (Signer × Request) × Store). x.1) eq
    | inl (e, t, eq, same, sigs, inl nothing) ↦
        ap (λ (x : Result Failure (Signer × Request) × Store). x.1) eq ∙ nothing
    | inl (e, t, eq, same, sigs, inr (x, r, found, early, of_request, past)) ↦
        absurd (ground (arith, past_request raw_token now s x r h found of_request past, early))
  ]

  -- Where no slot outlives its request, a signing that fails changes nothing, so that it does not
  -- write the status EXPIRED either.
  pub sign-unchanged :
      (jwt : Jwt) (actor : Actor) (raw_token id : Key) (ip ua : Option Key) (now : Time) (s : Store)
      (e : Failure)
      → IsBounded s
      → (sign hash_token jwt actor raw_token id ip ua now s).0 ≡ err e
      → (sign hash_token jwt actor raw_token id ip ua now s).1 ≡ s
  unfolding sign recompute_status
  sign-unchanged jwt actor raw_token id ip ua now s e h bad =
      elim (load-cases hash_token raw_token now s) [
        | inl (x, t, eq, same, sigs, why) ↦ ground (arith, eq, load-unchanged raw_token now s h)
        | inr (signer, request, usable, eq) ↦ elim (identity-cases signer actor s) [
          | inl (x, refused) ↦ ground (arith, eq, refused)
          | inr (may, good) ↦ absurd (ground (arith, eq, good, bad))
        ]
      ]

  pub decline-unchanged :
      (actor : Actor) (raw_token : Key) (now : Time) (s : Store) (e : Failure)
      → IsBounded s
      → (decline hash_token actor raw_token now s).0 ≡ err e
      → (decline hash_token actor raw_token now s).1 ≡ s
  unfolding decline
  decline-unchanged actor raw_token now s e h bad = elim (load-cases hash_token raw_token now s) [
    | inl (x, t, eq, same, sigs, why) ↦ ground (arith, eq, load-unchanged raw_token now s h)
    | inr (signer, request, usable, eq) ↦ elim (identity-cases signer actor s) [
      | inl (x, refused) ↦ ground (arith, eq, refused)
      | inr (may, good) ↦ absurd (ground (arith, eq, good, bad))
    ]
  ]
