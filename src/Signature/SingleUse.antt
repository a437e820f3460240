-- ===== src/Signature/SingleUse.antt =====
-- A signing link is used once.
use ndy_hub.Common.{Key, Time, true, Option, some, is_some, ==_iff, ◌≡◌, refl, inl, inr, arith}
use ndy_hub.Common.Handler.{ok, err}
use ndy_hub.Common.Table.{find}
use ndy_hub.Common.Table.Laws.{find-update}
use ndy_hub.Signature.{
  RequestStatus, Signer, SignatureRow, Store, Actor, already_signed, is_signer, has_hash, Jwt,
  mark_signed, load_signer_for_signing, sign, decline,
}
use ndy_hub.Signature.Outcomes.{sign-cases}

module _ (hash_token : Key → Key) where
  -- A link whose slot is signed.
  abbrev pub IsSigned : Key → Store → Type 0
  IsSigned raw_token s =
      (signer : Signer) × (find (has_hash (hash_token raw_token)) s.signers ≡ some signer)
      × (is_some signer.signed_at ≡ true)

  load_signed :
      (raw_token : Key) (now : Time) (s : Store)
      → IsSigned raw_token s
      → load_signer_for_signing hash_token raw_token now s ≡ (err already_signed, s)
  unfolding load_signer_for_signing
  load_signed raw_token now s (signer, found, done) = ground (arith, found, done)

  sign_signed :
      (jwt : Jwt) (actor : Actor) (raw_token id : Key) (ip ua : Option Key) (now : Time) (s : Store)
      → IsSigned raw_token s
      → sign hash_token jwt actor raw_token id ip ua now s ≡ (err already_signed, s)
  unfolding sign
  sign_signed jwt actor raw_token id ip ua now s h = ground (arith, load_signed raw_token now s h)

  decline_signed :
      (actor : Actor) (raw_token : Key) (now : Time) (s : Store)
      → IsSigned raw_token s
      → decline hash_token actor raw_token now s ≡ (err already_signed, s)
  unfolding decline
  decline_signed actor raw_token now s h = ground (arith, load_signed raw_token now s h)

  sign-IsSigned :
      (jwt : Jwt) (actor : Actor) (raw_token id : Key) (ip ua : Option Key) (now : Time) (s : Store)
      (result : SignatureRow × RequestStatus)
      → (sign hash_token jwt actor raw_token id ip ua now s).0 ≡ ok result
      → IsSigned raw_token (sign hash_token jwt actor raw_token id ip ua now s).1
  sign-IsSigned jwt actor raw_token id ip ua now s result e =
      elim (sign-cases hash_token jwt actor raw_token id ip ua now s) [
        | inl (x, bad, same, sigs) ↦ absurd (ground (arith, e, bad))
        | inr (signer, request, usable, may, eq) ↦ (
          mark_signed actor now signer,
          ground (
            arith,
            eq,
            usable.found,
            ==_iff signer.id signer.id,
            find-update (has_hash (hash_token raw_token)) (is_signer signer.id)
                (mark_signed actor now) s.signers (λ x. refl),
          ),
          refl,
        )
      ]

  -- Once a link has been signed, signing or declining by it again, by anyone and at any time, fails
  -- and changes nothing.
  pub sign_twice :
      (jwt : Jwt) (actor : Actor) (raw_token id : Key) (ip ua : Option Key) (now : Time) (s : Store)
      (result : SignatureRow × RequestStatus)
      → (jwt' : Jwt) (actor' : Actor) (id' : Key) (ip' ua' : Option Key) (later : Time)
      → (sign hash_token jwt actor raw_token id ip ua now s).0 ≡ ok result
      → let t = (sign hash_token jwt actor raw_token id ip ua now s).1 in
        (sign hash_token jwt' actor' raw_token id' ip' ua' later t ≡ (err already_signed, t))
        × (decline hash_token actor' raw_token later t ≡ (err already_signed, t))
  sign_twice jwt actor raw_token id ip ua now s result jwt' actor' id' ip' ua' later e =
      let h = sign-IsSigned jwt actor raw_token id ip ua now s result e in
      let t = (sign hash_token jwt actor raw_token id ip ua now s).1 in
      (
        sign_signed jwt' actor' raw_token id' ip' ua' later t h,
        decline_signed actor' raw_token later t h,
      )
