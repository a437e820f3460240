-- ===== src/Signature/Outcomes.antt =====
-- The outcomes of a decision on a signing link.
use ndy_hub.Common.{
  Key, Time, true, false, Option, none, some, leb, ◌==◌, if◌then◌else◌, Bool-cases, Option-cases,
  ==_iff, ◌<◌, ◌≡◌, refl, ◌⊎◌, inl, inr, arith,
}
use ndy_hub.Common.Handler.{ok, err}
use ndy_hub.Common.Table.{find, update, insert}
use ndy_hub.Signature.{
  pending, signed, expired, User, Request, Signer, Store, Actor, Failure, invalid_link,
  already_signed, already_declined, link_expired, request_expired, other_account, no_such_user,
  other_email, no_such_request, is_request, is_signer, has_hash, is_past, set_status, Jwt, attest,
  closed, assert_signer_identity, all_signed, recompute_status, claims, new_signature, mark_signed,
  load_signer_for_signing, sign,
}

-- Who may act on a slot: the user that it names, else whoever has the email that it names.
pub data MayAct (signer : Signer) (actor : Actor) (s : Store) : Type 0 where
  named : signer.user_id ≡ some actor.sub → MayAct signer actor s
  invited :
      (email : Key) (user : User)
      → signer.user_id ≡ none
      → signer.invited_email ≡ some email
      → find (λ (u : User). u.id == actor.sub) s.users ≡ some user
      → user.email ≡ email
      → MayAct signer actor s
  anyone : signer.user_id ≡ none → signer.invited_email ≡ none → MayAct signer actor s

pub identity-cases :
    (signer : Signer) (actor : Actor) (s : Store)
    → ((e : Failure) × (assert_signer_identity signer actor s ≡ (err e, s)))
      ⊎ (MayAct signer actor s × (assert_signer_identity signer actor s ≡ (ok tt, s)))
unfolding assert_signer_identity
identity-cases signer actor s = elim (Option-cases signer.user_id) [
  | inr (u, e) ↦ elim (Bool-cases (u == actor.sub)) [
    | inl same ↦ inr (named (ground (arith, e, same, ==_iff u actor.sub)), ground (arith, e, same))
    | inr other ↦ inl (other_account, ground (arith, e, other))
  ]
  | inl e ↦ elim (Option-cases signer.invited_email) [
    | inl f ↦ inr (anyone e f, ground (arith, e, f))
    | inr (email, f) ↦ elim (Option-cases (find (λ (u : User). u.id == actor.sub) s.users)) [
      | inl missing ↦ inl (no_such_user, ground (arith, e, f, missing))
      | inr (user, g) ↦ elim (Bool-cases (user.email == email)) [
        | inl same ↦ inr (
          invited email user e f g (ground (arith, same, ==_iff user.email email)),
          ground (arith, e, f, g, same),
        )
        | inr other ↦ inl (other_email, ground (arith, e, f, g, other))
      ]
    ]
  ]
]

module _ (hash_token : Key → Key) where
  -- What a link that still may be used stands for.
  pub record Usable (raw_token : Key) (now : Time) (s : Store) (signer : Signer) (request : Request)
      : Type 0 where
    pub found : find (has_hash (hash_token raw_token)) s.signers ≡ some signer
    pub unsigned : signer.signed_at ≡ none
    pub undeclined : signer.declined_at ≡ none
    pub in_time : now < signer.expires_at
    pub of_request : find (is_request signer.request_id) s.requests ≡ some request
    pub unclosed : closed request.status ≡ none
    pub unexpired : is_past now request.expires_at ≡ false

  -- A slot in time whose request has expired.
  abbrev pub OutlivedBy : Key → Time → Store → Type 0
  OutlivedBy raw_token now s =
      (x : Signer) × (r : Request) × (find (has_hash (hash_token raw_token)) s.signers ≡ some x)
      × (leb x.expires_at now ≡ false)
      × (find (is_request x.request_id) s.requests ≡ some r)
      × (is_past now r.expires_at ≡ true)

  pub load-cases :
      (raw_token : Key) (now : Time) (s : Store)
      → ((e : Failure) × (t : Store) × (load_signer_for_signing hash_token raw_token now s
            ≡ (err e, t))
          × (t.signers ≡ s.signers)
          × (t.signatures ≡ s.signatures)
          × ((t ≡ s) ⊎ OutlivedBy raw_token now s))
        ⊎ ((signer : Signer) × (request : Request) × Usable raw_token now s signer request
            × (load_signer_for_signing hash_token raw_token now s ≡ (ok (signer, request), s)))
  unfolding load_signer_for_signing
  load-cases raw_token now s =
      elim (Option-cases (find (has_hash (hash_token raw_token)) s.signers)) [
        | inl missing ↦ inl (invalid_link, s, ground (arith, missing), refl, refl, inl refl)
        | inr (x, found) ↦ elim (Option-cases x.signed_at) [
          | inr (t, done) ↦
              inl (already_signed, s, ground (arith, found, done), refl, refl, inl refl)
          | inl unsigned ↦ elim (Option-cases x.declined_at) [
            | inr (t, done) ↦
                inl
                  (already_declined, s, ground (arith, found, unsigned, done), refl, refl, inl refl)
            | inl undeclined ↦ elim (Bool-cases (leb x.expires_at now)) [
              | inl late ↦ inl (
                link_expired,
                s,
                ground (arith, found, unsigned, undeclined, late),
                refl,
                refl,
                inl refl,
              )
              | inr early ↦ elim (Option-cases (find (is_request x.request_id) s.requests)) [
                | inl missing ↦ inl (
                  no_such_request,
                  s,
                  ground (arith, found, unsigned, undeclined, early, missing),
                  refl,
                  refl,
                  inl refl,
                )
                | inr (r, of_request) ↦ elim (Option-cases (closed r.status)) [
                  | inr (e, shut) ↦ inl (
                    e,
                    s,
                    ground (arith, found, unsigned, undeclined, early, of_request, shut),
                    refl,
                    refl,
                    inl refl,
                  )
                  | inl unclosed ↦ elim (Bool-cases (is_past now r.expires_at)) [
                    | inl past ↦ inl (
                      request_expired,
                      set_status r.id expired s,
                      ground
                          (arith, found, unsigned, undeclined, early, of_request, unclosed, past),
                      refl,
                      refl,
                      inr (x, r, found, early, of_request, past),
                    )
                    | inr unexpired ↦ inr (
                      x,
                      r,
                      record {
                        found = found;
                        unsigned = unsigned;
                        undeclined = undeclined;
                        in_time = ground (arith, early);
                        of_request = of_request;
                        unclosed = unclosed;
                        unexpired = unexpired;
                      },
                      ground (
                        arith, found, unsigned, undeclined, early, of_request, unclosed, unexpired,
                      ),
                    )
                  ]
                ]
              ]
            ]
          ]
        ]
      ]

  -- What a decision on a link has done: the slot is taken by the actor, who may act on it.
  pub sign-cases :
      (jwt : Jwt) (actor : Actor) (raw_token id : Key) (ip ua : Option Key) (now : Time) (s : Store)
      → ((e : Failure) × ((sign hash_token jwt actor raw_token id ip ua now s).0 ≡ err e)
          × ((sign hash_token jwt actor raw_token id ip ua now s).1.signers ≡ s.signers)
          × ((sign hash_token jwt actor raw_token id ip ua now s).1.signatures ≡ s.signatures))
        ⊎ ((signer : Signer) × (request : Request) × Usable raw_token now s signer request
            × MayAct signer actor s
            × (sign hash_token jwt actor raw_token id ip ua now s ≡ (
                let signature =
                  new_signature id actor request ip ua
                    (attest jwt (claims id actor request now))
                    now in
                let t = record s {
                  signatures = insert signature s.signatures;
                  signers = update (is_signer signer.id) (mark_signed actor now) s.signers;
                } in
                let all = all_signed signer.request_id t.signers in
                (
                  ok (signature, if all then signed else pending),
                  if all then set_status signer.request_id signed t else t,
                ))))
  unfolding sign recompute_status
  sign-cases jwt actor raw_token id ip ua now s = elim (load-cases raw_token now s) [
    | inl (e, t, eq, same, sigs, why) ↦
        inl (e, ground (arith, eq), ground (arith, eq, same), ground (arith, eq, sigs))
    | inr (signer, request, usable, eq) ↦ elim (identity-cases signer actor s) [
      | inl (e, bad) ↦
          inl (e, ground (arith, eq, bad), ground (arith, eq, bad), ground (arith, eq, bad))
      | inr (may, good) ↦ inr (signer, request, usable, may, ground (arith, eq, good))
    ]
  ]
