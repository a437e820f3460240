-- ===== src/Signature/Completion.antt =====
-- Who may sign, and when a request is complete.
use ndy_hub.Common.{
  Key, Time, true, false, Option, none, some, List, [], ◌∷◌, ◌==◌, Bool-cases, Option-cases, ==_iff,
  ◌≡◌, refl, ap, ◌∙◌, ◌⊎◌, inl, inr, arith,
}
use ndy_hub.Common.Handler.{ok}
use ndy_hub.Common.Table.{find, update, every, insert}
use ndy_hub.Common.Table.Laws.{In, find_holds, find-update}
use mathlib.Core.Option
use ndy_hub.Signature.{
  RequestStatus, pending, signed, Request, Signer, SignatureRow, Store, Actor, is_request,
  is_signer, Jwt, all_signed, mark_signed, sign,
}
use ndy_hub.Signature.Outcomes.{Usable, MayAct, sign-cases}

-- Each slot of the request has its time of signing.
abbrev pub EverySigned : Key → List Signer → Type 0
EverySigned request_id signers =
    (r : Signer) → In r signers → r.request_id ≡ request_id → (t : Time) × (r.signed_at ≡ some t)

-- A slot of the request has none.
abbrev pub SomeUnsigned : Key → List Signer → Type 0
SomeUnsigned request_id signers =
    (r : Signer) × In r signers × (r.request_id ≡ request_id) × (r.signed_at ≡ none)

all_signed-EverySigned :
    (request_id : Key) (signers : List Signer)
    → all_signed request_id signers ≡ true
    → EverySigned request_id signers
unfolding every
all_signed-EverySigned k [] e r i of_request = absurd i
all_signed-EverySigned k (x ∷ rows) e r (inl here) of_request = elim (Option-cases r.signed_at) [
  | inr (t, done) ↦ (t, done)
  | inl waits ↦ absurd (ground (arith, e, here, of_request, waits, ==_iff r.request_id k))
]
all_signed-EverySigned k (x ∷ rows) e r (inr i) of_request =
    all_signed-EverySigned k rows (ground (arith, e)) r i of_request

all_signed-SomeUnsigned :
    (request_id : Key) (signers : List Signer)
    → all_signed request_id signers ≡ false
    → SomeUnsigned request_id signers
unfolding every
all_signed-SomeUnsigned k [] e = absurd (ground (arith, e))
all_signed-SomeUnsigned k (x ∷ rows) e = elim (Bool-cases (x.request_id == k)) [
  | inr other ↦
      let (r, i, of_request, waits) = all_signed-SomeUnsigned k rows (ground (arith, e, other)) in
      (r, inr i, of_request, waits)
  | inl same ↦ elim (Option-cases x.signed_at) [
    | inl waits ↦ (x, inl refl, (==_iff x.request_id k).0 same, waits)
    | inr (t, done) ↦
        let (r, i, of_request, waits) =
          all_signed-SomeUnsigned k rows (ground (arith, e, same, done)) in
        (r, inr i, of_request, waits)
  ]
]

module _ (hash_token : Key → Key) where
  -- A signature is recorded for a link that may be used still, by an actor who may act on its slot,
  -- and it says who signed what: the actor and the content of the request.
  pub sign-MayAct :
      (jwt : Jwt) (actor : Actor) (raw_token id : Key) (ip ua : Option Key) (now : Time) (s : Store)
      (signature : SignatureRow) (status : RequestStatus)
      → (sign hash_token jwt actor raw_token id ip ua now s).0 ≡ ok (signature, status)
      → (signer : Signer) × (request : Request) × Usable hash_token raw_token now s signer request
        × MayAct signer actor s
        × (signature.signer_user_id ≡ actor.sub)
        × (signature.content_hash ≡ request.content_hash)
        × ((sign hash_token jwt actor raw_token id ip ua now s).1.signatures
            ≡ insert signature s.signatures)
  sign-MayAct jwt actor raw_token id ip ua now s signature status e =
      elim (sign-cases hash_token jwt actor raw_token id ip ua now s) [
        | inl (x, bad, same, sigs) ↦ absurd (ground (arith, e, bad))
        | inr (signer, request, usable, may, eq) ↦ (
          signer,
          request,
          usable,
          may,
          ground (arith, eq, e),
          ground (arith, eq, e),
          ground (arith, eq, e),
        )
      ]

  -- A signature that is recorded answers with `signed` and leaves the request SIGNED where each
  -- slot of the request then has a time of signing, and answers with `pending` and leaves all
  -- requests as they are where a slot of it has none, declined or not.
  pub sign_complete :
      (jwt : Jwt) (actor : Actor) (raw_token id : Key) (ip ua : Option Key) (now : Time) (s : Store)
      (signature : SignatureRow) (status : RequestStatus)
      → (sign hash_token jwt actor raw_token id ip ua now s).0 ≡ ok (signature, status)
      → let t = (sign hash_token jwt actor raw_token id ip ua now s).1 in
        (EverySigned signature.request_id t.signers
          × (status ≡ signed)
          × (Option.map
                (λ (r : Request). r.status)
                (find (is_request signature.request_id) t.requests)
              ≡ some signed))
        ⊎ (SomeUnsigned signature.request_id t.signers
            × (status ≡ pending)
            × (t.requests ≡ s.requests))
  sign_complete jwt actor raw_token id ip ua now s signature status e =
      elim (sign-cases hash_token jwt actor raw_token id ip ua now s) [
        | inl (x, bad, same, sigs) ↦ absurd (ground (arith, e, bad))
        | inr (signer, request, usable, may, eq) ↦
            let t = (sign hash_token jwt actor raw_token id ip ua now s).1 in
            let here : request.id ≡ signer.request_id = ground (
              arith,
              find_holds (is_request signer.request_id) s.requests usable.of_request,
              ==_iff request.id signer.request_id,
            ) in
            let about : signature.request_id ≡ signer.request_id = ground (arith, eq, e, here) in
            let rows = update (is_signer signer.id) (mark_signed actor now) s.signers in
            let same_rows : t.signers ≡ rows = ground (arith, eq) in
            let slots : all_signed signature.request_id t.signers
                ≡ all_signed signer.request_id rows =
              ap (λ k. all_signed k t.signers) about
              ∙ ap (all_signed signer.request_id) same_rows in
            let kept =
              find-update (is_request signer.request_id) (is_request signer.request_id)
                (λ (r : Request). record r { status = signed }) s.requests (λ x. refl) in
            elim (Bool-cases (all_signed signer.request_id rows)) [
              | inl all ↦ inl (
                all_signed-EverySigned signature.request_id t.signers (slots ∙ all),
                ground (arith, eq, e, all),
                ap (λ k. Option.map (λ (r : Request). r.status) (find (is_request k) t.requests))
                      about
                    ∙ ground (
                      arith,
                      eq,
                      all,
                      kept,
                      usable.of_request,
                      here,
                      ==_iff request.id signer.request_id,
                    ),
              )
              | inr waiting ↦ inr (
                all_signed-SomeUnsigned signature.request_id t.signers (slots ∙ waiting),
                ground (arith, eq, e, waiting),
                ground (arith, eq, waiting),
              )
            ]
      ]
