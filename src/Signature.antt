-- ===== src/Signature.antt =====
-- SignatureService (apps/api/src/signature/signature.service.ts): requests for signatures, the
-- slots of their signers, and the signatures with their attestations. Token hashing and the JWT
-- library are parameters. Ids and tokens that are drawn, and the time, are arguments. Mails and
-- notifications, whose failures the service only logs, are left out. A request handler is one
-- run with no other request in between.
pub mod Rows
pub mod Outcomes
pub mod SingleUse
pub mod Completion
pub mod Attestation
pub mod Expiry
mod Tests
pub use ndy_hub.Signature.Rows.{
  RequestStatus, AttestationStatus, User, Request, Signer, SignatureRow, Store, Actor, Failure,
  pending, signed, declined, revoked, expired, attestation_pending, verified, failed,
  neither_user_nor_email, both_user_and_email, expiry_not_in_future, invalid_link, already_signed,
  already_declined, link_expired, request_revoked, request_signed, request_declined,
  request_expired, other_account, no_such_user, other_email, no_such_request, not_the_creator,
  not_pending, no_such_signature,
}
use ndy_hub.Common.{
  ℕ, Key, Time, Bool, true, false, not, ◌&&◌, ◌||◌, Option, none, some, List, [], ◌∷◌, ◌++◌, map,
  leb, ◌==◌, ◌!=◌, if◌then◌else◌, is_some, is_none, ◌+◌, ◌*◌,
}
use ndy_hub.Common.Handler.{
  Result, ok, err, Handler, pure, throw, throw_if, or_throw, query, write, ◌>>=◌, ◌>>◌,
}
use ndy_hub.Common.Table.{find, update, every, insert}
use mathlib.Core.Option

abbrev pub is_request : Key → Request → Bool
is_request id r = r.id == id

abbrev pub is_signer : Key → Signer → Bool
is_signer id r = r.id == id

abbrev pub is_signature : Key → SignatureRow → Bool
is_signature id r = r.id == id

abbrev pub has_hash : Key → Signer → Bool
has_hash h r = r.token_hash == h

abbrev pub signer_token_ttl_ms : ℕ
signer_token_ttl_ms = 14 * 24 * 60 * 60 * 1000

-- A signer that the creator names, with the id and the token that are drawn for the slot.
pub record SignerDto : Type 0 where
  pub user_id : Option Key
  pub email : Option Key
  pub drawn_id : Key
  pub drawn_token : Key

pub record CreateDto : Type 0 where
  pub title : Key
  pub content_hash : Key
  pub content_ref : Option Key
  pub expires_at : Option Time
  pub signers : List SignerDto

-- The first signer that has neither a user nor an email, or both.
unfoldable pub invalid_signer : List SignerDto → Option Failure
invalid_signer [] = none
invalid_signer (d ∷ rest) =
    if is_none d.user_id && is_none d.email
    then some neither_user_nor_email
    else if is_some d.user_id && is_some d.email
    then some both_user_and_email
    else invalid_signer rest

-- The expiry that the creator asks for, where it does not lie in the future.
abbrev pub is_past : Time → Option Time → Bool
is_past now none = false
is_past now (some t) = leb t now

abbrev pub signer_expiry : Time → Option Time → Time
signer_expiry now none = now + signer_token_ttl_ms
signer_expiry now (some t) = t

abbrev pub set_status : Key → RequestStatus → Store → Store
set_status id status s = record s {
  requests = update (is_request id) (λ r. record r { status = status }) s.requests;
}

-- What a signature's proof is made over.
pub record Claims : Type 0 where
  pub signature_id : Key
  pub signer_ndy_id : Key
  pub content_hash : Key
  pub request_id : Key
  pub issued_at : Time

pub record Attested : Type 0 where
  pub jws : Option Key
  pub key_id : Option Key
  pub status : AttestationStatus
  pub error : Option Key

-- The JWT library under the server's key: what signing makes of the claims, and what checking
-- makes of a token under the published key, the issuer and the audience. Both may throw.
pub record Jwt : Type 0 where
  pub sign_jwt : Claims → Result Key Key
  pub jwt_verify : Key → Result Key (Unit {0})
  pub key_id : Key

abbrev pub attest_failed : Key → Attested
attest_failed error = record { jws = none; key_id = none; status = failed; error = some error }

pub attest : Jwt → Claims → Attested
attest jwt claims = elim (jwt.sign_jwt claims) [
  | err e ↦ attest_failed e
  | ok jws ↦ elim (jwt.jwt_verify jws) [
    | err e ↦ attest_failed e
    | ok _ ↦ record { jws = some jws; key_id = some jwt.key_id; status = verified; error = none }
  ]
]

abbrev pub is_verified : AttestationStatus → Bool
is_verified verified = true
is_verified _ = false

abbrev pub new_request : Key → Actor → CreateDto → Request
new_request id actor dto = record {
  id = id;
  title = dto.title;
  content_hash = dto.content_hash;
  content_ref = dto.content_ref;
  created_by_user_id = actor.sub;
  created_by_ndy_id = actor.ndy_id;
  status = pending;
  expires_at = dto.expires_at;
}

-- The three states in which a request takes no more decisions.
abbrev pub closed : RequestStatus → Option Failure
closed revoked = some request_revoked
closed signed = some request_signed
closed declined = some request_declined
closed _ = none

abbrev pub throw_closed : RequestStatus → Handler Store Failure (Unit {0})
throw_closed status = elim (closed status) [ none ↦ pure tt | some e ↦ throw e ]

-- A request past its expiry is marked before the exception is thrown.
abbrev pub throw_expired : Request → Time → Handler Store Failure (Unit {0})
throw_expired r now =
    if is_past now r.expires_at
    then (write (set_status r.id expired) >> throw request_expired)
    else pure tt

abbrev pub assert_signer_email : Key → Actor → Handler Store Failure (Unit {0})
assert_signer_email email actor = do
  user ← or_throw (← query (λ s. find (λ (u : User). u.id == actor.sub) s.users)) no_such_user
  throw_if (user.email != email) other_email

pub assert_signer_identity : Signer → Actor → Handler Store Failure (Unit {0})
assert_signer_identity signer actor = elim signer.user_id [
  | some user_id ↦ throw_if (user_id != actor.sub) other_account
  | none ↦ elim signer.invited_email [
    | none ↦ pure tt
    | some email ↦ assert_signer_email email actor
  ]
]

abbrev pub is_pending : RequestStatus → Bool
is_pending pending = true
is_pending _ = false

abbrev pub all_signed : Key → List Signer → Bool
all_signed request_id signers =
    every (λ (r : Signer). not (r.request_id == request_id) || is_some r.signed_at) signers

-- `recomputeStatus`: signed once every slot of the request is. The loop over the slots of the
-- request is a loop over all slots that passes over the others.
pub recompute_status : Key → Handler Store Failure RequestStatus
recompute_status request_id = do
  all ← query (λ s. all_signed request_id s.signers)
  write (λ s. if all then set_status request_id signed s else s)
  pure (if all then signed else pending)

abbrev pub attested_at : AttestationStatus → Time → Option Time → Option Time
attested_at status now before = if is_verified status then some now else before

abbrev pub claims : Key → Actor → Request → Time → Claims
claims signature_id actor request now = record {
  signature_id = signature_id;
  signer_ndy_id = actor.ndy_id;
  content_hash = request.content_hash;
  request_id = request.id;
  issued_at = now;
}

abbrev pub new_signature :
    Key → Actor → Request → Option Key → Option Key → Attested → Time → SignatureRow
new_signature id actor request ip user_agent a now = record {
  id = id;
  request_id = request.id;
  signer_user_id = actor.sub;
  signer_ndy_id = actor.ndy_id;
  content_hash = request.content_hash;
  ip = ip;
  user_agent = user_agent;
  attestation = a.jws;
  attestation_key_id = a.key_id;
  attestation_status = a.status;
  attestation_attempts = 1;
  attestation_last_error = a.error;
  attested_at = attested_at a.status now none;
  signed_at = now;
}

abbrev pub mark_signed : Actor → Time → Signer → Signer
mark_signed actor now r = record r { signed_at = some now; user_id = some actor.sub }

abbrev pub mark_declined : Actor → Time → Signer → Signer
mark_declined actor now r = record r { declined_at = some now; user_id = some actor.sub }

-- What the creator of a request alone may do, while it is pending.
pub revoke : Actor → Key → Handler Store Failure Request
revoke actor id = do
  request ← or_throw (← query (λ s. find (is_request id) s.requests)) no_such_request
  throw_if (request.created_by_user_id != actor.sub) not_the_creator
  throw_if (not (is_pending request.status)) not_pending
  write (set_status id revoked)
  pure (record request { status = revoked })

pub record AttestationView : Type 0 where
  pub status : AttestationStatus
  pub attempts : ℕ

abbrev pub claims_of : SignatureRow → Claims
claims_of r = record {
  signature_id = r.id;
  signer_ndy_id = r.signer_ndy_id;
  content_hash = r.content_hash;
  request_id = r.request_id;
  issued_at = r.signed_at;
}

abbrev pub reattested : SignatureRow → Attested → Time → SignatureRow → SignatureRow
reattested signature a now r = record r {
  attestation = a.jws;
  attestation_key_id = a.key_id;
  attestation_status = a.status;
  attestation_attempts = signature.attestation_attempts + 1;
  attestation_last_error = a.error;
  attested_at = attested_at a.status now signature.attested_at;
}

-- An attempt at an attestation, recorded with its outcome.
abbrev pub attempt : Jwt → SignatureRow → Time → Handler Store Failure AttestationView
attempt jwt signature now = do
  let a = attest jwt (claims_of signature)
  write (λ s. record s {
    signatures = update (is_signature signature.id) (reattested signature a now) s.signatures;
  })
  pure (record { status = a.status; attempts = signature.attestation_attempts + 1 })

pub reattest : Jwt → Key → Time → Handler Store Failure AttestationView
unfolding attest
reattest jwt id now = do
  signature ← or_throw (← query (λ s. find (is_signature id) s.signatures)) no_such_signature
  if is_verified signature.attestation_status
      then pure (record {
        status = signature.attestation_status;
        attempts = signature.attestation_attempts;
      })
      else attempt jwt signature now

-- What a third party is shown of a signature; the URL of the key set is left out.
pub record PublicView : Type 0 where
  pub signature_id : Key
  pub request_id : Key
  pub content_hash : Key
  pub signer_ndy_id : Key
  pub signed_at : Time
  pub attestation_status : AttestationStatus
  pub attestation : Option Key
  pub attestation_key_id : Option Key

pub verify : Key → Handler Store Failure PublicView
verify id = do
  r ← or_throw (← query (λ s. find (is_signature id) s.signatures)) no_such_signature
  pure (record {
    signature_id = r.id;
    request_id = r.request_id;
    content_hash = r.content_hash;
    signer_ndy_id = r.signer_ndy_id;
    signed_at = r.signed_at;
    attestation_status = r.attestation_status;
    attestation = if is_verified r.attestation_status then r.attestation else none;
    attestation_key_id = if is_verified r.attestation_status then r.attestation_key_id else none;
  })

module _ (hash_token : Key → Key) where
  abbrev pub new_signer : Key → Time → SignerDto → Signer
  new_signer request_id expiry d = record {
    id = d.drawn_id;
    request_id = request_id;
    user_id = d.user_id;
    invited_email = d.email;
    token_hash = hash_token d.drawn_token;
    signed_at = none;
    declined_at = none;
    expires_at = expiry;
  }

  pub create : Key → Actor → CreateDto → Time → Handler Store Failure Request
  create id actor dto now = elim (invalid_signer dto.signers) [
    | some e ↦ throw e
    | none ↦ do
      throw_if (is_past now dto.expires_at) expiry_not_in_future
      write (λ s. record s {
        requests = insert (new_request id actor dto) s.requests;
        signers = s.signers ++ map (new_signer id (signer_expiry now dto.expires_at)) dto.signers;
      })
      pure (new_request id actor dto)
  ]

  -- That a slot's request exists is the table's foreign key.
  pub load_signer_for_signing : Key → Time → Handler Store Failure (Signer × Request)
  load_signer_for_signing raw_token now = do
    signer ← or_throw (← query (λ s. find (has_hash (hash_token raw_token)) s.signers)) invalid_link
    throw_if (is_some signer.signed_at) already_signed
    throw_if (is_some signer.declined_at) already_declined
    throw_if (leb signer.expires_at now) link_expired
    request ←
        or_throw (← query (λ s. find (is_request signer.request_id) s.requests)) no_such_request
    throw_closed request.status
    throw_expired request now
    pure (signer, request)

  pub sign :
      Jwt
      → Actor
      → Key
      → Key
      → Option Key
      → Option Key
      → Time
      → Handler Store Failure (SignatureRow × RequestStatus)
  unfolding load_signer_for_signing assert_signer_identity attest recompute_status
  sign jwt actor raw_token signature_id ip user_agent now = do
    (signer, request) ← load_signer_for_signing raw_token now
    assert_signer_identity signer actor
    let signature =
        new_signature signature_id actor request ip user_agent
          (attest jwt (claims signature_id actor request now)) now
    write (λ s. record s { signatures = insert signature s.signatures })
    write
        (λ s. record s { signers = update (is_signer signer.id) (mark_signed actor now) s.signers })
    status ← recompute_status signer.request_id
    pure (signature, status)

  pub decline : Actor → Key → Time → Handler Store Failure (Unit {0})
  unfolding load_signer_for_signing assert_signer_identity
  decline actor raw_token now = do
    (signer, request) ← load_signer_for_signing raw_token now
    assert_signer_identity signer actor
    write (λ s. record s {
      signers = update (is_signer signer.id) (mark_declined actor now) s.signers;
    })
    write (set_status signer.request_id declined)
