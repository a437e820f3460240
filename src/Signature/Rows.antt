-- ===== src/Signature/Rows.antt =====
-- The tables of signature requests (apps/api/prisma/schema.prisma) and the exceptions of
-- apps/api/src/signature/signature.service.ts.
use ndy_hub.Common.{ℕ, Key, Time, Option, List}

pub data RequestStatus : Type 0 where
  pending signed declined revoked expired : RequestStatus

pub data AttestationStatus : Type 0 where
  attestation_pending verified failed : AttestationStatus

pub record User : Type 0 where
  pub id : Key
  pub email : Key

pub record Request : Type 0 where
  pub id : Key
  pub title : Key
  pub content_hash : Key
  pub content_ref : Option Key
  pub created_by_user_id : Key
  pub created_by_ndy_id : Key
  pub status : RequestStatus
  pub expires_at : Option Time

pub record Signer : Type 0 where
  pub id : Key
  pub request_id : Key
  pub user_id : Option Key
  pub invited_email : Option Key
  pub token_hash : Key
  pub signed_at : Option Time
  pub declined_at : Option Time
  pub expires_at : Time

-- `consent_text` is the same constant in every row and is left out.
pub record SignatureRow : Type 0 where
  pub id : Key
  pub request_id : Key
  pub signer_user_id : Key
  pub signer_ndy_id : Key
  pub content_hash : Key
  pub ip : Option Key
  pub user_agent : Option Key
  pub attestation : Option Key
  pub attestation_key_id : Option Key
  pub attestation_status : AttestationStatus
  pub attestation_attempts : ℕ
  pub attestation_last_error : Option Key
  pub attested_at : Option Time
  pub signed_at : Time

pub record Store : Type 0 where
  pub users : List User
  pub requests : List Request
  pub signers : List Signer
  pub signatures : List SignatureRow

-- The authenticated user.
pub record Actor : Type 0 where
  pub sub : Key
  pub ndy_id : Key

pub data Failure : Type 0 where
  neither_user_nor_email both_user_and_email expiry_not_in_future : Failure
  invalid_link already_signed already_declined link_expired : Failure
  request_revoked request_signed request_declined request_expired : Failure
  other_account no_such_user other_email : Failure
  no_such_request not_the_creator not_pending no_such_signature : Failure
