-- ===== src/Signature/Tests.antt =====
-- The theorems on signatures at concrete inputs.
use ndy_hub.Common.{Key, none, some, [], ◌∷◌, leb, if◌then◌else◌, ◌+◌, ◌≡◌, refl, ◌⊎◌, arith}
use ndy_hub.Common.Handler.{ok, err}
use ndy_hub.Common.Table.{find, update, every, insert}
use ndy_hub.Common.Table.Laws.{All-find}
use mathlib.Core.Option
use ndy_hub.Signature.{
  Request, has_hash, pending, signed, verified, failed, Signer, SignatureRow, Store, Actor,
  already_signed, other_account, Attested, Jwt, attest, new_signature, is_request,
  load_signer_for_signing, assert_signer_identity, recompute_status, sign, decline,
}
use ndy_hub.Signature.Outcomes.{Usable, MayAct}
use ndy_hub.Signature.SingleUse.{sign_twice}
use ndy_hub.Signature.Completion.{EverySigned, SomeUnsigned, sign-MayAct, sign_complete}
use ndy_hub.Signature.Expiry.{IsBounded, sign-unchanged}

abbrev hash : Key → Key
hash token = token + 100

-- A library that signs everything and accepts what it signed.
abbrev jwt : Jwt
jwt = record {
  sign_jwt = λ c. ok (c.signature_id + 1000);
  jwt_verify = λ token. if leb 1000 token then ok tt else err 1;
  key_id = 77;
}

abbrev alice : Actor
alice = record { sub = 1; ndy_id = 11 }

abbrev bob : Actor
bob = record { sub = 2; ndy_id = 12 }

abbrev request : Request
request = record {
  id = 30;
  title = 31;
  content_hash = 32;
  content_ref = none;
  created_by_user_id = 9;
  created_by_ndy_id = 19;
  status = pending;
  expires_at = some 500;
}

abbrev slot : Signer
slot = record {
  id = 40;
  request_id = 30;
  user_id = some 1;
  invited_email = none;
  token_hash = hash 7;
  signed_at = none;
  declined_at = none;
  expires_at = 500;
}

abbrev store : Store
store = record { users = []; requests = request ∷ []; signers = slot ∷ []; signatures = [] }

abbrev attested : Attested
attested = record { jws = some 1050; key_id = some 77; status = verified; error = none }

abbrev signature : SignatureRow
signature = new_signature 50 alice request none none attested 100

sign_twice_example :
    let t = (sign hash jwt alice 7 50 none none 100 store).1 in
    (sign hash jwt bob 7 51 none none 200 t ≡ (err already_signed, t))
    × (decline hash bob 7 200 t ≡ (err already_signed, t))
unfolding sign load_signer_for_signing assert_signer_identity attest recompute_status find update
    every insert
sign_twice_example =
    sign_twice hash jwt alice 7 50 none none 100 store (signature, signed) jwt bob 51 none none 200
      refl

sign_complete_example :
    let t = (sign hash jwt alice 7 50 none none 100 store).1 in
    (EverySigned 30 t.signers
      × (signed ≡ signed)
      × (Option.map (λ (r : Request). r.status) (find (is_request 30) t.requests) ≡ some signed))
    ⊎ (SomeUnsigned 30 t.signers × (signed ≡ pending) × (t.requests ≡ request ∷ []))
unfolding sign load_signer_for_signing assert_signer_identity attest recompute_status find update
    every insert
sign_complete_example = sign_complete hash jwt alice 7 50 none none 100 store signature signed refl

sign-MayAct_example :
    (signer : Signer) × (r : Request) × Usable hash 7 100 store signer r
    × MayAct signer alice store
    × (signature.signer_user_id ≡ alice.sub)
    × (signature.content_hash ≡ r.content_hash)
    × ((sign hash jwt alice 7 50 none none 100 store).1.signatures ≡ insert signature [])
unfolding sign load_signer_for_signing assert_signer_identity attest recompute_status find update
    every insert
sign-MayAct_example = sign-MayAct hash jwt alice 7 50 none none 100 store signature signed refl

-- A signature whose attestation has failed.
abbrev unproven : SignatureRow
unproven = record signature { attestation = none; attestation_status = failed }

abbrev broken : Store
broken = record store { signatures = unproven ∷ [] }

store-IsBounded : IsBounded store
store-IsBounded h signer r t f g e =
    let a = All-find (λ (x : Signer). x.expires_at ≡ 500) (has_hash h) store.signers (refl, tt) f in
    let b =
      All-find (λ (x : Request). x.expires_at ≡ some 500) (is_request signer.request_id)
        store.requests (refl, tt) g in
    ground (arith, a, b, e)

sign-unchanged_example : (sign hash jwt bob 7 51 none none 200 store).1 ≡ store
unfolding sign load_signer_for_signing assert_signer_identity find
sign-unchanged_example =
    sign-unchanged hash jwt bob 7 51 none none 200 store other_account store-IsBounded refl
