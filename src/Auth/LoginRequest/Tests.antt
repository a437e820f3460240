-- ===== src/Auth/LoginRequest/Tests.antt =====
-- The theorems on login requests at concrete inputs: a request that two exchanges race for.
use ndy_hub.Common.{Key, true, some, [], ◌∷◌, ◌≤◌, ◌≡◌, refl, ◌⊎◌, arith}
use ndy_hub.Common.Handler.{ok}
use ndy_hub.Common.Table.{find, update, count, insert}
use ndy_hub.Auth.Sessions.{issued_for}
use ndy_hub.Auth.Revocation.{set_suspended}
use ndy_hub.Auth.Examples.{services, no_meta, fresh_ids, member}
use ndy_hub.Auth.LoginRequest.Exchange.{exchange-set_suspended}
use ndy_hub.Auth.LoginRequest.{
  Store, approved, new_request, exchange, Request, create, claim_approval, claim_exchange,
  check_exchange, find_active_or_expire, has_token,
}
use ndy_hub.Auth.LoginRequest.Promise.{exchanged, lapsed, view_row}
use ndy_hub.Auth.LoginRequest.Refinement.{
  World, noted, creates, approves, passes, claims, Reach, here, next, users_of, seen,
}
use ndy_hub.Auth.LoginRequest.OneSession.{start, SpecReach, Reach-Spec, one_session}

abbrev created : World
created = record (start []) { requests = (create 7 1000 []).1 }

abbrev approved_by_42 : World
approved_by_42 = record created { requests = (claim_approval 7 42 2000 created.requests).1 }

abbrev racing : World
racing = record approved_by_42 { in_flight = (7, 42) ∷ (7, 42) ∷ [] }

abbrev first_claim : World
first_claim = record {
  requests = (claim_exchange 7 3000 racing.requests).1;
  in_flight = (7, 42) ∷ [];
  issued = noted (claim_exchange 7 3000 racing.requests).0 (7, 42) racing.issued;
}

abbrev second_claim : World
second_claim = record {
  requests = (claim_exchange 7 3001 first_claim.requests).1;
  in_flight = [];
  issued = noted (claim_exchange 7 3001 first_claim.requests).0 (7, 42) first_claim.issued;
}

race : Reach (start []) second_claim
unfolding create claim_approval claim_exchange check_exchange find_active_or_expire find update
    count insert
race =
    next
      (next
        (next
          (next (next (next here (creates (start []) 7 1000)) (approves created 7 42 2000))
            (passes approved_by_42 7 42 2500 refl))
          (passes (record approved_by_42 { in_flight = (7, 42) ∷ [] }) 7 42 2500 refl))
        (claims racing 7 42 3000 [] ((7, 42) ∷ []) refl))
      (claims first_claim 7 42 3001 [] [] refl)

no_rows : (c : Key) → count (has_token c) [] ≤ 1
unfolding count
no_rows c = omega arith

Reach-Spec_example : SpecReach (seen 7 (start [])) (seen 7 second_claim)
Reach-Spec_example = Reach-Spec [] second_claim 7 no_rows tt race

one_session_example :
    (users_of 7 second_claim.issued ≡ [])
    ⊎ ((u : Key) × (users_of 7 second_claim.issued ≡ u ∷ [])
        × ((view_row (find (has_token 7) second_claim.requests) ≡ exchanged (some u))
            ⊎ (view_row (find (has_token 7) second_claim.requests) ≡ lapsed)))
one_session_example = one_session [] second_claim 7 no_rows tt race

race_gives_one : users_of 7 second_claim.issued ≡ 42 ∷ []
unfolding create claim_approval claim_exchange users_of find update count insert
race_gives_one = refl

abbrev agreed : Request
agreed = record (new_request 7 1000) {
  status = approved;
  user_id = some 1;
  approved_at = some 2000;
}

abbrev stored : Store
stored = record {
  requests = agreed ∷ [];
  accounts = record {
    users = member ∷ [];
    sessions = [];
    devices = [];
    backup_codes = [];
    security_events = [];
  };
}

exchange-set_suspended_example :
    let t = record stored { accounts = (set_suspended 1 true 2500 stored.accounts).1 } in
    (exchange services.hash_token fresh_ids 7 no_meta 99000000 t).0 ≡ ok (issued_for fresh_ids 1 10)
unfolding find
exchange-set_suspended_example =
    exchange-set_suspended services.hash_token fresh_ids 7 no_meta 2500 99000000 stored agreed
      member (record { found = refl; status = refl; by = refl; unspent = refl; user = refl })
