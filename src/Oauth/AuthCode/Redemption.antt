-- ===== src/Oauth/AuthCode/Redemption.antt =====
-- What `redeem` does when requests come one after another.
use ndy_hub.Common.{Key, Time, ◌≡◌, List, arith, none, ltb, ◌!=◌, if◌then◌else◌, ◌+◌}
use ndy_hub.Common.Handler.{Result, ok, err}
use ndy_hub.Common.Table.{find, count, insert}
use ndy_hub.Common.Table.Laws.{count-update_self, update-count_zero, find-insert, count-insert}
use ndy_hub.Oauth.AuthCode.{
  AuthCode, Failure, IssueParams, expired, wrong_client, wrong_redirect_uri, has_code, is_unused,
  mark_used, new_code, issue, redeem,
}

-- A code is good for one redemption: once `redeem` has returned it, no later call returns anything
-- for it, whatever client and redirect URI that call names.
pub redeem_twice :
    (codes : List AuthCode) (code client uri client' uri' : Key) (now later : Time) {r s : AuthCode}
    → (redeem code client uri now codes).0 ≡ ok r
    → (redeem code client' uri' later (redeem code client uri now codes).1).0 ≡ ok s
    → ⊥
unfolding redeem
redeem_twice codes code client uri client' uri' now later e f =
    ground (arith, count-update_self (is_unused code) (mark_used now) codes (λ r h. ground arith))

-- A refused redemption changes no row.
pub redeem-err :
    (codes : List AuthCode) (code client uri : Key) (now : Time) {e : Failure}
    → (redeem code client uri now codes).0 ≡ err e
    → (redeem code client uri now codes).1 ≡ codes
unfolding redeem
redeem-err codes code client uri now h =
    ground (arith, update-count_zero (is_unused code) (mark_used now) codes)

-- What a request for a code gets that was issued at `issued` for `params`: within sixty seconds, for
-- the client and the redirect URI it was issued for, the user, the scope and the challenge it was
-- issued for.
abbrev pub answer : Key → IssueParams → Time → Key → Key → Time → Result Failure AuthCode
answer code params issued client uri now =
    if ltb (issued + 60_000) now
    then err expired
    else if params.client_id != client
    then err wrong_client
    else if params.redirect_uri != uri
    then err wrong_redirect_uri
    else ok (record {
      code = code;
      user_id = params.user_id;
      client_id = params.client_id;
      redirect_uri = params.redirect_uri;
      scope = params.scope;
      code_challenge = params.code_challenge;
      code_challenge_method = params.code_challenge_method;
      expires_at = issued + 60_000;
      used_at = none;
    })

unused_new :
    (codes : List AuthCode) (code : Key) (params : IssueParams) (issued : Time)
    → count (is_unused code) codes ≡ 0
    → count (is_unused code) (insert (new_code code params issued) codes) ≡ 1
unused_new codes code params issued h =
    ground (arith, count-insert (is_unused code) (new_code code params issued) codes)

-- A fresh code is redeemed by its own client with its own redirect URI up to sixty seconds after
-- it was issued, and the redemption returns the user, the scope and the challenge that it was issued
-- for; any other request is refused, as expired, else for its client, else for its redirect URI.
pub redeem-issue :
    (codes : List AuthCode) (code : Key) (params : IssueParams) (issued : Time) (client uri : Key)
    (now : Time)
    → find (has_code code) codes ≡ none
    → (redeem code client uri now (issue code params issued codes).1).0
      ≡ answer code params issued client uri now
unfolding redeem issue
redeem-issue codes code params issued client uri now fresh = ground (
  arith,
  find-insert (has_code code) (new_code code params issued) codes,
  count-insert (is_unused code) (new_code code params issued) codes,
)
