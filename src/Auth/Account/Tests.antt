-- ===== src/Auth/Account/Tests.antt =====
-- The theorems on accounts at concrete inputs.
use ndy_hub.Common.{Key, [], ◌∷◌, ◌≡◌, refl, ◌↔◌, arith}
use ndy_hub.Common.Handler.{ok}
use ndy_hub.Common.Table.{find, update, count, insert}
use ndy_hub.Auth.Rows.{User, Store}
use ndy_hub.Auth.Sessions.{issued_for}
use ndy_hub.Auth.Account.{
  signed_in, login, register, create_user, place_user, issue_verification_code,
  confirm_email_verification,
}
use ndy_hub.Auth.Examples.{services, no_meta, fresh_ids, member}
use ndy_hub.Auth.Account.Login.{MayLogin, login-MayLogin}
use ndy_hub.Auth.Account.Confirm.{confirm-register}

abbrev empty : Store
empty = record { users = []; sessions = []; devices = []; backup_codes = []; security_events = [] }

abbrev accounts : Store
accounts = record empty { users = member ∷ [] }

login-MayLogin_example :
    ((login services 30 fresh_ids 20 77 no_meta 1000 accounts).0
      ≡ ok (signed_in (issued_for fresh_ids 1 10)))
    ↔ ((u : User) × MayLogin services 20 77 accounts u
        × (issued_for fresh_ids 1 10 ≡ issued_for fresh_ids u.id u.ndy_id))
login-MayLogin_example =
    login-MayLogin services 30 fresh_ids 20 77 no_meta 1000 accounts (issued_for fresh_ids 1 10)

member-MayLogin : MayLogin services 20 77 accounts member
unfolding find
member-MayLogin = record {
  found = refl;
  hash = 300077;
  hashed = refl;
  compared = refl;
  allowed = refl;
  verified = refl;
  no_totp = refl;
  no_sms = refl;
}

confirm-register_example :
    let t = (register services 999 1 20 77 3 (10 ∷ []) 123456 fresh_ids no_meta 1000 empty).1 in
    (k : Key) × ((confirm_email_verification services fresh_ids 20 123456 no_meta 200000 t).0
      ≡ ok (issued_for fresh_ids 1 k))
unfolding register create_user place_user issue_verification_code find update count insert
confirm-register_example =
    confirm-register services 999 1 20 77 3 (10 ∷ []) 123456 fresh_ids fresh_ids no_meta no_meta
      1000 200000 empty refl refl (omega arith)
