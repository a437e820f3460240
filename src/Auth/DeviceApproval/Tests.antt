-- ===== src/Auth/DeviceApproval/Tests.antt =====
-- A new device that is asked for, approved and asked again.
use ndy_hub.Common.{none, some, List, [], ◌≡◌, refl}
use ndy_hub.Common.Handler.{err}
use ndy_hub.Common.Table.{find, update, count, insert}
use ndy_hub.Auth.DeviceApproval.{
  Request, not_pending, wrong_code, create_for_new_device, find_active_or_expire, load, approve,
  approved,
}

abbrev asked : List Request
asked = create_for_new_device 1 23 2 (some 50) none 1000 []

wrong_code_refused : (approve 1 2 124 2000 asked).0 ≡ err wrong_code
unfolding approve load find_active_or_expire create_for_new_device find insert
wrong_code_refused = refl

approved_twice :
    (approve 1 2 123 3000 (approve 1 2 123 2000 asked).1).0 ≡ err (not_pending approved)
unfolding approve load find_active_or_expire create_for_new_device find update count insert
approved_twice = refl
