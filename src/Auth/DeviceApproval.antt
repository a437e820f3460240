-- ===== src/Auth/DeviceApproval.antt =====
-- DeviceApprovalService (apps/api/src/auth/device-approval.service.ts): the user of a new device is
-- asked, on a device that is signed in, to compare a code and approve. The notification is left out.
pub mod Decision
mod Tests
use ndy_hub.Common.{
  ℕ, Key, Time, Bool, true, false, not, ◌&&◌, Option, none, some, List, ltb, ◌==◌, ◌!=◌,
  if◌then◌else◌, ◌+◌, ◌*◌, ◌%◌,
}
use ndy_hub.Common.Handler.{Handler, pure, throw_if, or_throw, query, write, ◌>>=◌, ◌>>◌}
use ndy_hub.Common.Table.{find, update, count, insert}

-- `DeviceApprovalStatus`
pub data Status : Type 0 where
  pending approved denied expired : Status

-- `DeviceApprovalRequest`; its reason is always that the device is new.
pub record Request : Type 0 where
  pub id : Key
  pub user_id : Key
  pub device_id : Option Key
  pub status : Status
  pub match_code : ℕ
  pub requesting_context : Option Key
  pub expires_at : Time
  pub approved_at : Option Time
  pub denied_at : Option Time

-- `not_pending` names the status in the text of the exception.
pub data Failure : Type 0 where
  no_such_request wrong_code already_handled : Failure
  not_pending : Status → Failure

abbrev pub approval_ttl_ms : ℕ
approval_ttl_ms = 5 * 60 * 1000

abbrev pub is_pending : Status → Bool
is_pending pending = true
is_pending _ = false

abbrev pub has_id : Key → Request → Bool
has_id id r = r.id == id

-- `where: { id, status: PENDING }`
abbrev pub is_open : Key → Request → Bool
is_open id r = r.id == id && is_pending r.status

-- `generateMatchCode`, with what `randomInt(100, 1000)` draws above 100.
abbrev pub generate_match_code : ℕ → ℕ
generate_match_code drawn = 100 + drawn % 900

-- `createForNewDevice`
pub create_for_new_device :
    Key → ℕ → Key → Option Key → Option Key → Time → List Request → List Request
create_for_new_device id drawn user_id device_id context now = insert (record {
  id = id;
  user_id = user_id;
  device_id = device_id;
  status = pending;
  match_code = generate_match_code drawn;
  requesting_context = context;
  expires_at = now + approval_ttl_ms;
  approved_at = none;
  denied_at = none;
})

abbrev pub is_due : Time → Request → Bool
is_due now r = is_pending r.status && ltb r.expires_at now

abbrev pub expire : Request → Request
expire r = record r { status = expired }

abbrev pub accept : Time → Request → Request
accept now r = record r { status = approved; approved_at = some now }

abbrev pub refuse : Time → Request → Request
refuse now r = record r { status = denied; denied_at = some now }

-- `findActiveOrExpire`, which `getStatus` is.
pub find_active_or_expire : Key → Time → Handler (List Request) Failure Request
find_active_or_expire id now = do
  r ← or_throw (← query (find (has_id id))) no_such_request
  if is_due now r then (do write (update (has_id id) expire); pure (expire r)) else pure r

-- What `approve` and `deny` test first.
pub load : Key → Key → Time → Handler (List Request) Failure Request
unfolding find_active_or_expire
load id user_id now = do
  r ← find_active_or_expire id now
  throw_if (r.user_id != user_id) no_such_request
  throw_if (not (is_pending r.status)) (not_pending r.status)
  pure r

pub approve : Key → Key → ℕ → Time → Handler (List Request) Failure Request
unfolding load
approve id user_id submitted now = do
  r ← load id user_id now
  throw_if (submitted != r.match_code) wrong_code
  claimed ← query (count (is_open id))
  write (update (is_open id) (accept now))
  throw_if (claimed == 0) already_handled
  found ← query (find (has_id id))
  or_throw found no_such_request

pub deny : Key → Key → Time → Handler (List Request) Failure Request
unfolding load
deny id user_id now = do
  r ← load id user_id now
  write (update (is_open id) (refuse now))
  found ← query (find (has_id id))
  or_throw found no_such_request
