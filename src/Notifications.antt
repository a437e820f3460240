-- ===== src/Notifications.antt =====
-- NotificationService (apps/api/src/notifications/notification.service.ts). Texts are lists of
-- character codes. The id that is drawn is an argument; a mail is sent where it joins `mails`. Only
-- the source event is unique in the table. The warning of the SMS channel is left out.
pub mod Delivery
pub mod Escape
mod Tests
use ndy_hub.Common.{
  ℕ, Key, Bool, true, false, not, ◌&&◌, Option, none, some, List, [], ◌∷◌, ◌++◌, ◌==◌, ◌!=◌,
  if◌then◌else◌,
}
use ndy_hub.Common.Handler.{Handler, pure, throw_if, or_throw, query, write, ◌>>=◌, ◌>>◌}
use ndy_hub.Common.Table.{find, update, count, insert}
use ndy_hub.Common.Chars.{codes}
use ndy_hub.Auth.Rows.{is_value}

pub data Channel : Type 0 where
  in_app email sms : Channel

-- `NotifyParams`
pub record Params : Type 0 where
  pub user_id : Key
  pub workspace_id : Option Key
  pub category : Key
  pub channel : Channel
  pub title : List ℕ
  pub body : List ℕ
  pub link_url : Option (List ℕ)
  pub source_event_id : Option Key

pub record Notification : Type 0 where
  pub id : Key
  pub params : Params
  pub is_read : Bool

pub record User : Type 0 where
  pub id : Key
  pub email : Key

pub record Mail : Type 0 where
  pub to : Key
  pub subject : List ℕ
  pub html : List ℕ

pub record Store : Type 0 where
  pub users : List User
  pub notifications : List Notification
  pub mails : List Mail

pub data Failure : Type 0 where
  no_such_notification : Failure

-- `str.replace(/c/g, entity)`
unfoldable pub replace_all : ℕ → List ℕ → List ℕ → List ℕ
replace_all c entity [] = []
replace_all c entity (d ∷ s) =
    let rest = replace_all c entity s in if d == c then entity ++ rest else d ∷ rest

abbrev pub amp : ℕ
amp = 38

abbrev pub quote : ℕ
quote = 34

abbrev pub less : ℕ
less = 60

abbrev pub greater : ℕ
greater = 62

-- `escapeHtml`
abbrev pub escape_html : List ℕ → List ℕ
escape_html s = replace_all quote (codes "&quot;") (
    replace_all greater (codes "&gt;")
      (replace_all less (codes "&lt;") (replace_all amp (codes "&amp;") s)))

abbrev pub link_html : Option (List ℕ) → List ℕ
link_html none = []
link_html (some url) = codes "<p><a href=\"" ++ (escape_html url ++ codes "\">View</a></p>")

abbrev pub mail_html : Params → List ℕ
mail_html p = codes "<p>" ++ (escape_html p.body ++ (codes "</p>" ++ link_html p.link_url))

abbrev pub is_user : Key → User → Bool
is_user id u = u.id == id

-- `deliver`
abbrev pub deliver : Params → Store → Store
deliver p s = elim p.channel [
  | in_app ↦ s
  | sms ↦ s
  | email ↦ elim (find (is_user p.user_id) s.users) [
    | none ↦ s
    | some u ↦ record s {
      mails = insert (record { to = u.email; subject = p.title; html = mail_html p }) s.mails;
    }
  ]
]

abbrev pub new_notification : Key → Params → Notification
new_notification id p = record { id = id; params = p; is_read = false }

abbrev pub has_source : Key → Notification → Bool
has_source e n = is_value e n.params.source_event_id

-- The row that the unique column `sourceEventId` refuses a second one for.
abbrev pub existing : Option Key → List Notification → Option Notification
existing none rows = none
existing (some e) rows = find (has_source e) rows

abbrev pub post : Key → Params → Store → Store
post id p s =
    deliver p (record s { notifications = insert (new_notification id p) s.notifications })

-- `notify`
pub notify : Key → Params → Store → Notification × Store
notify id p s = elim (existing p.source_event_id s.notifications) [
  | some n ↦ (n, s)
  | none ↦ (new_notification id p, post id p s)
]

abbrev pub is_unread : Key → Notification → Bool
is_unread user_id n = n.params.user_id == user_id && not n.is_read

-- `unreadCount`
abbrev pub unread_count : Key → Store → ℕ
unread_count user_id s = count (is_unread user_id) s.notifications

abbrev pub read : Notification → Notification
read n = record n { is_read = true }

abbrev pub is_notification : Key → Notification → Bool
is_notification id n = n.id == id

-- `markRead`
pub mark_read : Key → Key → Handler Store Failure Notification
mark_read user_id id = do
  n ← or_throw (← query (λ s. find (is_notification id) s.notifications)) no_such_notification
  throw_if (n.params.user_id != user_id) no_such_notification
  write (λ s. record s { notifications = update (is_notification id) read s.notifications })
  pure (read n)

-- `markAllRead`, with the number of rows that it changes.
pub mark_all_read : Key → Store → ℕ × Store
mark_all_read user_id s = (
  unread_count user_id s,
  record s { notifications = update (is_unread user_id) read s.notifications },
)
