-- ===== src/Notifications/Tests.antt =====
-- A notification by mail that is sent twice.
use ndy_hub.Common.{true, none, some, [], ◌∷◌, ◌≡◌, refl}
use ndy_hub.Common.Table.{find, count, insert}
use ndy_hub.Common.Chars.{codes}
use ndy_hub.Notifications.{email, Params, Store, Mail, notify, replace_all}
use ndy_hub.Notifications.{escape_html}

abbrev params : Params
params = record {
  user_id = 1;
  workspace_id = none;
  category = 2;
  channel = email;
  title = codes "Approval";
  body = codes "a < b";
  link_url = none;
  source_event_id = some 9;
}

abbrev empty : Store
empty = record { users = record { id = 1; email = 50 } ∷ []; notifications = []; mails = [] }

sent_once : count (λ (m : Mail). true) (notify 4 params (notify 3 params empty).1).1.mails ≡ 1
unfolding notify replace_all find count insert
sent_once = refl

escaped : escape_html (codes "<a & b>") ≡ codes "&lt;a &amp; b&gt;"
unfolding replace_all
escaped = refl
