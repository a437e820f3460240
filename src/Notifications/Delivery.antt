-- ===== src/Notifications/Delivery.antt =====
-- An event is notified once, and reading all leaves nothing unread.
use ndy_hub.Common.{
  Key, false, none, some, List, ◌==◌, Option-cases, ==_iff, ◌≡◌, refl, inl, inr, arith,
}
use ndy_hub.Common.Table.{find, insert}
use ndy_hub.Common.Table.Laws.{find-insert, count-update_self, count-update_same}
use ndy_hub.Notifications.{
  Channel, in_app, email, sms, Params, Notification, Store, is_user, deliver, new_notification,
  has_source, existing, notify, is_unread, unread_count, read, mark_all_read,
}

deliver-notifications : (p : Params) (s : Store) → (deliver p s).notifications ≡ s.notifications
deliver-notifications p s = on_channel p.channel
  where
    on_channel :
        (c : Channel) → (deliver (record p { channel = c }) s).notifications ≡ s.notifications
    on_channel in_app = refl
    on_channel sms = refl
    on_channel email = elim (Option-cases (find (is_user p.user_id) s.users)) [
      | inl gone ↦ ground (arith, gone)
      | inr (u, found) ↦ ground (arith, found)
    ]

notified :
    (id : Key) (p : Params) (t : Store) {n : Notification}
    → existing p.source_event_id t.notifications ≡ some n
    → notify id p t ≡ (n, t)
unfolding notify
notified id p t e = ground (arith, e)

existing-insert :
    (e id : Key) (p : Params) (rows : List Notification)
    → p.source_event_id ≡ some e
    → find (has_source e) rows ≡ none
    → find (has_source e) (insert (new_notification id p) rows) ≡ some (new_notification id p)
existing-insert e id p rows event new =
    ground (arith, new, event, ==_iff e e, find-insert (has_source e) (new_notification id p) rows)

-- An event is notified once: a second notification of the same source event, whatever it says,
-- returns the first row, writes none and sends nothing.
pub notify_twice :
    (id id' e : Key) (p p' : Params) (s : Store)
    → p.source_event_id ≡ some e
    → p'.source_event_id ≡ some e
    → let (n, t) = notify id p s in notify id' p' t ≡ (n, t)
unfolding notify
notify_twice id id' e p p' s event event' =
    elim (Option-cases (find (has_source e) s.notifications)) [
      | inr (n, seen) ↦ ground (arith, event, event', seen)
      | inl new ↦
          let there = existing-insert e id p s.notifications event new in
          let kept =
            deliver-notifications p
              (record s { notifications = insert (new_notification id p) s.notifications }) in
          ground (arith, event, event', new, there, kept)
    ]

-- Reading all of a user's notifications leaves none unread, tells how many there were, and changes
-- no other user's count.
pub mark_all_read-unread_count :
    (user_id other : Key) (s : Store)
    → (other == user_id) ≡ false
    → let (n, t) = mark_all_read user_id s in
      (n ≡ unread_count user_id s)
      × (unread_count user_id t ≡ 0)
      × (unread_count other t ≡ unread_count other s)
unfolding mark_all_read
mark_all_read-unread_count user_id other s apart = (
  refl,
  count-update_self (is_unread user_id) read s.notifications (λ n e. ground arith),
  count-update_same (is_unread other) (is_unread user_id) read s.notifications
      (λ n e. ground (arith, e, apart)),
)
