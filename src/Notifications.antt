-- ===== src/Notifications.antt =====
-- modules/notifications/services: the notifications of users, how they are delivered, and how they are
-- read page by page. The table is the list of its rows in the order of `createdAt DESC`.
pub mod Paging
mod Tests
use solsight_api.Prelude.{
  ℕ, suc, zero, ◌+◌, ◌-◌, String, Bool, true, false, ◌&&◌, not, Option, none, some, List, [], ◌∷◌,
  ◌++◌, map, keep, take, length, ltb, leb, min, or_else, is_some, string_eq, ◌==◌, if◌then◌else◌,
}
use solsight_api.Prelude.Text.{◌⊕◌}

pub data NotificationEventType : Type 0 where
  swap_executed swap_failed transaction_confirmed transaction_failed : NotificationEventType
  price_alert_triggered security_alert system_announcement : NotificationEventType

abbrev pub event_type_name : NotificationEventType → String
event_type_name swap_executed = "swap_executed"
event_type_name swap_failed = "swap_failed"
event_type_name transaction_confirmed = "transaction_confirmed"
event_type_name transaction_failed = "transaction_failed"
event_type_name price_alert_triggered = "price_alert_triggered"
event_type_name security_alert = "security_alert"
event_type_name system_announcement = "system_announcement"

pub data NotificationChannel : Type 0 where
  websocket email : NotificationChannel

abbrev pub is_websocket : NotificationChannel → Bool
is_websocket websocket = true
is_websocket email = false

-- `metadata` is its JSON text.
pub record Notification : Type 0 where
  pub id : String
  pub user_id : String
  pub event_type : NotificationEventType
  pub title : String
  pub message : String
  pub metadata : Option String
  pub is_read : Bool
  pub created_at : ℕ

pub record NotificationPayload : Type 0 where
  pub event_type : NotificationEventType
  pub title : String
  pub message : String
  pub metadata : Option String

-- The two bodies of a mail for a wallet alert
pub record NotificationEmail : Type 0 where
  pub body_html : String
  pub body_text : String

pub record NotificationOptions : Type 0 where
  pub persist : Option Bool
  pub channels : Option (List NotificationChannel)
  pub wallet_alert : Option NotificationEmail

-- What is handed to the socket gateway and to the mail service
pub data Delivery : Type 0 where
  to_room : (room : String) → Notification → Delivery
  to_all : (id : String) → NotificationPayload → ℕ → Delivery
  wallet_alert_mail : (user_id title : String) → NotificationEmail → Delivery
  alert_mail : (user_id title message : String) → Delivery

abbrev pub mail_of : Notification → Option NotificationEmail → Delivery
mail_of n none = alert_mail n.user_id n.title n.message
mail_of n (some e) = wallet_alert_mail n.user_id n.title e

-- `deliver`
unfoldable pub deliver :
    Notification → List NotificationChannel → Option NotificationEmail → List Delivery
deliver n [] mail = []
deliver n (websocket ∷ channels) mail = to_room ("user:" ⊕ n.user_id) n ∷ deliver n channels mail
deliver n (email ∷ channels) mail = mail_of n mail ∷ deliver n channels mail

abbrev pub default_channels : List NotificationChannel
default_channels = websocket ∷ []

abbrev pub notification_of : String → ℕ → String → NotificationPayload → Notification
notification_of id now user_id p = record {
  id = id;
  user_id = user_id;
  event_type = p.event_type;
  title = p.title;
  message = p.message;
  metadata = p.metadata;
  is_read = false;
  created_at = now;
}

-- The rows, newest first, and what was handed on, newest first
pub record Notices : Type 0 where
  pub rows : List Notification
  pub handed : List Delivery

-- `notifyUser`; `id` and `now` are those of the new row.
unfoldable pub notify_user :
    (id : String)
    → (now : ℕ) → (user_id : String) → NotificationPayload
    → NotificationOptions
    → Notices
    → Notices
unfolding deliver
notify_user id now user_id payload options s =
    let n = notification_of id now user_id payload in
    record {
      rows = if or_else options.persist true then n ∷ s.rows else s.rows;
      handed =
          deliver n (or_else options.channels default_channels) options.wallet_alert ++ s.handed;
    }

abbrev includes_websocket : List NotificationChannel → Bool
includes_websocket [] = false
includes_websocket (websocket ∷ channels) = true
includes_websocket (email ∷ channels) = includes_websocket channels

unfoldable pub broadcast :
    (id : String) → ℕ → NotificationPayload → NotificationOptions → Notices → Notices
broadcast id now payload options s =
    if includes_websocket (or_else options.channels default_channels)
    then record s { handed = to_all id payload now ∷ s.handed }
    else s

pub record QueryNotifications : Type 0 where
  pub limit : Option ℕ
  pub cursor : Option ℕ
  pub event_type : Option NotificationEventType
  pub is_read : Option Bool

abbrev pub same_flag : Bool → Bool → Bool
same_flag true b = b
same_flag false b = not b

-- The `where` of the query without the cursor, and the cursor
abbrev pub selects : String → QueryNotifications → Notification → Bool
selects user_id q n =
    (n.user_id == user_id)
    && elim q.event_type [
      | none ↦ true
      | some e ↦ event_type_name n.event_type == event_type_name e
    ]
    && elim q.is_read [ none ↦ true | some r ↦ same_flag r n.is_read ]

abbrev pub before_cursor : Option ℕ → Notification → Bool
before_cursor none n = true
before_cursor (some c) n = ltb n.created_at c

abbrev pub query_limit : QueryNotifications → ℕ
query_limit q = min (or_else q.limit 20) 100

-- `getNotificationsForUser`: the page, and whether there is more
unfoldable pub get_notifications_for_user :
    String → QueryNotifications → List Notification → List Notification × Bool
get_notifications_for_user user_id q rows =
    let limit = query_limit q in
    let found =
      take (limit + 1) (keep (λ n. selects user_id q n && before_cursor q.cursor n) rows) in
    if ltb limit (length found) then (take limit found, true) else (found, false)

abbrev pub update_rows :
    (Notification → Bool) → (Notification → Notification) → List Notification → List Notification
update_rows p f rows = map (λ n. if p n then f n else n) rows

abbrev pub read : Notification → Notification
read n = record n { is_read = true }

unfoldable pub mark_as_read : (id user_id : String) → Notices → Notices
mark_as_read id user_id s = record s {
  rows = update_rows (λ n. (n.id == id) && (n.user_id == user_id)) read s.rows;
}

unfoldable pub mark_all_as_read : String → Notices → Notices
mark_all_as_read user_id s = record s {
  rows = update_rows (λ n. (n.user_id == user_id) && not n.is_read) read s.rows;
}

unfoldable pub count_unread : String → Notices → ℕ
count_unread user_id s = length (keep (λ n. (n.user_id == user_id) && not n.is_read) s.rows)

unfoldable pub delete_notification : (id user_id : String) → Notices → Notices
delete_notification id user_id s = record s {
  rows = keep (λ n. not ((n.id == id) && (n.user_id == user_id))) s.rows;
}

unfoldable pub delete_all : String → Notices → Notices
delete_all user_id s = record s { rows = keep (λ n. not (n.user_id == user_id)) s.rows }
