-- ===== src/Notifications/Tests.antt =====
-- modules/notifications: the pages at a concrete table.
use solsight_api.Prelude.{ℕ, String, false, none, some, List, [], ◌∷◌, ◌≡◌, arith}
use solsight_api.Notifications.{Notification, QueryNotifications, security_alert}
use solsight_api.Notifications.Paging.{all_pages, all_pages-whole}

abbrev notice : String → String → ℕ → Notification
notice id user_id now = record {
  id = id;
  user_id = user_id;
  event_type = security_alert;
  title = "t";
  message = "m";
  metadata = none;
  is_read = false;
  created_at = now;
}

abbrev two_at_a_time : QueryNotifications
two_at_a_time = record { limit = some 2; cursor = none; event_type = none; is_read = some false }

abbrev five_notices : List Notification
five_notices =
    notice "5" "ann" 50
    ∷ notice "4" "bob" 40
    ∷ notice "3" "ann" 30
    ∷ notice "2" "ann" 20
    ∷ notice "1" "ann" 10
    ∷ []

all_pages-whole_example :
    all_pages 6 "ann" two_at_a_time five_notices
    ≡ some
        (notice "5" "ann" 50 ∷ notice "3" "ann" 30 ∷ notice "2" "ann" 20 ∷ notice "1" "ann" 10 ∷ [])
all_pages-whole_example =
    all_pages-whole "ann" two_at_a_time five_notices (omega arith) (omega arith)
