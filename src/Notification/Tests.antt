-- ===== src/Notification/Tests.antt =====
-- The theorems on the notification service at concrete inputs.
use micro_blog.Base.{◌≡◌, refl, String, codes, false, [], ◌∷◌, filter}
use micro_blog.Notification.Service.{Notification, NotificationDb, is_of}
use micro_blog.Notification.Isolation.{change, read_one, change-isolated}

abbrev for_user : String → String → Notification
for_user id user_id = record {
  id = id;
  user_id = user_id;
  type = "post_published";
  message = codes "text";
  metadata = [];
  read = false;
  created_at = 1;
}

abbrev two_users : NotificationDb
two_users = record { notifications = for_user "n1" "ann" ∷ for_user "n2" "bob" ∷ []; drawn = 2 }

change-isolated_example :
    filter (is_of "bob") (change "ann" (read_one "n1") two_users).notifications
    ≡ filter (is_of "bob") two_users.notifications
change-isolated_example = change-isolated "ann" "bob" refl (read_one "n1") two_users
