-- ===== src/Notification/Service.antt =====
-- The table of services/notification/src/db/schema.ts, the operations of services/notification/src/
-- services/notification.ts, its routes, and its subscribers.
use micro_blog.Base.{
  ℕ, ◌+◌, String, Text, codes, string_eq, ◌==◌, Bool, true, false, not, ◌&&◌, Option, none, some,
  List, [], ◌∷◌, ◌++◌, find, filter, truthy, or_else, if◌then◌else◌, Exec, Run, done, thrown,
  other_error, return, gets, ◌>>=◌,
}
use micro_blog.Sql.{insert, update, delete, count, order_desc, page_of}
use micro_blog.Shared.Errors.{Reply, sent, refused}
use micro_blog.Shared.Events.{Event, comment_created, post_published, user_deleted}
use micro_blog.Shared.Requests.{parsed, signed_in}

pub record Notification : Type 0 where
  pub id : String
  pub user_id : String
  pub type : String
  pub message : Text
  pub metadata : List (String × String)
  pub read : Bool
  pub created_at : ℕ

-- The database, and how many identifiers it has drawn.
pub record NotificationDb : Type 0 where
  pub notifications : List Notification
  pub drawn : ℕ

-- PRIMARY KEY (id)
abbrev pub id_clash : Notification → Notification → Bool
id_clash m n = m.id == n.id

pub record NotificationPage : Type 0 where
  pub notifications : List Notification
  pub total : ℕ
  pub page : ℕ
  pub limit : ℕ

abbrev pub is_of : String → Notification → Bool
is_of user_id n = n.user_id == user_id

unfoldable pub get_notifications : String → (page limit : ℕ) → NotificationDb → NotificationPage
get_notifications user_id page limit s = record {
  notifications =
      page_of page limit (order_desc (λ n. n.created_at) (filter (is_of user_id) s.notifications));
  total = count (is_of user_id) s.notifications;
  page = page;
  limit = limit;
}

-- SET read = true
abbrev pub as_read : Notification → Notification
as_read n = record n { read = true }

-- The WHERE of `markAsRead`.
abbrev pub is_own : (id user_id : String) → Notification → Bool
is_own id user_id n = n.id == id && n.user_id == user_id

-- The first of the rows that RETURNING gives.
abbrev pub returned : Option Notification → Option Notification
returned none = none
returned (some n) = some (as_read n)

unfoldable pub mark_as_read :
    (id user_id : String) → NotificationDb → Option Notification × NotificationDb
mark_as_read id user_id s = (
  returned (find (is_own id user_id) s.notifications),
  record s { notifications = update (is_own id user_id) as_read s.notifications },
)

unfoldable pub mark_all_as_read : String → NotificationDb → NotificationDb
mark_all_as_read user_id s = record s {
  notifications = update (λ n. is_of user_id n && not n.read) as_read s.notifications;
}

unfoldable pub delete_user_notifications : String → NotificationDb → NotificationDb
delete_user_notifications user_id s = record s {
  notifications = delete (is_of user_id) s.notifications;
}

-- No message of the subscribers reaches the 500 characters of the column.
module _ (uuid : ℕ → String) (now : ℕ) where
  unfoldable pub create_notification :
      (user_id type : String) (message : Text) (metadata : List (String × String))
      → Exec NotificationDb Notification
  create_notification user_id type message metadata s =
      let row : Notification = record {
        id = uuid s.drawn;
        user_id = user_id;
        type = type;
        message = message;
        metadata = metadata;
        read = false;
        created_at = now;
      } in
      elim (insert id_clash row s.notifications) [
        | none ↦ thrown other_error s
        | some rows ↦ done row (record s { notifications = rows; drawn = s.drawn + 1 })
      ]

  abbrev stored : Run NotificationDb Notification → Run NotificationDb (Unit {0})
  stored (done n s) = done tt s
  stored (thrown e s) = thrown e s

  -- The three subscribers, on one message: `done` is answered by `ack`, `thrown` by `nak`.
  unfoldable pub consume : Event → Exec NotificationDb (Unit {0})
  unfolding create_notification delete_user_notifications
  consume (comment_created comment_id post_id author_id content parent_id) s = stored (
      create_notification author_id "comment_on_post" (codes "New comment on post")
        (("post_id", post_id) ∷ ("comment_id", comment_id) ∷ ("commenter_id", author_id) ∷ []) s)
  consume (post_published post_id author_id title slug) s = stored (
      create_notification author_id "post_published"
        (codes "Your post \"" ++ title ++ codes "\" has been published") (("post_id", post_id) ∷ [])
        s)
  consume (user_deleted user_id) s = done tt (delete_user_notifications user_id s)
  consume _ s = done tt s

-- What the routes that write answer.
pub data Answer : Type 0 where
  row : Notification → Answer
  success : Answer

abbrev pub read_reply : Option Notification → Reply Answer
read_reply none = refused 404 "Notification not found"
read_reply (some n) = sent 200 (row n)

-- PUT /notifications/:id/read
unfoldable pub put_read :
    (id : String) → Option String → NotificationDb → Reply Answer × NotificationDb
unfolding mark_as_read
put_read id user_id s =
    if truthy user_id
    then (let (n, t) = mark_as_read id (or_else user_id "") s in (read_reply n, t))
    else (refused 401 "Missing user ID", s)

-- PUT /notifications/read-all
unfoldable pub put_read_all : Option String → NotificationDb → Reply Answer × NotificationDb
unfolding mark_all_as_read
put_read_all user_id s =
    if truthy user_id
    then (sent 200 success, mark_all_as_read (or_else user_id "") s)
    else (refused 401 "Missing user ID", s)

-- GET /notifications, with the page and the limit that the schema passes on
unfoldable pub get_page :
    Option String → Option (ℕ × ℕ) → Exec NotificationDb (Reply NotificationPage)
unfolding parsed
get_page user_id query = signed_in "Missing user ID" user_id λ user_id. do
  q ← parsed query
  result ← gets (get_notifications user_id q.0 q.1)
  return (sent 200 result)
