-- ===== src/Shared/Events.antt =====
-- services/shared/src/events.ts and subjects.ts: the messages on the event bus, and the bus as a
-- publisher sees it. The envelope's `event_id` and `timestamp` are written and never read.
use micro_blog.Base.{
  ◌≡◌, true, false, arith, Exec, done, thrown, other_error, String, Text, Bool, Option, none, some,
  List, [], ◌∷◌, ◌++◌, if◌then◌else◌,
}

pub data Event : Type 0 where
  user_created : (user_id : String) (username email : Text) (role : String) → Event
  user_updated :
      (user_id : String) (username email bio : Option Text) (role : Option String) → Event
  user_deleted : (user_id : String) → Event
  post_created :
      (post_id author_id : String) (title slug content : Text) (tags : List Text) (status : String)
      → Event
  post_updated :
      (post_id : String) (title slug content : Text) (tags : List Text) (status : String) → Event
  post_published : (post_id author_id : String) (title slug : Text) → Event
  post_deleted : (post_id : String) → Event
  comment_created :
      (comment_id post_id author_id : String) (content : Text) (parent_id : Option String) → Event
  comment_deleted : (comment_id post_id : String) → Event

-- The subject that the code publishes each payload on.
abbrev pub subject : Event → String
subject (user_created _ _ _ _) = "blog.user.created"
subject (user_updated _ _ _ _ _) = "blog.user.updated"
subject (user_deleted _) = "blog.user.deleted"
subject (post_created _ _ _ _ _ _ _) = "blog.post.created"
subject (post_updated _ _ _ _ _ _) = "blog.post.updated"
subject (post_published _ _ _ _) = "blog.post.published"
subject (post_deleted _) = "blog.post.deleted"
subject (comment_created _ _ _ _ _) = "blog.comment.created"
subject (comment_deleted _ _) = "blog.comment.deleted"

-- `up` tells whether the connection works; `log` holds the messages accepted so far, oldest first.
pub record Bus : Type 0 where
  pub up : Bool
  pub log : List Event

-- `js.publish`, which throws where the connection does not work.
abbrev pub accept : Bus → Event → Option Bus
accept b e = if b.up then some (record b { log = b.log ++ e ∷ [] }) else none

-- The same for a service, whose state holds the bus.
abbrev pub send : {S : Type 0} → (S → Bus) → (Bus → S → S) → Event → Exec S (Unit {0})
send bus with_bus e s = elim (accept (bus s) e) [
  | none ↦ thrown other_error s
  | some b ↦ done tt (with_bus b s)
]

abbrev pub logged : Event → Bus → Bus
logged e b = record b { log = b.log ++ e ∷ [] }

pub send_up :
    {S : Type 0} (bus : S → Bus) (with_bus : Bus → S → S) (e : Event) (s : S)
    → (bus s).up ≡ true
    → send bus with_bus e s ≡ done tt (with_bus (logged e (bus s)) s)
send_up bus with_bus e s h = ground arith

pub send_down :
    {S : Type 0} (bus : S → Bus) (with_bus : Bus → S → S) (e : Event) (s : S)
    → (bus s).up ≡ false
    → send bus with_bus e s ≡ thrown other_error s
send_down bus with_bus e s h = ground arith
