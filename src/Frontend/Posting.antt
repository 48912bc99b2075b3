-- ===== src/Frontend/Posting.antt =====
-- services/frontend/src/pages/PostPage.tsx: the box below a post, and what sending it does.
pub mod Shows
use micro_blog.Base.{
  String, Text, codes, text_eq, Option, none, some, [], or_else, if◌then◌else◌, truthy,
}
use micro_blog.Shared.Errors.{Reply, status}
use micro_blog.Comment.Routes.{CreateComment}
use micro_blog.Frontend.Fields.{trim, is_blank}
use micro_blog.Frontend.Client.{is_ok}

-- The comment that is answered; the name of its author is shown only.
pub record ReplyTo : Type 0 where
  pub id : String
  pub author : Text

pub record CommentBox : Type 0 where
  pub comment_text : Text
  pub reply_to : Option ReplyTo

abbrev pub empty_box : CommentBox
empty_box = record { comment_text = []; reply_to = none }

-- `replyTo?.id || null`
abbrev pub answered : Option ReplyTo → Option String
answered none = none
answered (some r) = if truthy (some r.id) then some r.id else none

-- `handleSubmitComment` up to the request; `none` where nothing is sent.
unfoldable pub handle_submit_comment : (post_id : String) → CommentBox → Option CreateComment
handle_submit_comment post_id box =
    if is_blank (trim box.comment_text)
    then none
    else some (record {
      post_id = some post_id;
      content = trim box.comment_text;
      parent_id = answered box.reply_to;
    })

-- The box after the answer.
unfoldable pub settle_box : {A : Type 0} → Reply A → CommentBox → CommentBox
settle_box reply box = if is_ok (status reply) then empty_box else box
