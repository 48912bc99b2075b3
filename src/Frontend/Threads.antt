-- ===== src/Frontend/Threads.antt =====
-- services/frontend/src/pages/PostPage.tsx: the comments of a post as threads, and the buttons of a post and of a
-- comment.
pub mod Counting
pub mod Page
pub mod Served
use micro_blog.Base.{
  ◌≡◌, ℕ, zero, suc, ◌+◌, String, Text, codes, string_eq, text_eq, ◌==◌, Bool, true, false, not,
  ◌&&◌, ◌||◌, Option, none, some, List, [], ◌∷◌, ◌++◌, filter, find, truthy, is_value, is_some,
  or_else, if◌then◌else◌,
}
use micro_blog.Frontend.Session.{User}

-- types/index.ts; a time is as `JSON.parse` gives it.
pub record Comment : Type 0 where
  pub id : String
  pub post_id : String
  pub author_id : String
  pub content : Text
  pub parent_id : Option String
  pub created_at : Text

-- `replyMap`, as its entries.
abbrev pub ReplyMap : Type 0
ReplyMap = List (String × List Comment)

-- `replyMap.get(id) || []`
unfoldable pub replies_to : String → ReplyMap → List Comment
replies_to id [] = []
replies_to id ((key, replies) ∷ m) = if key == id then replies else replies_to id m

-- `arr.push(r)` and `replyMap.set(id, arr)`
unfoldable pub add_reply : String → Comment → ReplyMap → ReplyMap
add_reply id r [] = (id, r ∷ []) ∷ []
add_reply id r ((key, replies) ∷ m) =
    if key == id then (key, replies ++ r ∷ []) ∷ m else (key, replies) ∷ add_reply id r m

-- `r.parent_id!`
abbrev pub parent_of : Comment → String
parent_of c = or_else c.parent_id ""

abbrev pub is_reply : Comment → Bool
is_reply c = truthy c.parent_id

-- `forEach`, from the map that is there.
unfoldable pub add_replies : List Comment → ReplyMap → ReplyMap
add_replies [] m = m
add_replies (r ∷ rest) m = add_replies rest (add_reply (parent_of r) r m)

abbrev pub reply_map : List Comment → ReplyMap
reply_map comments = add_replies (filter is_reply comments) []

-- What the page shows of a comment; `depth` counts the replies that it is nested in.
pub record Shown : Type 0 where
  pub comment : Comment
  pub depth : ℕ
  pub reply_button : Bool
  pub delete_button : Bool

-- `canDelete`
abbrev pub can_delete : Option User → Comment → Bool
can_delete none comment = false
can_delete (some user) comment = user.id == codes comment.author_id || user.role == codes "admin"

-- `.map(render)` and what stands on the page in the end, from top to bottom.
unfoldable pub gather : (Comment → Option (List Shown)) → List Comment → Option (List Shown)
gather render [] = some []
gather render (c ∷ rest) = elim (render c) [
  | none ↦ none
  | some above ↦ elim (gather render rest) [ none ↦ none | some below ↦ some (above ++ below) ]
]

module _ (viewer : Option User) where
  abbrev pub shown_at : ℕ → Comment → Shown
  shown_at depth c = record {
    comment = c;
    depth = depth;
    reply_button = is_some viewer;
    delete_button = can_delete viewer c;
  }

  -- `renderComment`, with fuel for the levels below; `none` means that it ran out.
  unfoldable pub render_comment : ReplyMap → ℕ → ℕ → Comment → Option (List Shown)
  unfolding gather
  render_comment replies zero depth c = none
  render_comment replies (suc fuel) depth c =
      elim (gather (render_comment replies fuel (suc depth)) (replies_to c.id replies)) [
        | none ↦ none
        | some below ↦ some (shown_at depth c ∷ below)
      ]

  -- `topLevel.map(renderComment)`
  unfoldable pub render_comments : ℕ → List Comment → Option (List Shown)
  unfolding render_comment
  render_comments fuel comments =
      gather (render_comment (reply_map comments) fuel 0) (filter (λ c. not (is_reply c)) comments)

-- The comment under an identifier leads, from answered comment to answered comment, to one that
-- answers none, all of them in the list.
unfoldable pub leads_up : ℕ → List Comment → String → Bool
leads_up zero comments id = false
leads_up (suc fuel) comments id = elim (find (λ c. c.id == id) comments) [
  | none ↦ false
  | some c ↦ elim (is_reply c) [ true ↦ leads_up fuel comments (parent_of c) | false ↦ true ]
]
