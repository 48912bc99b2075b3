-- ===== src/Post/Service.antt =====
-- The operations of services/post/src/services/post.ts, and its subscriber.
use micro_blog.Base.{
  ℕ, ◌+◌, String, Text, string_eq, text_eq, ◌==◌, Bool, true, false, not, ◌&&◌, ◌||◌, Option, none,
  some, List, [], ◌∷◌, map, find, filter, any, truthy, is_value, is_some, or_else, if◌then◌else◌,
  Exec, done, thrown, other_error, return, throw, require, modify, gets, ◌>>=◌, ◌>>◌,
}
use micro_blog.Sql.{insert, update, delete, count, order_desc, page_of}
use micro_blog.Shared.Errors.{not_found, forbidden}
use micro_blog.Shared.Events.{post_created, post_updated, post_published, post_deleted}
use micro_blog.Post.Slug.{slugify}
use micro_blog.Post.Store.{
  Post, PostDb, post_clash, publish, ensure_unique_slug, get_post_tags, ensure_tags, link_tags,
}

-- The bodies of POST and PUT, as the schemas pass them on.
pub record CreatePost : Type 0 where
  pub title : Text
  pub content : Text
  pub tags : List Text
  pub status : String

pub record UpdatePost : Type 0 where
  pub title : Option Text
  pub content : Option Text
  pub tags : Option (List Text)
  pub status : Option String

-- `{ ...post, tags }`
pub record PostView : Type 0 where
  pub post : Post
  pub tags : List Text

pub record PostPage : Type 0 where
  pub posts : List PostView
  pub total : ℕ
  pub page : ℕ
  pub limit : ℕ

-- `enforcePostVisibility`: whether it returns; otherwise it throws `NotFoundError('Post')`.
abbrev pub visible : Post → Option String → Option String → Bool
visible post user_id user_role =
    if post.status == "published"
    then true
    else if is_value user_role "admin"
    then true
    else is_value user_role "writer" && truthy user_id && is_value user_id post.author_id

unfoldable pub enforce_post_visibility :
    Post → Option String → Option String → Exec PostDb (Unit {0})
enforce_post_visibility post user_id user_role =
    require (visible post user_id user_role) (not_found "Post")

-- `if (!post) throw new NotFoundError('Post')`
unfoldable pub found : Option Post → Exec PostDb Post
found none = throw (not_found "Post")
found (some post) = return post

abbrev pub view_of : Post → PostDb → PostView
view_of post s = record { post = post; tags = get_post_tags post.id s }

unfoldable pub get_post_by_id : String → (user_id user_role : Option String) → Exec PostDb PostView
get_post_by_id id user_id user_role = do
  row ← gets (λ s. find (λ p. p.id == id) s.posts)
  post ← found row
  enforce_post_visibility post user_id user_role
  gets (view_of post)

unfoldable pub get_post_by_slug : Text → (user_id user_role : Option String) → Exec PostDb PostView
get_post_by_slug slug user_id user_role = do
  row ← gets (λ s. find (λ p. p.slug == slug) s.posts)
  post ← found row
  enforce_post_visibility post user_id user_role
  gets (view_of post)

-- The status filter of `listPosts`, and whether all statuses are asked for, after the check of what
-- the caller may see.
abbrev pub effective :
    (status author_id : Option String) (all_statuses : Bool) (user_id user_role : Option String)
    → Option String × Bool
effective status author_id all_statuses user_id user_role =
    if truthy status
      && not (is_value status "published")
      && not (is_value user_role "admin")
      && not (
          is_value user_role "writer"
          && truthy author_id
          && truthy user_id
          && is_value author_id (or_else user_id ""))
    then (some "published", false)
    else (status, all_statuses)

-- The conditions that are put together by `and`.
abbrev pub listed : Option String × Bool → Option String → Post → Bool
listed (status, all_statuses) author_id p =
    (if not all_statuses || truthy status
      then p.status == (if truthy status then or_else status "" else "published")
      else true)
    && (if truthy author_id then is_value author_id p.author_id else true)

unfoldable pub list_posts :
    (page limit : ℕ) (status author_id : Option String) (all_statuses : Bool)
    (user_id user_role : Option String)
    → PostDb
    → PostPage
list_posts page limit status author_id all_statuses user_id user_role s =
    let wanted = listed (effective status author_id all_statuses user_id user_role) author_id in
    record {
      posts =
          map (λ p. view_of p s)
            (page_of page limit (order_desc (λ p. p.created_at) (filter wanted s.posts)));
      total = count wanted s.posts;
      page = page;
      limit = limit;
    }

-- Where the loop of `ensureUniquSlug` ends, its result; that it ends is proved.
unfoldable pub slug_found : Option Text → Exec PostDb Text
slug_found none = throw other_error
slug_found (some slug) = return slug

unfoldable pub unique_slug : Text → Option String → Exec PostDb Text
unique_slug slug exclude s = slug_found (ensure_unique_slug s.posts slug exclude) s

unfoldable pub insert_post : Post → Exec PostDb Post
insert_post row s = elim (insert post_clash row s.posts) [
  | none ↦ thrown other_error s
  | some posts ↦ done row (record s { posts = posts; drawn = s.drawn + 1 })
]

unfoldable pub when : Bool → Exec PostDb (Unit {0}) → Exec PostDb (Unit {0})
when true m = m
when false m = return tt

module _ (uuid : ℕ → String) (unicode : ℕ → Text) (now : ℕ) where
  abbrev pub new_post : String → CreatePost → Text → ℕ → Post
  new_post author_id body slug drawn = record {
    id = uuid drawn;
    author_id = author_id;
    title = body.title;
    slug = slug;
    content = body.content;
    status = body.status;
    created_at = now;
    updated_at = now;
    published_at = if body.status == "published" then some now else none;
  }

  unfoldable pub create_post : String → CreatePost → Exec PostDb PostView
  create_post author_id body = do
    slug ← unique_slug (slugify unicode body.title) none
    drawn ← gets (λ s. s.drawn)
    post ← insert_post (new_post author_id body slug drawn)
    ids ← ensure_tags uuid unicode now body.tags
    link_tags post.id ids
    tags ← gets (get_post_tags post.id)
    publish (post_created post.id author_id post.title post.slug post.content tags post.status)
    when (body.status == "published")
        (publish (post_published post.id author_id post.title post.slug))
    return (record { post = post; tags = tags })

-- `if (data.title)`: absent and empty are both falsy.
abbrev pub given : Option Text → Option Text
given none = none
given (some []) = none
given (some (c ∷ s)) = some (c ∷ s)

abbrev pub given_status : Option String → Option String
given_status none = none
given_status (some s) = if s == "" then none else some s

-- `userRole !== 'writer' && userRole !== 'admin'`, negated
abbrev pub may_write : Option String → Bool
may_write user_role = is_value user_role "writer" || is_value user_role "admin"

-- The checks that `updatePost` and `deletePost` make before they write.
unfoldable pub authorized_post : String → String → Option String → Exec PostDb Post
authorized_post id author_id user_role = do
  require (may_write user_role) (forbidden "Writer or admin role required")
  row ← gets (λ s. find (λ p. p.id == id) s.posts)
  existing ← found row
  require (existing.author_id == author_id || is_value user_role "admin")
      (forbidden "Not the author of this post")
  return existing

-- `updates.slug`, where a title is given
unfoldable pub next_slug : (ℕ → Text) → String → Option Text → Text → Exec PostDb Text
next_slug unicode id none old = return old
next_slug unicode id (some title) old = unique_slug (slugify unicode title) (some id)

-- UPDATE posts SET … WHERE id, refused where another row has the new slug (UNIQUE).
unfoldable pub update_row : String → Post → Exec PostDb Post
update_row id row s =
    if any (λ q. not (q.id == id) && q.slug == row.slug) s.posts
    then thrown other_error s
    else done row (record s { posts = update (λ p. p.id == id) (λ p. row) s.posts })

module _ (uuid : ℕ → String) (unicode : ℕ → Text) (now : ℕ) where
  -- The row with the `updates` put in.
  abbrev pub updated_post : Post → UpdatePost → Text → Post
  updated_post existing body slug = record existing {
    title = or_else (given body.title) existing.title;
    slug = slug;
    content = or_else (given body.content) existing.content;
    status = or_else (given_status body.status) existing.status;
    updated_at = now;
    published_at =
        if is_value (given_status body.status) "published" && not (is_some existing.published_at)
        then some now
        else existing.published_at;
  }

  -- `if (data.tags)`: an empty list is truthy.
  unfoldable pub replace_tags : String → Option (List Text) → Exec PostDb (Unit {0})
  replace_tags id none = return tt
  replace_tags id (some names) = do
    modify (λ s. record s { post_tags = delete (λ l. l.post_id == id) s.post_tags })
    ids ← ensure_tags uuid unicode now names
    link_tags id ids

  unfoldable pub update_post : String → String → UpdatePost → Option String → Exec PostDb PostView
  update_post id author_id body user_role = do
    existing ← authorized_post id author_id user_role
    slug ← next_slug unicode id (given body.title) existing.slug
    updated ← update_row id (updated_post existing body slug)
    replace_tags id body.tags
    tags ← gets (get_post_tags id)
    publish (post_updated id updated.title updated.slug updated.content tags updated.status)
    when (not (existing.status == "published") && updated.status == "published")
        (publish (post_published id updated.author_id updated.title updated.slug))
    return (record { post = updated; tags = tags })

-- DELETE FROM posts WHERE id; the links go with it (ON DELETE CASCADE).
abbrev pub delete_row : String → PostDb → PostDb
delete_row id s = record s {
  posts = delete (λ p. p.id == id) s.posts;
  post_tags = delete (λ l. l.post_id == id) s.post_tags;
}

unfoldable pub delete_post : String → String → Option String → Exec PostDb (Unit {0})
delete_post id author_id user_role = do
  existing ← authorized_post id author_id user_role
  modify (delete_row id)
  publish (post_deleted id)

-- services/post/src/subscribers/user-deleted.ts: what one message does.
unfoldable pub archive_posts : (now : ℕ) → String → PostDb → PostDb
archive_posts now user_id s = record s {
  posts =
      update (λ p. p.author_id == user_id) (λ p. record p { status = "archived"; updated_at = now })
        s.posts;
}
