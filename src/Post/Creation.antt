-- ===== src/Post/Creation.antt =====
-- POST /posts: what it leaves in the table and on the bus where it returns.
use micro_blog.Base.{
  ℕ, ◌≡◌, refl, sym, ap, String, Text, string_eq, text_eq, ◌==◌, Option, none, some, List, [], ◌∷◌,
  ◌++◌, arith, if◌then◌else◌, done, ◌>>=◌,
}
use micro_blog.Frames.{after_done}
use micro_blog.Shared.Events.{post_created, post_published}
use micro_blog.Post.Slug.{slugify}
use micro_blog.Post.Store.{Post, PostDb, ensure_unique_slug, get_post_tags}
use micro_blog.Post.Service.{
  CreatePost, PostView, unique_slug, slug_found, insert_post, new_post, create_post,
}
use micro_blog.Post.Events.{ensure_tags-Same, link_tags-Same, kept, announce-eq-done, gets-eq-done}

unique_slug-eq-done :
    (wanted : Text) (exclude : Option String) (slug : Text) (s t : PostDb)
    → unique_slug wanted exclude s ≡ done slug t
    → (ensure_unique_slug s.posts wanted exclude ≡ some slug) × (s ≡ t)
unfolding unique_slug slug_found ◌>>=◌
unique_slug-eq-done wanted exclude slug s t h = (ground arith, ground arith)

insert_post-eq-done :
    (row got : Post) (s t : PostDb)
    → insert_post row s ≡ done got t
    → (row ≡ got) × (t.posts ≡ s.posts ++ row ∷ []) × (t.bus ≡ s.bus)
unfolding insert_post
insert_post-eq-done row got s t h = (ground arith, ground arith, ground arith)

-- From `s`, with the view `v` as the result, to `t`: the slug, the row, the table and the messages.
pub record IsCreation (uuid : ℕ → String) (unicode : ℕ → Text) (now : ℕ) (author_id : String)
    (body : CreatePost) (s t : PostDb) (v : PostView) : Type 0 where
  pub slug : Text
  pub free : ensure_unique_slug s.posts (slugify unicode body.title) none ≡ some slug
  pub row : v.post ≡ new_post uuid unicode now author_id body slug s.drawn
  pub table : t.posts ≡ s.posts ++ v.post ∷ []
  pub messages :
      t.bus.log
      ≡ s.bus.log
        ++ post_created v.post.id author_id v.post.title v.post.slug v.post.content v.tags
            v.post.status
          ∷ (if body.status == "published"
              then post_published v.post.id author_id v.post.title v.post.slug ∷ []
              else [])

-- What a POST that returns has done: the post has the first free slug for its title and the fields of
-- the body, it was added to the table, a message `post_created` was sent, and after it
-- `post_published` exactly where the post is published.
pub create_post-IsCreation :
    (uuid : ℕ → String) (unicode : ℕ → Text) (now : ℕ) (author_id : String) (body : CreatePost)
    (s t : PostDb) (v : PostView)
    → create_post uuid unicode now author_id body s ≡ done v t
    → IsCreation uuid unicode now author_id body s t v
unfolding create_post
create_post-IsCreation uuid unicode now author_id body s t v h = after_done _ _ h λ slug s₁ e₁ h₁.
    after_done _ _ h₁ λ drawn s₂ e₂ h₂. after_done _ _ h₂ λ post s₃ e₃ h₃.
      after_done _ _ h₃ λ ids s₄ e₄ h₄. after_done _ _ h₄ λ linked s₅ e₅ h₅.
        after_done _ _ h₅ λ tags s₆ e₆ h₆.
          finish slug s₁ drawn s₂ post s₃ s₄ s₅ tags s₆ (unique_slug-eq-done _ none slug s s₁ e₁)
            (gets-eq-done _ s₁ s₂ e₂) (insert_post-eq-done _ post s₂ s₃ e₃)
            (kept _ (ensure_tags-Same s₃.posts s₃.bus uuid unicode now body.tags) e₄ (refl, refl))
            (kept _ (link_tags-Same s₄.posts s₄.bus post.id ids) e₅ (refl, refl))
            (gets-eq-done _ s₅ s₆ e₆) (announce-eq-done _ _ _ _ v s₆ t h₆)
  where
    finish :
        (slug : Text) (s₁ : PostDb) (drawn : ℕ) (s₂ : PostDb) (post : Post) (s₃ s₄ s₅ : PostDb)
        (tags : List Text) (s₆ : PostDb)
        → (ensure_unique_slug s.posts (slugify unicode body.title) none ≡ some slug) × (s ≡ s₁)
        → (s₁.drawn ≡ drawn) × (s₁ ≡ s₂)
        → (new_post uuid unicode now author_id body slug drawn ≡ post)
          × (s₃.posts ≡ s₂.posts ++ new_post uuid unicode now author_id body slug drawn ∷ [])
          × (s₃.bus ≡ s₂.bus)
        → (s₄.posts ≡ s₃.posts) × (s₄.bus ≡ s₃.bus)
        → (s₅.posts ≡ s₄.posts) × (s₅.bus ≡ s₄.bus)
        → (get_post_tags post.id s₅ ≡ tags) × (s₅ ≡ s₆)
        → (t.posts ≡ s₆.posts)
          × (t.bus.log
              ≡ s₆.bus.log
                ++ post_created post.id author_id post.title post.slug post.content tags post.status
                  ∷ (if body.status == "published"
                      then post_published post.id author_id post.title post.slug ∷ []
                      else []))
          × (record { post = post; tags = tags } ≡ v)
        → IsCreation uuid unicode now author_id body s t v
    finish slug s₁ drawn s₂ post s₃ s₄ s₅ tags s₆ a b c d e f g =
        let same : post ≡ v.post = ap (λ (w : PostView). w.post) g.2 in
        let tagged : tags ≡ v.tags = ap (λ (w : PostView). w.tags) g.2 in
        let number : s.drawn ≡ drawn = cc in
        record {
          slug = slug;
          free = a.0;
          row = rw (number, c.0) (sym same);
          table = rw (← same) cc;
          messages = rw (← same, ← tagged) cc;
        }
