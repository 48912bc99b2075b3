-- ===== src/Post/Events.antt =====
-- What POST and PUT of a post leave in the table and on the bus.
use mathlib.Core.List.{append_assoc}
use micro_blog.Base.{
  ℕ, ◌≡◌, String, Text, string_eq, text_eq, ◌==◌, Bool, true, false, not, ◌&&◌, Option, List, [],
  ◌∷◌, ◌++◌, arith, if◌then◌else◌, Exec, done, gets, return, ◌>>=◌, ◌>>◌,
}
use micro_blog.Frames.{Keeps, Keeps-bind, keeps_rules}
use micro_blog.Sql.{update}
use micro_blog.Shared.Events.{Event, Bus, post_updated, post_published}
use micro_blog.Post.Store.{Post, PostDb, publish, insert_tag, ensure_tag, ensure_tags, link_tags}
use micro_blog.Post.Service.{UpdatePost, PostView, when, given, next_slug, updated_post}
use micro_blog.Post.Access.{IsAuthorized}

-- Tags are stored and linked without touching the posts or the bus.
module _ (ps : List Post) (b : Bus) where
  abbrev pub Same : PostDb → Type 0
  Same s = (s.posts ≡ ps) × (s.bus ≡ b)

  insert_tag-Same :
      (uuid : ℕ → String) (now : ℕ) (name : Text) → Keeps Same (insert_tag uuid now name)
  unfolding insert_tag
  insert_tag-Same uuid now name = record { at = λ s h. ground arith }

  ensure_tag-Same :
      (uuid : ℕ → String) (now : ℕ) (name : Text) → Keeps Same (ensure_tag uuid now name)
  unfolding ensure_tag
  ensure_tag-Same uuid now name = record {
    at = λ s h. ground (arith, (insert_tag-Same uuid now name).at s h);
  }

  pub ensure_tags-Same :
      (uuid : ℕ → String) (unicode : ℕ → Text) (now : ℕ) (names : List Text)
      → Keeps Same (ensure_tags uuid unicode now names)
  unfolding ensure_tags
  ensure_tags-Same uuid unicode now [] = search keeps_rules
  ensure_tags-Same uuid unicode now (name ∷ names) =
      Keeps-bind _ _ (ensure_tag-Same uuid now _)
        λ id. Keeps-bind _ _ (ensure_tags-Same uuid unicode now names) λ ids. search keeps_rules

  pub link_tags-Same : (post_id : String) (ids : List String) → Keeps Same (link_tags post_id ids)
  unfolding link_tags
  link_tags-Same post_id [] = record { at = λ s h. h }
  link_tags-Same post_id (id ∷ ids) = record { at = λ s h. ground arith }

pub kept {ℓ} :
    {S A : Type ℓ} {P : S → Type ℓ} (m : Exec S A) {s t : S} {a : A}
    → Keeps P m
    → m s ≡ done a t
    → P s
    → P t
kept {P} m {s} {t} k e h = rw e at (k.at s h)

pub publish-eq-done :
    (e : Event) (s t : PostDb)
    → publish e s ≡ done tt t
    → (t.posts ≡ s.posts) × (t.bus.log ≡ s.bus.log ++ e ∷ [])
unfolding publish
publish-eq-done e s t h = ground arith

-- The two messages that end an operation: the first always, the second on a condition.
pub announce-eq-done :
    (e e' : Event) (b : Bool) (v w : PostView) (s t : PostDb)
    → (do publish e; when b (publish e'); return {S = PostDb} v) s ≡ done w t
    → (t.posts ≡ s.posts) × (t.bus.log ≡ s.bus.log ++ e ∷ (if b then e' ∷ [] else [])) × (v ≡ w)
unfolding publish when ◌>>=◌
announce-eq-done e e' true v w s t h = ground (arith, append_assoc s.bus.log (e ∷ []) (e' ∷ []))
announce-eq-done e e' false v w s t h = ground arith

pub gets-eq-done {ℓ} :
    {S A : Type ℓ} (f : S → A) (s t : S) {a : A} → gets f s ≡ done a t → (f s ≡ a) × (s ≡ t)
unfolding gets
gets-eq-done f s t h = (cc, cc)

-- From `s`, with the view `v` as the result, to `t`: the rights, the row, the table and the messages.
pub record IsUpdate (uuid : ℕ → String) (unicode : ℕ → Text) (now : ℕ) (id author_id : String)
    (body : UpdatePost) (user_role : Option String) (s t : PostDb) (v : PostView) : Type 0 where
  pub existing : Post
  pub slug : Text
  pub allowed : IsAuthorized id author_id user_role s existing
  pub renamed : next_slug unicode id (given body.title) existing.slug s ≡ done slug s
  pub row : v.post ≡ updated_post uuid unicode now existing body slug
  pub table : t.posts ≡ update (λ p. p.id == id) (λ p. v.post) s.posts
  pub messages :
      t.bus.log
      ≡ s.bus.log
        ++ post_updated id v.post.title v.post.slug v.post.content v.tags v.post.status
          ∷ (if not (existing.status == "published") && v.post.status == "published"
              then post_published id v.post.author_id v.post.title v.post.slug ∷ []
              else [])
