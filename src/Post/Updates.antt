-- ===== src/Post/Updates.antt =====
-- The constraints of the tables under PUT and DELETE, and under the archiving of a deleted user's posts.
use micro_blog.Base.{
  ℕ, ◌≡◌, refl, String, Text, string_eq, text_eq, ◌==◌, ==_iff, Bool, false, not, ◌&&◌, Option,
  List, arith, any, Bool-cases, inl, inr, final, modify, find_sound,
}
use micro_blog.Frames.{Keeps, Keeps-modify, Keeps-bind_known, keeps_rules}
use micro_blog.Sql.{update}
use micro_blog.Sql.Replace.{Distinct-replace}
use micro_blog.Sql.Distinct.{Distinct, Distinct-filter, Distinct-update}
use micro_blog.Post.Store.{Post, PostDb, post_clash, link_clash}
use micro_blog.Post.Service.{
  UpdatePost, update_row, updated_post, update_post, delete_row, delete_post, archive_posts,
}
use micro_blog.Post.Access.{authorized_post-eq-done}
use micro_blog.Post.Invariant.{
  IsWellFormed, publish-IsWellFormed, authorized_post-IsWellFormed, next_slug-IsWellFormed,
  replace_tags-IsWellFormed, when-IsWellFormed,
}

-- The rows whose slug the new row may not have.
abbrev rival : String → Post → Post → Bool
rival id row q = not (q.id == id) && q.slug == row.slug

replaced-Distinct :
    (id : String) (row : Post)
    → row.id ≡ id
    → (xs : List Post) → any (rival id row) xs ≡ false
    → Distinct post_clash xs
    → Distinct post_clash (update (λ p. p.id == id) (λ p. row) xs)
replaced-Distinct id row named =
    Distinct-replace (λ p. p.id == id) row post_clash (rival id row)
      (λ x y h k. ground (arith, ==_iff x.id id, ==_iff y.id id, ==_iff x.id y.id))
      (λ x k r. ground (
        arith,
        ==_iff x.id id,
        ==_iff row.id x.id,
        ==_iff x.id row.id,
        ==_iff row.slug x.slug,
        ==_iff x.slug row.slug,
      ))

update_row-IsWellFormed :
    (id : String) (row : Post) → row.id ≡ id → Keeps IsWellFormed (update_row id row)
unfolding update_row
update_row-IsWellFormed id row named = record {
  at = λ s h. elim (Bool-cases (any (rival id row) s.posts)) [
    | inl e ↦ rw (e, update_row, final) h
    | inr e ↦
        rw (e, update_row, final)
          (record {
            posts = replaced-Distinct id row named s.posts e h.posts;
            tags = h.tags;
            links = h.links;
          })
  ];
}

delete_row-IsWellFormed : (id : String) → Keeps IsWellFormed (modify (delete_row id))
delete_row-IsWellFormed id = Keeps-modify _ λ s h. record {
  posts = Distinct-filter post_clash _ s.posts h.posts;
  tags = h.tags;
  links = Distinct-filter link_clash _ s.post_tags h.links;
}

-- PUT /posts/:id, on every branch, keeps identifiers, slugs and tag names unique, and links unrepeated.
pub update_post-IsWellFormed :
    (uuid : ℕ → String) (unicode : ℕ → Text) (now : ℕ) (id author_id : String) (body : UpdatePost)
    (user_role : Option String)
    → Keeps IsWellFormed (update_post uuid unicode now id author_id body user_role)
unfolding update_post
update_post-IsWellFormed uuid unicode now id author_id body user_role =
    Keeps-bind_known (λ existing. existing.id ≡ id) _ _
      (authorized_post-IsWellFormed id author_id user_role)
      (λ s existing t e. (==_iff existing.id id).0 (
        find_sound _ s.posts
          (authorized_post-eq-done id author_id user_role s t existing e).1.in_table))
      λ existing named.
        let row = λ (slug : Text).
          update_row-IsWellFormed id (updated_post uuid unicode now existing body slug) named in
        search
          (
            keeps_rules, next_slug-IsWellFormed, row, replace_tags-IsWellFormed,
            publish-IsWellFormed, when-IsWellFormed,
          )
          depth 12

-- So does DELETE /posts/:id.
pub delete_post-IsWellFormed :
    (id author_id : String) (user_role : Option String)
    → Keeps IsWellFormed (delete_post id author_id user_role)
unfolding delete_post
delete_post-IsWellFormed id author_id user_role =
    search
      (keeps_rules, authorized_post-IsWellFormed, delete_row-IsWellFormed, publish-IsWellFormed)
      depth 9

-- And so does the archiving of a deleted user's posts.
pub archive_posts-IsWellFormed :
    (now : ℕ) (user_id : String) (s : PostDb)
    → IsWellFormed s
    → IsWellFormed (archive_posts now user_id s)
unfolding archive_posts
archive_posts-IsWellFormed now user_id s h = record {
  posts = Distinct-update post_clash _ _ (λ x y. (refl, refl)) s.posts h.posts;
  tags = h.tags;
  links = h.links;
}
