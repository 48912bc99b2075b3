-- ===== src/Post/Others.antt =====
-- A post under the operations of services/post/src/services/post.ts on the other posts.
use micro_blog.Base.{
  ◌≡◌, ◌∙◌, inl, inr, ℕ, String, Text, string_eq, text_eq, ◌==◌, ==_iff, false, not, ◌&&◌, Option,
  some, List, arith, any, find, find_sound, Bool-cases, final,
}
use micro_blog.Frames.{Keeps, Keeps-bind, Keeps-bind_known, Keeps-modify, keeps_rules}
use micro_blog.Sql.Laws.{find-append_some, find-delete}
use micro_blog.Sql.Replace.{find-replace_other}
use micro_blog.Post.Store.{Post, post_clash}
use micro_blog.Post.Service.{
  CreatePost, UpdatePost, insert_post, create_post, update_row, updated_post, update_post,
  delete_post,
}
use micro_blog.Post.Access.{authorized_post-eq-done}
use micro_blog.Post.Untouched.{
  On, publish-On, when-On, ensure_tags-On, link_tags-On, replace_tags-On, unique_slug-On,
  next_slug-On, authorized_post-On,
}

-- The post with an identifier.
abbrev pub Is : String → Post → List Post → Type 0
Is id p posts = find (λ q. q.id == id) posts ≡ some p

insert_post-Is : (id : String) (p row : Post) → Keeps (On (Is id p)) (insert_post row)
unfolding insert_post
insert_post-Is id p row = record {
  at = λ s h. elim (Bool-cases (any (post_clash row) s.posts)) [
    | inl e ↦ rw (e, insert_post, final) h
    | inr e ↦ rw (e, insert_post, final) (find-append_some (λ (q : Post). q.id == id) s.posts row h)
  ];
}

update_row-Is :
    (id other : String) (p row : Post)
    → row.id ≡ other
    → (other == id) ≡ false
    → Keeps (On (Is id p)) (update_row other row)
unfolding update_row
update_row-Is id other p row named apart = record {
  at = λ s h. elim (Bool-cases (any (λ q. not (q.id == other) && q.slug == row.slug) s.posts)) [
    | inl e ↦ rw (e, update_row, final) h
    | inr e ↦
        rw (e, update_row, final)
          (find-replace_other (λ (q : Post). q.id == other) row (λ q. q.id == id)
              (λ q y. ground (arith, ==_iff q.id other, ==_iff q.id id, ==_iff other id))
              (ground (arith, ==_iff row.id id, ==_iff other id)) s.posts
            ∙ h)
  ];
}

module _ (uuid : ℕ → String) (unicode : ℕ → Text) (now : ℕ) (id : String) (p : Post) where
  pub create_post-Is :
      (author_id : String) (body : CreatePost)
      → Keeps (On (Is id p)) (create_post uuid unicode now author_id body)
  unfolding create_post
  create_post-Is author_id body =
      search
        (
          keeps_rules, unique_slug-On, insert_post-Is, ensure_tags-On, link_tags-On, publish-On,
          when-On,
        )
        depth 12

  -- The other posts under an update and a deletion.
  pub update_post-other :
      (other author_id : String) (body : UpdatePost) (user_role : Option String)
      → (other == id) ≡ false
      → Keeps (On (Is id p)) (update_post uuid unicode now other author_id body user_role)
  unfolding update_post
  update_post-other other author_id body user_role apart =
      Keeps-bind_known (λ existing. existing.id ≡ other) _ _
        (authorized_post-On (Is id p) other author_id user_role)
        (λ s existing t e. (==_iff existing.id other).0 (
          find_sound _ s.posts
            (authorized_post-eq-done other author_id user_role s t existing e).1.in_table))
        λ existing named.
          let row = λ (slug : Text).
            update_row-Is id other p (updated_post uuid unicode now existing body slug) named
              apart in
          search (keeps_rules, next_slug-On, row, replace_tags-On, publish-On, when-On) depth 12

  pub delete_post-other :
      (other author_id : String) (user_role : Option String)
      → (other == id) ≡ false
      → Keeps (On (Is id p)) (delete_post other author_id user_role)
  unfolding delete_post
  delete_post-other other author_id user_role apart =
      Keeps-bind _ _ (authorized_post-On (Is id p) other author_id user_role) λ _.
        Keeps-bind _ _
          (Keeps-modify _ λ s h.
            find-delete _ _ s.posts
              (λ q y. ground (arith, ==_iff q.id other, ==_iff q.id id, ==_iff other id))
            ∙ h)
          λ _. publish-On (Is id p) _
