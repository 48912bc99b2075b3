-- ===== src/Post/Untouched.antt =====
-- The steps of the operations of services/post/src/services/post.ts that leave the posts alone.
use micro_blog.Base.{
  inl, inr, ℕ, String, Text, string_eq, text_eq, ◌==◌, Bool, true, false, Option, none, some, List,
  [], ◌∷◌, any, find, Bool-cases, Option-cases, final, Exec, return, throw, map,
}
use micro_blog.Frames.{Keeps, Keeps-bind, Keeps-return, Keeps-modify, keeps_rules}
use micro_blog.Sql.{insert_all}
use micro_blog.Shared.Events.{Event}
use micro_blog.Post.Store.{
  Post, PostDb, tag_clash, link_clash, publish, insert_tag, ensure_tag, ensure_tags, link_tags,
}
use micro_blog.Post.Service.{
  found, slug_found, unique_slug, when, authorized_post, next_slug, replace_tags,
}

-- A property of the posts alone.
module _ (Q : List Post → Type 0) where
  abbrev pub On : PostDb → Type 0
  On s = Q s.posts

  pub publish-On : (e : Event) → Keeps On (publish e)
  unfolding publish
  publish-On e = record {
    at = λ s h. elim (Bool-cases s.bus.up) [
      | inl u ↦ rw (u, publish, final) h
      | inr u ↦ rw (u, publish, final) h
    ];
  }

  pub when-On : (b : Bool) (m : Exec PostDb (Unit {0})) → Keeps On m → Keeps On (when b m)
  unfolding when return
  when-On true m k = k
  when-On false m k = record { at = λ s h. h }

  insert_tag-On : (uuid : ℕ → String) (now : ℕ) (name : Text) → Keeps On (insert_tag uuid now name)
  unfolding insert_tag
  insert_tag-On uuid now name = record {
    at = λ s h.
        elim (Bool-cases
          (any (tag_clash (record { id = uuid s.drawn; name = name; created_at = now })) s.tags)) [
            | inl e ↦ rw (e, insert_tag, final) h
            | inr e ↦ rw (e, insert_tag, final) h
          ];
  }

  ensure_tag-On : (uuid : ℕ → String) (now : ℕ) (name : Text) → Keeps On (ensure_tag uuid now name)
  unfolding ensure_tag
  ensure_tag-On uuid now name = record {
    at = λ s h. elim (Option-cases (find (λ t. t.name == name) s.tags)) [
      | inl e ↦ rw (e, ensure_tag) ((insert_tag-On uuid now name).at s h)
      | inr (t, e) ↦ rw (e, ensure_tag, final) h
    ];
  }

  pub ensure_tags-On :
      (uuid : ℕ → String) (unicode : ℕ → Text) (now : ℕ) (names : List Text)
      → Keeps On (ensure_tags uuid unicode now names)
  unfolding ensure_tags
  ensure_tags-On uuid unicode now [] = Keeps-return _
  ensure_tags-On uuid unicode now (name ∷ names) =
      Keeps-bind _ _ (ensure_tag-On uuid now _)
        λ id. Keeps-bind _ _ (ensure_tags-On uuid unicode now names) λ ids. Keeps-return _

  pub link_tags-On : (post_id : String) (ids : List String) → Keeps On (link_tags post_id ids)
  unfolding link_tags
  link_tags-On post_id [] = record { at = λ s h. h }
  link_tags-On post_id (id ∷ ids) = record {
    at = λ s h.
        elim (Option-cases (
          insert_all link_clash
            (map (λ tag_id. record { post_id = post_id; tag_id = tag_id }) (id ∷ ids))
            s.post_tags)) [
              | inl n ↦ rw (n, link_tags, final) h
              | inr (ls, m) ↦ rw (m, link_tags, final) h
            ];
  }

  pub replace_tags-On :
      (uuid : ℕ → String) (unicode : ℕ → Text) (now : ℕ) (id : String) (names : Option (List Text))
      → Keeps On (replace_tags uuid unicode now id names)
  unfolding replace_tags
  replace_tags-On uuid unicode now id none = Keeps-return _
  replace_tags-On uuid unicode now id (some names) =
      Keeps-bind _ _ (Keeps-modify _ λ s h. h)
        λ _. Keeps-bind _ _ (ensure_tags-On uuid unicode now names) λ ids. link_tags-On id ids

  found-On : (o : Option Post) → Keeps On (found o)
  unfolding found throw return
  found-On none = record { at = λ s h. h }
  found-On (some p) = record { at = λ s h. h }

  slug_found-On : (o : Option Text) → Keeps On (slug_found o)
  unfolding slug_found throw return
  slug_found-On none = record { at = λ s h. h }
  slug_found-On (some t) = record { at = λ s h. h }

  pub unique_slug-On : (slug : Text) (exclude : Option String) → Keeps On (unique_slug slug exclude)
  unfolding unique_slug
  unique_slug-On slug exclude = record { at = λ s h. (slug_found-On _).at s h }

  pub next_slug-On :
      (unicode : ℕ → Text) (id : String) (title : Option Text) (old : Text)
      → Keeps On (next_slug unicode id title old)
  unfolding next_slug
  next_slug-On unicode id none old = Keeps-return _
  next_slug-On unicode id (some title) old = unique_slug-On _ _

  pub authorized_post-On :
      (id author_id : String) (user_role : Option String)
      → Keeps On (authorized_post id author_id user_role)
  unfolding authorized_post
  authorized_post-On id author_id user_role = search (keeps_rules, found-On) depth 9
