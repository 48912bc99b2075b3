-- ===== src/Post/Invariant.antt =====
-- The constraints of the three tables of the post service, and POST /posts.
use micro_blog.Base.{
  ℕ, ◌≡◌, String, Text, string_eq, text_eq, ◌==◌, ==_iff, Bool, true, false, Option, none, some,
  List, [], ◌∷◌, map, arith, find, Option-cases, inl, inr, Exec, final, modify, ◌>>=◌,
}
use micro_blog.Frames.{Keeps, Keeps-bind, Keeps-modify, keeps_rules}
use micro_blog.Sql.{insert, insert_all, delete}
use micro_blog.Sql.Distinct.{Distinct, insert-Distinct, insert_all-Distinct, Distinct-filter}
use micro_blog.Shared.Events.{Event, accept}
use micro_blog.Post.Store.{
  Post, Tag, PostTag, PostDb, post_clash, tag_clash, link_clash, publish, insert_tag, ensure_tag,
  ensure_tags, link_tags,
}
use micro_blog.Post.Service.{
  CreatePost, found, slug_found, unique_slug, insert_post, when, create_post, authorized_post,
  next_slug, replace_tags,
}

-- Identifiers, slugs and tag names are unique, and no post has a tag twice.
pub record IsWellFormed (s : PostDb) : Type 0 where
  pub posts : Distinct post_clash s.posts
  pub tags : Distinct tag_clash s.tags
  pub links : Distinct link_clash s.post_tags

pub post_clash_comm : (p q : Post) → post_clash p q ≡ post_clash q p
post_clash_comm p q =
    ground (arith, ==_iff p.id q.id, ==_iff q.id p.id, ==_iff p.slug q.slug, ==_iff q.slug p.slug)

pub tag_clash_comm : (t u : Tag) → tag_clash t u ≡ tag_clash u t
tag_clash_comm t u =
    ground (arith, ==_iff t.id u.id, ==_iff u.id t.id, ==_iff t.name u.name, ==_iff u.name t.name)

pub link_clash_comm : (l m : PostTag) → link_clash l m ≡ link_clash m l
link_clash_comm l m = ground (
  arith,
  ==_iff l.post_id m.post_id,
  ==_iff m.post_id l.post_id,
  ==_iff l.tag_id m.tag_id,
  ==_iff m.tag_id l.tag_id,
)

pub publish-IsWellFormed : (e : Event) → Keeps IsWellFormed (publish e)
unfolding publish
publish-IsWellFormed e = record {
  at = λ s h. elim (Option-cases (accept s.bus e)) [
    | inl n ↦ rw (n, publish, final) h
    | inr (b, m) ↦
        rw (m, publish, final) (record { posts = h.posts; tags = h.tags; links = h.links })
  ];
}

insert_tag-IsWellFormed :
    (uuid : ℕ → String) (now : ℕ) (name : Text) → Keeps IsWellFormed (insert_tag uuid now name)
unfolding insert_tag
insert_tag-IsWellFormed uuid now name = record {
  at = λ s h.
      let row : Tag = record { id = uuid s.drawn; name = name; created_at = now } in
      elim (Option-cases (insert tag_clash row s.tags)) [
        | inl n ↦ rw (n, insert_tag, final) h
        | inr (ts, m) ↦
            rw (m, insert_tag, final)
              (record {
                posts = h.posts;
                tags = insert-Distinct tag_clash tag_clash_comm row s.tags h.tags m;
                links = h.links;
              })
      ];
}

ensure_tag-IsWellFormed :
    (uuid : ℕ → String) (now : ℕ) (name : Text) → Keeps IsWellFormed (ensure_tag uuid now name)
unfolding ensure_tag
ensure_tag-IsWellFormed uuid now name = record {
  at = λ s h. elim (Option-cases (find (λ t. t.name == name) s.tags)) [
    | inl n ↦ rw (n, ensure_tag, final) ((insert_tag-IsWellFormed uuid now name).at s h)
    | inr (t, m) ↦ rw (m, ensure_tag, final) h
  ];
}

pub ensure_tags-IsWellFormed :
    (uuid : ℕ → String) (unicode : ℕ → Text) (now : ℕ) (names : List Text)
    → Keeps IsWellFormed (ensure_tags uuid unicode now names)
unfolding ensure_tags
ensure_tags-IsWellFormed uuid unicode now [] = search keeps_rules
ensure_tags-IsWellFormed uuid unicode now (name ∷ names) =
    Keeps-bind _ _ (ensure_tag-IsWellFormed uuid now _) λ id.
      Keeps-bind _ _ (ensure_tags-IsWellFormed uuid unicode now names) λ ids. search keeps_rules

pub link_tags-IsWellFormed :
    (post_id : String) (ids : List String) → Keeps IsWellFormed (link_tags post_id ids)
unfolding link_tags
link_tags-IsWellFormed post_id [] = record { at = λ s h. h }
link_tags-IsWellFormed post_id (id ∷ ids) = record {
  at = λ s h.
      let rows : List PostTag =
        map (λ tag_id. record { post_id = post_id; tag_id = tag_id }) (id ∷ ids) in
      elim (Option-cases (insert_all link_clash rows s.post_tags)) [
        | inl n ↦ rw (n, link_tags, final) h
        | inr (ls, m) ↦
            rw (m, link_tags, final)
              (record {
                posts = h.posts;
                tags = h.tags;
                links = insert_all-Distinct link_clash link_clash_comm rows s.post_tags h.links m;
              })
      ];
}

pub found-IsWellFormed : (o : Option Post) → Keeps IsWellFormed (found o)
unfolding found ◌>>=◌
found-IsWellFormed none = record { at = λ s h. h }
found-IsWellFormed (some p) = record { at = λ s h. h }

pub unique_slug-IsWellFormed :
    (slug : Text) (exclude : Option String) → Keeps IsWellFormed (unique_slug slug exclude)
unfolding unique_slug slug_found ◌>>=◌
unique_slug-IsWellFormed slug exclude = record { at = λ s h. go (_) h }
  where
    go : {s : PostDb} (o : Option Text) → IsWellFormed s → IsWellFormed (final (slug_found o s))
    go none h = h
    go (some t) h = h

pub insert_post-IsWellFormed : (row : Post) → Keeps IsWellFormed (insert_post row)
unfolding insert_post
insert_post-IsWellFormed row = record {
  at = λ s h. elim (Option-cases (insert post_clash row s.posts)) [
    | inl n ↦ rw (n, insert_post, final) h
    | inr (ps, m) ↦
        rw (m, insert_post, final)
          (record {
            posts = insert-Distinct post_clash post_clash_comm row s.posts h.posts m;
            tags = h.tags;
            links = h.links;
          })
  ];
}

pub when-IsWellFormed :
    (b : Bool) (m : Exec PostDb (Unit {0})) → Keeps IsWellFormed m → Keeps IsWellFormed (when b m)
unfolding when ◌>>=◌
when-IsWellFormed true m k = k
when-IsWellFormed false m k = record { at = λ s h. h }

-- POST /posts, on every branch, keeps identifiers, slugs and tag names unique, and links unrepeated.
pub create_post-IsWellFormed :
    (uuid : ℕ → String) (unicode : ℕ → Text) (now : ℕ) (author_id : String) (body : CreatePost)
    → Keeps IsWellFormed (create_post uuid unicode now author_id body)
unfolding create_post
create_post-IsWellFormed uuid unicode now author_id body =
    search
      (
        keeps_rules, unique_slug-IsWellFormed, insert_post-IsWellFormed, ensure_tags-IsWellFormed,
        link_tags-IsWellFormed, publish-IsWellFormed, when-IsWellFormed,
      )
      depth 12

pub authorized_post-IsWellFormed :
    (id author_id : String) (user_role : Option String)
    → Keeps IsWellFormed (authorized_post id author_id user_role)
unfolding authorized_post
authorized_post-IsWellFormed id author_id user_role =
    search (keeps_rules, found-IsWellFormed) depth 9

pub next_slug-IsWellFormed :
    (unicode : ℕ → Text) (id : String) (title : Option Text) (old : Text)
    → Keeps IsWellFormed (next_slug unicode id title old)
unfolding next_slug
next_slug-IsWellFormed unicode id none old = search keeps_rules
next_slug-IsWellFormed unicode id (some title) old = search unique_slug-IsWellFormed

delete_links-IsWellFormed :
    (id : String)
    → Keeps IsWellFormed
        (modify (λ s. record s { post_tags = delete (λ l. l.post_id == id) s.post_tags }))
delete_links-IsWellFormed id = Keeps-modify _ λ s h. record {
  posts = h.posts;
  tags = h.tags;
  links = Distinct-filter link_clash _ s.post_tags h.links;
}

pub replace_tags-IsWellFormed :
    (uuid : ℕ → String) (unicode : ℕ → Text) (now : ℕ) (id : String) (names : Option (List Text))
    → Keeps IsWellFormed (replace_tags uuid unicode now id names)
unfolding replace_tags
replace_tags-IsWellFormed uuid unicode now id none = search keeps_rules
replace_tags-IsWellFormed uuid unicode now id (some names) =
    search
      (keeps_rules, delete_links-IsWellFormed, ensure_tags-IsWellFormed, link_tags-IsWellFormed)
