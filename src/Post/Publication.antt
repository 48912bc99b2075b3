-- ===== src/Post/Publication.antt =====
-- When a post of services/post/src was published, and what is unique, after whatever requests.
use micro_blog.Base.{
  ◌≡◌, ◌≢◌, inl, inr, refl, ℕ, String, Text, string_eq, text_eq, ◌==◌, ==_iff, Bool, true, false,
  not, ◌&&◌, ◌||◌, Option, none, List, [], ◌∷◌, arith, any, find-All, All, All-append, All-imp,
  All-filter, is_some, Bool-cases, Option-cases, final, modify, truthy, or_else,
}
use micro_blog.Frames.{
  Keeps, Keeps-bind, Keeps-bind_given, Keeps-modify, Keeps-return, Keeps-either, keeps_rules,
}
use micro_blog.Sql.{update}
use micro_blog.Sql.Distinct.{Distinct}
use micro_blog.Shared.Events.{Bus}
use micro_blog.Shared.Requests.{Keeps-parsed}
use micro_blog.Post.Store.{Post, PostDb, post_clash, tag_clash}
use micro_blog.Post.Service.{
  CreatePost, UpdatePost, new_post, insert_post, create_post, given_status, updated_post,
  update_row, update_post, delete_row, delete_post, archive_posts, may_write,
}
use micro_blog.Post.Access.{authorized_post-eq-done}
use micro_blog.Post.Untouched.{
  On, publish-On, when-On, ensure_tags-On, link_tags-On, replace_tags-On, unique_slug-On,
  next_slug-On, authorized_post-On,
}
use micro_blog.Post.Routes.{Caller, post_route, put_route, delete_route}
use micro_blog.Post.Ownership.{Change, create, edit, remove, change}
use micro_blog.Post.Upkeep.{Input, request, user_deleted, take_in, take_in-IsWellFormed}

abbrev pub is_dated : Post → Bool
is_dated p = not (p.status == "published") || is_some p.published_at

abbrev AreDated : List Post → Type 0
AreDated posts = All (λ p. is_dated p ≡ true) posts

AreDated-update :
    (q : Post → Bool) (f : Post → Post) (posts : List Post)
    → ((p : Post) → is_dated (f p) ≡ true)
    → AreDated posts
    → AreDated (update q f posts)
AreDated-update q f [] dated h = tt
AreDated-update q f (x ∷ posts) dated (d, h) = elim (Bool-cases (q x)) [
  | inl y ↦ rw y (dated x, AreDated-update q f posts dated h)
  | inr n ↦ rw n (d, AreDated-update q f posts dated h)
]

insert_post-On : (row : Post) → is_dated row ≡ true → Keeps (On AreDated) (insert_post row)
unfolding insert_post
insert_post-On row d = record {
  at = λ s h. elim (Bool-cases (any (post_clash row) s.posts)) [
    | inl e ↦ rw (e, insert_post, final) h
    | inr e ↦ rw (e, insert_post, final) (All-append _ s.posts (row ∷ []) h (d, tt))
  ];
}

update_row-On :
    (id : String) (row : Post) → is_dated row ≡ true → Keeps (On AreDated) (update_row id row)
unfolding update_row
update_row-On id row d = record {
  at = λ s h. elim (Bool-cases (any (λ q. not (q.id == id) && q.slug == row.slug) s.posts)) [
    | inl e ↦ rw (e, update_row, final) h
    | inr e ↦
        rw (e, update_row, final) (AreDated-update (λ p. p.id == id) (λ p. row) s.posts (λ p. d) h)
  ];
}

module _ (uuid : ℕ → String) (unicode : ℕ → Text) (now : ℕ) where
  new_post-is_dated :
      (author_id : String) (body : CreatePost) (slug : Text) (n : ℕ)
      → is_dated (new_post uuid unicode now author_id body slug n) ≡ true
  new_post-is_dated author_id body slug n = elim (Bool-cases (body.status == "published")) [
    | inl y ↦ rw y refl
    | inr f ↦ rw f refl
  ]

  updated_post-is_dated :
      (p : Post) (body : UpdatePost) (slug : Text)
      → is_dated p ≡ true
      → is_dated (updated_post uuid unicode now p body slug) ≡ true
  updated_post-is_dated p body slug d = elim (Option-cases (given_status body.status)) [
    | inl n ↦ rw n d
    | inr (st, e) ↦ rw e (ground arith)
  ]

  create_post-On :
      (author_id : String) (body : CreatePost)
      → Keeps (On AreDated) (create_post uuid unicode now author_id body)
  unfolding create_post
  create_post-On author_id body =
      let row = λ (slug : Text) (n : ℕ).
        insert_post-On (new_post uuid unicode now author_id body slug n)
          (new_post-is_dated author_id body slug n) in
      search
        (
          keeps_rules,
          unique_slug-On AreDated,
          row,
          ensure_tags-On AreDated,
          link_tags-On AreDated,
          publish-On AreDated,
          when-On AreDated,
        )
        depth 12

  update_post-On :
      (id author_id : String) (body : UpdatePost) (user_role : Option String)
      → Keeps (On AreDated) (update_post uuid unicode now id author_id body user_role)
  unfolding update_post
  update_post-On id author_id body user_role =
      Keeps-bind_given (λ existing. is_dated existing ≡ true) _ _
        (authorized_post-On AreDated id author_id user_role)
        (λ s existing t h e.
          find-All _ _ s.posts h
            (authorized_post-eq-done id author_id user_role s t existing e).1.in_table)
        λ existing d.
          let row = λ (slug : Text).
            update_row-On id (updated_post uuid unicode now existing body slug)
              (updated_post-is_dated existing body slug d) in
          search
            (
              keeps_rules,
              next_slug-On AreDated,
              row,
              replace_tags-On AreDated,
              publish-On AreDated,
              when-On AreDated,
            )
            depth 12

delete_row-On : (id : String) → Keeps (On AreDated) (modify (delete_row id))
delete_row-On id = Keeps-modify _ λ s h. All-filter _ _ s.posts h

delete_post-On :
    (id author_id : String) (user_role : Option String)
    → Keeps (On AreDated) (delete_post id author_id user_role)
unfolding delete_post
delete_post-On id author_id user_role =
    search (keeps_rules, authorized_post-On AreDated, delete_row-On, publish-On AreDated) depth 9

-- The posts stay dated under whatever comes.
module _ (uuid : ℕ → String) (unicode : ℕ → Text) where
  change-On :
      (caller : Caller) (c : Change) (s : PostDb)
      → AreDated s.posts
      → AreDated (change uuid unicode caller c s).posts
  unfolding change post_route put_route delete_route
  change-On caller (create now body) s h =
      (Keeps-either (truthy caller.user_id) _ _
          (Keeps-either (not (may_write caller.user_role)) _ _ (Keeps-return _) (
            Keeps-bind _ _ (Keeps-parsed body) λ b.
              Keeps-bind _ _ (create_post-On uuid unicode now (or_else caller.user_id "") b)
                λ p. Keeps-return _))
          (Keeps-return _)).at
        s h
  change-On caller (edit now id body) s h =
      (Keeps-either (truthy caller.user_id) _ _
          (Keeps-bind _ _ (Keeps-parsed body) λ b.
            Keeps-bind _ _
              (update_post-On uuid unicode now id (or_else caller.user_id "") b caller.user_role)
              λ p. Keeps-return _)
          (Keeps-return _)).at
        s h
  change-On caller (remove id) s h =
      (Keeps-either (truthy caller.user_id) _ _
          (Keeps-bind _ _ (delete_post-On id (or_else caller.user_id "") caller.user_role)
            λ p. Keeps-return _)
          (Keeps-return _)).at
        s h

  take_in-On :
      (inputs : List Input) (s : PostDb)
      → AreDated s.posts
      → AreDated (take_in uuid unicode inputs s).posts
  unfolding take_in archive_posts
  take_in-On [] s h = h
  take_in-On (request caller c ∷ rest) s h = take_in-On rest _ (change-On caller c s h)
  take_in-On (user_deleted now user_id ∷ rest) s h = take_in-On rest _ (
      AreDated-update (λ p. p.author_id == user_id)
        (λ p. record p { status = "archived"; updated_at = now }) s.posts (λ p. refl) h)

Distinct-weaken :
    {A : Type 0} (p q : A → A → Bool) (xs : List A)
    → ((x y : A) → p x y ≡ false → q x y ≡ false)
    → Distinct p xs
    → Distinct q xs
Distinct-weaken p q [] h d = tt
Distinct-weaken {A} p q (x ∷ xs) h (new, d) = (others xs new, Distinct-weaken p q xs h d)
  where
    others : (ys : List A) → any (p x) ys ≡ false → any (q x) ys ≡ false
    others [] n = refl
    others (y ∷ ys) n = ground (arith, h x y, others ys)

abbrev pub empty_tables : Bus → (List Text → List Text) → PostDb
empty_tables b order = record {
  posts = [];
  tags = [];
  post_tags = [];
  bus = b;
  drawn = 0;
  order = order;
}

pub record IsSound (s : PostDb) : Type 0 where
  pub ids : Distinct (λ p q. p.id == q.id) s.posts
  pub slugs : Distinct (λ p q. p.slug == q.slug) s.posts
  pub names : Distinct (λ t u. t.name == u.name) s.tags
  pub dated : All (λ p. p.status ≡ "published" → p.published_at ≢ none) s.posts

-- Whatever requests and messages the post service gets from empty tables on, every published post has a time of
-- publication, and no two posts have the same identifier or the same
-- slug, and no two tags the same name.
pub take_in-IsSound :
    (uuid : ℕ → String) (unicode : ℕ → Text) (b : Bus) (order : List Text → List Text)
    (inputs : List Input)
    → IsSound (take_in uuid unicode inputs (empty_tables b order))
take_in-IsSound uuid unicode b order inputs =
    let s = take_in uuid unicode inputs (empty_tables b order) in
    let well =
      take_in-IsWellFormed uuid unicode inputs (empty_tables b order)
        (record { posts = tt; tags = tt; links = tt }) in
    record {
      ids = Distinct-weaken post_clash _ s.posts (λ p q h. ground arith) well.posts;
      slugs = Distinct-weaken post_clash _ s.posts (λ p q h. ground arith) well.posts;
      names = Distinct-weaken tag_clash _ s.tags (λ t u h. ground arith) well.tags;
      dated =
          All-imp (λ p. is_dated p ≡ true) (λ p. p.status ≡ "published" → p.published_at ≢ none)
            (λ p (d : is_dated p ≡ true) published. ground (arith, ==_iff p.status "published"))
            s.posts (take_in-On uuid unicode inputs (empty_tables b order) tt);
    }
