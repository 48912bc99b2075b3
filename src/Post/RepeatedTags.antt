-- ===== src/Post/RepeatedTags.antt =====
-- `createPost` of services/post/src/services/post.ts on a body that repeats a tag, up to case.
use micro_blog.Base.{
  ℕ, ◌+◌, ◌≡◌, inl, inr, refl, ap, ◌∙◌, String, Text, string_eq, text_eq, ◌==◌, ==_iff, ==_refl,
  Bool, true, false, ◌||◌, Option, none, some, List, [], ◌∷◌, ◌++◌, map, arith, any, find,
  if◌then◌else◌, Bool-cases, Option-cases, Failure, final, done, thrown, return, other_error,
}
use micro_blog.Frames.{
  after_done, after_thrown, Run-cases, bind-eq-thrown, bind-step, return-eq-done, gets_lem,
}
use micro_blog.Sql.{insert_all}
use micro_blog.Sql.Laws.{find-append, find-append_some}
use micro_blog.Post.Slug.{slugify, to_lower_case}
use micro_blog.Post.Store.{
  Post, Tag, PostTag, PostDb, link_clash, post_clash, insert_tag, ensure_tag, ensure_tags,
  link_tags, ensure_unique_slug,
}
use micro_blog.Post.Slug.Distinct.{candidate}
use micro_blog.Post.UniqueSlug.{ensure_unique_slug_first_free}
use micro_blog.Post.Events.{Same, ensure_tags-Same}
use micro_blog.Post.Service.{
  CreatePost, new_post, create_post, unique_slug, slug_found, insert_post,
}

module _ {ℓ} {A : Type ℓ} where
  any_append_last : (p : A → Bool) (xs : List A) (x : A) → p x ≡ true → any p (xs ++ x ∷ []) ≡ true
  any_append_last p [] x h = rw h refl
  any_append_last p (y ∷ xs) x h = ground (arith, any_append_last p xs x h)

  any_append_first :
      (p : A → Bool) (xs : List A) (x : A) → any p xs ≡ true → any p (xs ++ x ∷ []) ≡ true
  any_append_first p [] x h = cc
  any_append_first p (y ∷ xs) x h = ground (arith, any_append_first p xs x)

abbrev pub mem_text : Text → List Text → Bool
mem_text n ns = any (λ m. m == n) ns

abbrev pub mem_id : String → List String → Bool
mem_id i is = any (λ j. j == i) is

-- Whether an item comes twice.
abbrev pub repeated : List Text → Bool
repeated [] = false
repeated (n ∷ ns) = mem_text n ns || repeated ns

abbrev pub repeated_id : List String → Bool
repeated_id [] = false
repeated_id (i ∷ is) = mem_id i is || repeated_id is

abbrev has_name : Text → Tag → Bool
has_name n t = t.name == n

module _ (uuid : ℕ → String) (now : ℕ) where
  ensure_tag-keeps_found :
      (m n : Text) (s t : PostDb) (tag : Tag) (id : String)
      → find (has_name n) s.tags ≡ some tag
      → ensure_tag uuid now m s ≡ done id t
      → find (has_name n) t.tags ≡ some tag
  unfolding ensure_tag insert_tag
  ensure_tag-keeps_found m n s t tag id f h = ground (
    arith,
    find-append_some (has_name n) s.tags (record { id = uuid s.drawn; name = m; created_at = now })
        {y = tag},
  )

  ensure_tag-finds :
      (n : Text) (s t : PostDb) (id : String)
      → ensure_tag uuid now n s ≡ done id t
      → (tag : Tag) × (find (has_name n) t.tags ≡ some tag) × (tag.id ≡ id)
  unfolding ensure_tag insert_tag
  ensure_tag-finds n s t id h = elim (Option-cases (find (has_name n) s.tags)) [
    | inl e ↦ (
      record { id = uuid s.drawn; name = n; created_at = now },
      ground (
        arith,
        ==_refl n,
        find-append (has_name n) s.tags (record { id = uuid s.drawn; name = n; created_at = now }),
      ),
      ground arith,
    )
    | inr (tag, e) ↦ (tag, ground arith, ground arith)
  ]

  ensure_tag-thrown :
      (n : Text) (s t : PostDb) (e : Failure)
      → ensure_tag uuid now n s ≡ thrown e t
      → (e ≡ other_error)
  unfolding ensure_tag insert_tag
  ensure_tag-thrown n s t e h = ground arith

module _ (uuid : ℕ → String) (unicode : ℕ → Text) (now : ℕ) where
  abbrev lowered : List Text → List Text
  lowered names = map (to_lower_case unicode) names

  -- A name that is in the table, and comes in the list, has its identifier in the result.
  mem_id_of_mem_name :
      (names : List Text) (n : Text) (s t : PostDb) (tag : Tag) (ids : List String)
      → find (has_name n) s.tags ≡ some tag
      → ensure_tags uuid unicode now names s ≡ done ids t
      → mem_text n (lowered names) ≡ true
      → mem_id tag.id ids ≡ true
  unfolding ensure_tags
  mem_id_of_mem_name [] n s t tag ids f h m = cc
  mem_id_of_mem_name (name ∷ names) n s t tag ids f h m = after_done _ _ h λ id s₁ e₁ h₁.
      after_done _ _ h₁ λ rest s₂ e₂ h₂.
        here_or_later id s₁ rest s₂
          (ensure_tag-keeps_found uuid now (to_lower_case unicode name) n s s₁ tag id f e₁)
          (ensure_tag-finds uuid now (to_lower_case unicode name) s s₁ id e₁)
          (λ f' m'. mem_id_of_mem_name names n s₁ s₂ tag rest f' e₂ m')
          (return-eq-done (id ∷ rest) s₂ t h₂).0
    where
      here_or_later :
          (id : String) (s₁ : PostDb) (rest : List String) (s₂ : PostDb)
          → find (has_name n) s₁.tags ≡ some tag
          → (other : Tag) × (find (has_name (to_lower_case unicode name)) s₁.tags ≡ some other)
            × (other.id ≡ id)
          → (find (has_name n) s₁.tags ≡ some tag
              → mem_text n (lowered names) ≡ true
              → mem_id tag.id rest ≡ true)
          → (id ∷ rest) ≡ ids
          → mem_id tag.id ids ≡ true
      here_or_later id s₁ rest s₂ f' (other, g, same) ih e =
          elim (Bool-cases (to_lower_case unicode name == n)) [
            | inl eq ↦
                let found : find (has_name n) s₁.tags ≡ some other =
                  rw (← (==_iff (to_lower_case unicode name) n).0 eq) g in
                let named : id ≡ tag.id = cc in rw (← e, named, ==_refl tag.id) refl
            | inr ne ↦ rw (← e) (ground (arith, ih f' (rw ne at m)))
          ]

  repeated_id_of_repeated :
      (names : List Text) (s t : PostDb) (ids : List String)
      → ensure_tags uuid unicode now names s ≡ done ids t
      → repeated (lowered names) ≡ true
      → repeated_id ids ≡ true
  unfolding ensure_tags
  repeated_id_of_repeated [] s t ids h r = cc
  repeated_id_of_repeated (name ∷ names) s t ids h r = after_done _ _ h λ id s₁ e₁ h₁.
      after_done _ _ h₁ λ rest s₂ e₂ h₂.
        here_or_later id s₁ rest s₂
          (ensure_tag-finds uuid now (to_lower_case unicode name) s s₁ id e₁) e₂
          (repeated_id_of_repeated names s₁ s₂ rest e₂) (return-eq-done (id ∷ rest) s₂ t h₂).0
    where
      here_or_later :
          (id : String) (s₁ : PostDb) (rest : List String) (s₂ : PostDb)
          → (tag : Tag) × (find (has_name (to_lower_case unicode name)) s₁.tags ≡ some tag)
            × (tag.id ≡ id)
          → ensure_tags uuid unicode now names s₁ ≡ done rest s₂
          → (repeated (lowered names) ≡ true → repeated_id rest ≡ true)
          → (id ∷ rest) ≡ ids
          → repeated_id ids ≡ true
      here_or_later id s₁ rest s₂ (tag, g, same) e₂ ih e =
          elim (Bool-cases (mem_text (to_lower_case unicode name) (lowered names))) [
            | inl m ↦ rw (← e, ← same, mem_id_of_mem_name names _ s₁ s₂ tag rest g e₂ m) refl
            | inr m ↦ rw (← e) (ground (arith, ih (rw m at r)))
          ]

  ensure_tags-thrown :
      (names : List Text) (s t : PostDb) (e : Failure)
      → ensure_tags uuid unicode now names s ≡ thrown e t
      → (e ≡ other_error)
  unfolding ensure_tags return
  ensure_tags-thrown [] s t e h = cc
  ensure_tags-thrown (name ∷ names) s t e h =
      after_thrown _ _ h (ensure_tag-thrown uuid now (to_lower_case unicode name) s t e)
        λ id s₁ e₁ h₁. after_thrown _ _ h₁ (ensure_tags-thrown names s₁ t e) λ ids s₂ e₂ h₂. cc

-- One INSERT of links that repeats a tag is refused.
abbrev pub links_of : String → List String → List PostTag
links_of post_id ids = map (λ tag_id. record { post_id = post_id; tag_id = tag_id }) ids

refused_either_way :
    (b : Bool) {o : Option (List PostTag)} → o ≡ none → (if b then none else o) ≡ none
refused_either_way true e = refl
refused_either_way false e = e

insert_all-eq-none_of_linked :
    (post_id i : String) (ids : List String) (xs : List PostTag)
    → any (link_clash (record { post_id = post_id; tag_id = i })) xs ≡ true
    → mem_id i ids ≡ true
    → insert_all link_clash (links_of post_id ids) xs ≡ none
unfolding insert_all
insert_all-eq-none_of_linked post_id i [] xs h m = cc
insert_all-eq-none_of_linked post_id i (j ∷ ids) xs h m = elim (Bool-cases (j == i)) [
  | inl e ↦ let same = (==_iff j i).0 e in rw (same, h) refl
  | inr e ↦
      refused_either_way _
        (insert_all-eq-none_of_linked post_id i ids _ (any_append_first _ xs _ h) (rw e at m))
]

insert_all-eq-none_of_repeated :
    (post_id : String) (ids : List String) (xs : List PostTag)
    → repeated_id ids ≡ true
    → insert_all link_clash (links_of post_id ids) xs ≡ none
unfolding insert_all
insert_all-eq-none_of_repeated post_id [] xs h = cc
insert_all-eq-none_of_repeated post_id (i ∷ ids) xs h = elim (Bool-cases (mem_id i ids)) [
  | inl m ↦ refused_either_way _ (
      insert_all-eq-none_of_linked post_id i ids _
        (any_append_last _ xs _ (rw (==_refl post_id, ==_refl i) refl)) m)
  | inr m ↦ ground (
    arith,
    insert_all-eq-none_of_repeated post_id ids
        (xs ++ record { post_id = post_id; tag_id = i } ∷ []),
  )
]

link_tags-thrown :
    (post_id : String) (ids : List String) (s : PostDb)
    → repeated_id ids ≡ true
    → link_tags post_id ids s ≡ thrown other_error s
unfolding link_tags
link_tags-thrown post_id [] s r = cc
link_tags-thrown post_id (i ∷ ids) s r =
    rw (insert_all-eq-none_of_repeated post_id (i ∷ ids) s.post_tags r, link_tags) refl

-- A slug that no post has, and an identifier that none has, make a row that INSERT accepts.
pub new_row_fits :
    (row : Post) (posts : List Post)
    → any (λ p. row.id == p.id) posts ≡ false
    → any (λ p. p.slug == row.slug) posts ≡ false
    → any (post_clash row) posts ≡ false
new_row_fits row [] h k = refl
new_row_fits row (p ∷ posts) h k =
    ground (arith, new_row_fits row posts, ==_iff row.slug p.slug, ==_iff p.slug row.slug)

pub insert_post_lem :
    (row : Post) (s : PostDb)
    → any (post_clash row) s.posts ≡ false
    → insert_post row s ≡ done row (record s { posts = s.posts ++ row ∷ []; drawn = s.drawn + 1 })
unfolding insert_post
insert_post_lem row s h = rw (h, insert_post) refl

-- POST /posts with a tag that comes twice, up to case, throws an error that is no `AppError`, and
-- leaves the new post in the table with no message sent. The new identifier is assumed to be new.
pub create_post-repeated_tags :
    (uuid : ℕ → String) (unicode : ℕ → Text) (now : ℕ) (author_id : String) (body : CreatePost)
    (s : PostDb)
    → repeated (map (to_lower_case unicode) body.tags) ≡ true
    → any (λ p. uuid s.drawn == p.id) s.posts ≡ false
    → (slug : Text) × (t : PostDb) × (create_post uuid unicode now author_id body s
        ≡ thrown other_error t)
      × (t.posts ≡ s.posts ++ new_post uuid unicode now author_id body slug s.drawn ∷ [])
      × (t.bus ≡ s.bus)
unfolding create_post unique_slug slug_found return
create_post-repeated_tags uuid unicode now author_id body s r new =
    let (i, le, runs, free, before) =
      ensure_unique_slug_first_free s.posts (slugify unicode body.title) none in
    started (candidate (slugify unicode body.title) i) runs free
  where
    started :
        (slug : Text)
        → ensure_unique_slug s.posts (slugify unicode body.title) none ≡ some slug
        → any (λ p. p.slug == slug) s.posts ≡ false
        → (slug : Text) × (t : PostDb) × (create_post uuid unicode now author_id body s
            ≡ thrown other_error t)
          × (t.posts ≡ s.posts ++ new_post uuid unicode now author_id body slug s.drawn ∷ [])
          × (t.bus ≡ s.bus)
    started slug runs free =
        let post = new_post uuid unicode now author_id body slug s.drawn in
        let s₁ : PostDb = record s { posts = s.posts ++ post ∷ []; drawn = s.drawn + 1 } in
        let stored = insert_post_lem post s (new_row_fits post s.posts new free) in
        let named : unique_slug (slugify unicode body.title) none s ≡ done slug s =
          rw (runs, unique_slug, slug_found) refl in
        let same : Same s₁.posts s₁.bus (final (ensure_tags uuid unicode now body.tags s₁)) =
          (ensure_tags-Same s₁.posts s₁.bus uuid unicode now body.tags).at s₁ (refl, refl) in
        elim (Run-cases (ensure_tags uuid unicode now body.tags s₁)) [
          | inl (ids, t, e) ↦ (
            slug,
            t,
            bind-step _ _ s named
                ∙ bind-step _ _ s (gets_lem _ s)
                ∙ bind-step _ _ s stored
                ∙ bind-step _ _ s₁ e
                ∙ bind-eq-thrown _ _ t (
                    link_tags-thrown post.id ids t
                      (repeated_id_of_repeated uuid unicode now body.tags s₁ t ids e r)),
            (rw e at same).0,
            (rw e at same).1,
          )
          | inr (x, t, e) ↦ (
            slug,
            t,
            bind-step _ _ s named
                ∙ bind-step _ _ s (gets_lem _ s)
                ∙ bind-step _ _ s stored
                ∙ bind-eq-thrown _ _ s₁ e
                ∙ ap (λ z. thrown z t) (ensure_tags-thrown uuid unicode now body.tags s₁ t x e),
            (rw e at same).0,
            (rw e at same).1,
          )
        ]
