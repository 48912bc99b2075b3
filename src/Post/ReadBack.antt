-- ===== src/Post/ReadBack.antt =====
-- POST /posts and then GET /posts/:id of services/post/src, where nothing stands in the way.
use micro_blog.Base.{
  ℕ, ◌+◌, ◌≤◌, ◌≡◌, inl, inr, refl, sym, ap, ◌∙◌, String, Text, string_eq, text_eq, ◌==◌, ==_iff,
  ==_refl, Bool, true, false, Option, none, some, List, [], ◌∷◌, ◌++◌, map, filter, arith, any,
  find, All, Bool-cases, done, truthy, return, ◌>>◌,
}
use mathlib.Core.List.{Perm, append-nil, append_assoc}
use micro_blog.Frames.{bind-step, gets_lem, require_ok}
use micro_blog.Sql.{insert_all}
use micro_blog.Sql.Laws.{any-append, find-append, find-none_of_any}
use micro_blog.Shared.Events.{Event, Bus, logged, send_up}
use micro_blog.Post.Slug.{slugify, to_lower_case}
use micro_blog.Post.Slug.Distinct.{candidate}
use micro_blog.Post.UniqueSlug.{ensure_unique_slug_first_free}
use micro_blog.Post.Store.{
  Post, Tag, PostTag, PostDb, link_clash, publish, link_tags, join_names, get_post_tags,
}
use micro_blog.Post.Service.{
  CreatePost, PostView, new_post, create_post, unique_slug, slug_found, when, may_write, visible,
  found, enforce_post_visibility, get_post_by_id, view_of,
}
use micro_blog.Post.Invariant.{IsWellFormed}
use micro_blog.Post.Tagging.{by_id, Named, AreFresh, ensure_tags-IsTagged}
use micro_blog.Post.RepeatedTags.{
  mem_text, mem_id, repeated, repeated_id, links_of, new_row_fits, insert_post_lem,
}

mem_name_of_mem_id :
    (i : String) (n : Text) (tags : List Tag) (tag : Tag) (ids : List String) (names : List Text)
    → find (by_id i) tags ≡ some tag
    → tag.name ≡ n
    → Named tags ids names
    → mem_id i ids ≡ true
    → mem_text n names ≡ true
mem_name_of_mem_id i n tags tag [] names f e h m = cc
mem_name_of_mem_id i n tags tag (j ∷ ids) [] f e h m = absurd h
mem_name_of_mem_id i n tags tag (j ∷ ids) (k ∷ names) f e ((other, g, o), h) m =
    elim (Bool-cases (j == i)) [
      | inl y ↦
          let same : j ≡ i = (==_iff j i).0 y in
          let found : find (by_id i) tags ≡ some other = rw same at g in
          let named : k ≡ n = cc in rw (named, ==_refl n) refl
      | inr f' ↦ ground (arith, mem_name_of_mem_id i n tags tag ids names f e h (rw f' at m))
    ]

-- Names that do not come twice have identifiers that do not.
not_repeated_id :
    (tags : List Tag) (ids : List String) (names : List Text)
    → Named tags ids names
    → repeated names ≡ false
    → repeated_id ids ≡ false
not_repeated_id tags [] names h r = refl
not_repeated_id tags (i ∷ ids) [] h r = absurd h
not_repeated_id tags (i ∷ ids) (n ∷ names) ((tag, f, e), h) r = elim (Bool-cases (mem_id i ids)) [
  | inl m ↦ let twice = mem_name_of_mem_id i n tags tag ids names f e h m in absurd (ground arith)
  | inr m ↦ rw m (not_repeated_id tags ids names h (ground arith))
]

still_unlinked :
    (post_id i : String) (ids : List String) (xs : List PostTag)
    → All (λ j. any (link_clash (record { post_id = post_id; tag_id = j })) xs ≡ false) ids
    → mem_id i ids ≡ false
    → All
        (λ j.
          any
            (link_clash (record { post_id = post_id; tag_id = j }))
            (xs ++ record { post_id = post_id; tag_id = i } ∷ [])
          ≡ false)
        ids
still_unlinked post_id i [] xs h m = tt
still_unlinked post_id i (j ∷ ids) xs (f, h) m = (
  any-append (link_clash (record { post_id = post_id; tag_id = j })) xs
      (record { post_id = post_id; tag_id = i }) f (ground arith),
  still_unlinked post_id i ids xs h (ground arith),
)

-- The links of a post that has none yet are all accepted.
insert_all-links :
    (post_id : String) (ids : List String) (xs : List PostTag)
    → All (λ i. any (link_clash (record { post_id = post_id; tag_id = i })) xs ≡ false) ids
    → repeated_id ids ≡ false
    → insert_all link_clash (links_of post_id ids) xs ≡ some (xs ++ links_of post_id ids)
unfolding insert_all
insert_all-links post_id [] xs h r = ap some (sym (append-nil xs))
insert_all-links post_id (i ∷ ids) xs (f, h) r =
    let row : PostTag = record { post_id = post_id; tag_id = i } in
    rw f (
      insert_all-links post_id ids (xs ++ row ∷ [])
        (still_unlinked post_id i ids xs h (ground arith)) (ground arith)
      ∙ ap some (append_assoc xs (row ∷ []) (links_of post_id ids)))

link_clash_other :
    (post_id i : String) (xs : List PostTag)
    → any (λ l. l.post_id == post_id) xs ≡ false
    → any (link_clash (record { post_id = post_id; tag_id = i })) xs ≡ false
link_clash_other post_id i [] h = refl
link_clash_other post_id i (l ∷ xs) h =
    ground
      (arith, ==_iff post_id l.post_id, ==_iff l.post_id post_id, link_clash_other post_id i xs)

link_tags_lem :
    (post_id : String) (ids : List String) (s : PostDb)
    → any (λ l. l.post_id == post_id) s.post_tags ≡ false
    → repeated_id ids ≡ false
    → link_tags post_id ids s
      ≡ done tt (record s { post_tags = s.post_tags ++ links_of post_id ids })
unfolding link_tags
link_tags_lem post_id [] s h r = rw (append-nil s.post_tags) refl
link_tags_lem post_id (i ∷ ids) s h r =
    rw (link_tags, insert_all-links post_id (i ∷ ids) s.post_tags (all_unlinked (i ∷ ids)) r) refl
  where
    all_unlinked :
        (js : List String)
        → All
            (λ j. any (link_clash (record { post_id = post_id; tag_id = j })) s.post_tags ≡ false)
            js
    all_unlinked [] = tt
    all_unlinked (j ∷ js) = (link_clash_other post_id j s.post_tags h, all_unlinked js)

links-filter :
    (post_id : String) (ids : List String) (xs : List PostTag)
    → any (λ l. l.post_id == post_id) xs ≡ false
    → filter (λ l. l.post_id == post_id) (xs ++ links_of post_id ids) ≡ links_of post_id ids
links-filter post_id [] [] h = refl
links-filter post_id (i ∷ ids) [] h = rw (==_refl post_id, links-filter post_id ids [] refl) refl
links-filter post_id ids (x ∷ xs) h = ground (arith, links-filter post_id ids xs)

join_names-links :
    (post_id : String) (tags : List Tag) (ids : List String) (names : List Text)
    → Named tags ids names
    → join_names (links_of post_id ids) tags ≡ names
unfolding join_names
join_names-links post_id tags [] [] h = refl
join_names-links post_id tags [] (n ∷ names) h = absurd h
join_names-links post_id tags (i ∷ ids) [] h = absurd h
join_names-links post_id tags (i ∷ ids) (n ∷ names) ((tag, f, e), h) =
    rw (join_names, f, e, join_names-links post_id tags ids names h) refl

announce_up :
    (e e' : Event) (b : Bool) (v : PostView) (s : PostDb)
    → s.bus.up ≡ true
    → (bus : Bus) × ((do publish e; when b (publish e'); return {S = PostDb} v) s
        ≡ done v (record s { bus = bus }))
unfolding publish when return
announce_up e e' b v s up =
    let sent = send_up (λ (s : PostDb). s.bus) (λ b s. record s { bus = b }) e s up in
    let s₁ : PostDb = record s { bus = logged e s.bus } in
    let again = send_up (λ (s : PostDb). s.bus) (λ b s. record s { bus = b }) e' s₁ up in
    elim (Bool-cases b) [
      | inl y ↦ (logged e' s₁.bus, rw y (bind-step _ _ s sent ∙ bind-step _ _ s₁ again))
      | inr n ↦ (s₁.bus, rw n (bind-step _ _ s sent ∙ bind-step _ _ s₁ refl))
    ]

-- No row has an identifier that the database is still to draw.
pub record IsFresh (uuid : ℕ → String) (s : PostDb) : Type 0 where
  pub posts : (k : ℕ) → s.drawn ≤ k → any (λ p. p.id == uuid k) s.posts ≡ false
  pub tags : AreFresh uuid s.drawn s.tags
  pub links : (k : ℕ) → s.drawn ≤ k → any (λ l. l.post_id == uuid k) s.post_tags ≡ false

any-id_sym :
    (id : String) (posts : List Post)
    → any (λ p. p.id == id) posts ≡ false
    → any (λ p. id == p.id) posts ≡ false
any-id_sym id [] h = refl
any-id_sym id (p ∷ posts) h = ground (arith, ==_iff id p.id, ==_iff p.id id, any-id_sym id posts)

visible_own :
    (post : Post) (user_role : Option String)
    → may_write user_role ≡ true
    → truthy (some post.author_id) ≡ true
    → visible post (some post.author_id) user_role ≡ true
visible_own post user_role m t = ground (arith, ==_refl post.author_id)

get_post_by_id_lem :
    (id : String) (user_id user_role : Option String) (post : Post) (s : PostDb)
    → find (λ p. p.id == id) s.posts ≡ some post
    → visible post user_id user_role ≡ true
    → get_post_by_id id user_id user_role s ≡ done (view_of post s) s
unfolding get_post_by_id found enforce_post_visibility return
get_post_by_id_lem id user_id user_role post s f h =
    bind-step _ _ s (gets_lem _ s)
    ∙ bind-step _ _ s (rw (f, found) refl)
    ∙ bind-step _ _ s (require_ok _ _ s h)
    ∙ gets_lem _ s

-- Whoever may write and sends a post whose tags do not come twice, up to case, gets it stored, and reads it back with
-- the title, the text and the status that were sent; the answer and what is read hold the same post, and each of
-- them all the tags that were sent, in lower case, in an order that the database chooses each time. The state is well
-- formed, the bus is up, and the identifiers that are drawn are new.
pub create_post-get_post_by_id :
    (uuid : ℕ → String) (injective : (m n : ℕ) → uuid m ≡ uuid n → m ≡ n) (unicode : ℕ → Text)
    (now : ℕ) (author_id : String) (user_role : Option String) (body : CreatePost) (s : PostDb)
    → IsWellFormed s
    → IsFresh uuid s
    → s.bus.up ≡ true
    → repeated (map (to_lower_case unicode) body.tags) ≡ false
    → may_write user_role ≡ true
    → truthy (some author_id) ≡ true
    → ((names : List Text) → Perm (s.order names) names)
    → (again : List Text → List Text) → ((names : List Text) → Perm (again names) names)
    → (v w : PostView) × (t : PostDb) × (create_post uuid unicode now author_id body s ≡ done v t)
      × (get_post_by_id v.post.id (some author_id) user_role (record t { order = again })
          ≡ done w (record t { order = again }))
      × (w.post ≡ v.post)
      × (v.post.title ≡ body.title)
      × (v.post.content ≡ body.content)
      × (v.post.status ≡ body.status)
      × Perm v.tags (map (to_lower_case unicode) body.tags)
      × Perm w.tags (map (to_lower_case unicode) body.tags)
unfolding create_post unique_slug slug_found return get_post_tags
create_post-get_post_by_id uuid injective unicode now author_id user_role body s well fresh up
      distinct may given reorders again reorders_again =
    let (i, le, runs, free, before) =
      ensure_unique_slug_first_free s.posts (slugify unicode body.title) none in
    let slug = candidate (slugify unicode body.title) i in
    let post = new_post uuid unicode now author_id body slug s.drawn in
    let s₁ : PostDb = record s { posts = s.posts ++ post ∷ []; drawn = s.drawn + 1 } in
    let new = fresh.posts s.drawn (omega arith) in
    let stored =
      insert_post_lem post s (new_row_fits post s.posts (any-id_sym post.id s.posts new) free) in
    let named : unique_slug (slugify unicode body.title) none s ≡ done slug s =
      rw (runs, unique_slug, slug_found) refl in
    let (ids, s₂, tagged, is) =
      ensure_tags-IsTagged uuid injective unicode now body.tags s₁ well.tags
        (λ k le. fresh.tags k (omega arith)) in
    let unlinked : any (λ l. l.post_id == post.id) s₂.post_tags ≡ false =
      ap (any (λ (l : PostTag). l.post_id == post.id)) is.links
      ∙ fresh.links s.drawn (omega arith) in
    let linked =
      link_tags_lem post.id ids s₂ unlinked (not_repeated_id s₂.tags ids _ is.named distinct) in
    let s₃ : PostDb = record s₂ { post_tags = s₂.post_tags ++ links_of post.id ids } in
    let v : PostView = view_of post s₃ in
    let joined : join_names (filter (λ l. l.post_id == post.id) s₃.post_tags) s₃.tags
        ≡ map (to_lower_case unicode) body.tags =
      ap (λ links. join_names links s₂.tags) (links-filter post.id ids s₂.post_tags unlinked)
      ∙ join_names-links post.id s₂.tags ids _ is.named in
    let (bus, sent) =
      announce_up _ _ (body.status == "published") v s₃ (ap (λ (b : Bus). b.up) is.bus ∙ up) in
    let t : PostDb = record s₃ { bus = bus } in
    let in_table : find (λ p. p.id == post.id) t.posts ≡ some post =
      ap (find (λ p. p.id == post.id)) is.posts
      ∙ find-append (λ p. p.id == post.id) s.posts post (find-none_of_any _ s.posts new)
          (==_refl post.id) in
    let t' : PostDb = record t { order = again } in
    (
      v,
      view_of post t',
      t,
      bind-step _ _ s named
          ∙ bind-step _ _ s (gets_lem _ s)
          ∙ bind-step _ _ s stored
          ∙ bind-step _ _ s₁ tagged
          ∙ bind-step _ _ s₂ linked
          ∙ bind-step _ _ s₃ (gets_lem _ s₃)
          ∙ sent,
      get_post_by_id_lem post.id (some author_id) user_role post t' in_table
          (visible_own post user_role may given),
      refl,
      refl,
      refl,
      refl,
      rw (is.order, joined) (reorders _),
      rw joined (reorders_again _),
    )
