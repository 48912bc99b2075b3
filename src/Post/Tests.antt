-- ===== src/Post/Tests.antt =====
-- Runs of the post service at concrete inputs, and its theorems at them.
use mathlib.Core.List.{Perm}
use mathlib.Core.List.Perm
use micro_blog.Base.{
  ℕ, zero, suc, ◌≤◌, ◌<◌, ◌≡◌, inl, inr, refl, String, Text, codes, true, false, Option, none, some,
  [], ◌∷◌, ◌++◌, any, find, map, All, length, string_eq, text_eq, text_eqb, ◌==◌, if◌then◌else◌,
  Bool-cases, Run, done, thrown, final, other_error, ◌>>=◌,
}
use micro_blog.Sql.{order_desc, page_of}
use micro_blog.Post.Slug.{slugify, to_lower_case, is_upper_ascii}
use micro_blog.Post.Slug.Decimal.{print}
use micro_blog.Post.Slug.Distinct.{candidate}
use micro_blog.Post.Slug.Shape.{IsSlugUnit, KeepsLower, slugify_shape}
use micro_blog.Post.Store.{
  Post, PostDb, blocks, publish, ensure_unique_slug, get_post_tags, ensure_tags, link_tags,
}
use micro_blog.Post.Service.{
  CreatePost, UpdatePost, PostView, visible, get_post_by_id, list_posts, unique_slug, slug_found,
  found, insert_post, when, enforce_post_visibility, new_post, create_post, authorized_post,
  next_slug, update_row, replace_tags, update_post, delete_post,
}
use micro_blog.Post.UniqueSlug.{ensure_unique_slug_first_free}
use micro_blog.Post.Routes.{Caller}
use micro_blog.Post.Ownership.{create, edit, change, change-kept}
use micro_blog.Post.Upkeep.{request, user_deleted, take_in}
use micro_blog.Post.Publication.{IsSound, empty_tables, take_in-IsSound}
use micro_blog.Post.Listing.{get_posts, get_posts-visible}
use micro_blog.Post.Creation.{IsCreation, create_post-IsCreation}
use micro_blog.Samples.{strokes, strokes_injective}
use micro_blog.Post.ReadBack.{create_post-get_post_by_id}
use micro_blog.Post.RepeatedTags.{create_post-repeated_tags}

-- All that a run of the service goes through.
service : Unit {0}
unfolding create_post update_post delete_post get_post_by_id authorized_post next_slug update_row
    replace_tags unique_slug slug_found found insert_post when enforce_post_visibility publish
    ensure_unique_slug get_post_tags ensure_tags link_tags slugify to_lower_case print text_eqb
    ◌>>=◌
service = tt

abbrev ids : ℕ → String
ids zero = "id0"
ids (suc zero) = "id1"
ids (suc (suc zero)) = "id2"
ids (suc (suc (suc n))) = "id3"

-- Unicode's tables, cut down to characters that have no case.
abbrev caseless : ℕ → Text
caseless c = if is_upper_ascii c then [] else c ∷ []

caseless-KeepsLower : KeepsLower caseless
caseless-KeepsLower c = elim (Bool-cases (is_upper_ascii c)) [
  | inl e ↦ rw e tt
  | inr e ↦ rw e (e, tt)
]

abbrev empty : PostDb
empty = record {
  posts = [];
  tags = [];
  post_tags = [];
  bus = record { up = true; log = [] };
  drawn = 0;
  order = λ names. names;
}

abbrev hello : CreatePost
hello = record {
  title = codes "Hello, World_!";
  content = codes "text";
  tags = codes "Go" ∷ [];
  status = "draft";
}

abbrev view_in : Run PostDb PostView → PostView → PostView
view_in (done v s) w = v
view_in (thrown e s) w = w

abbrev draft : Post
draft = new_post ids caseless 5 "ann" hello (codes "hello-world") 0

abbrev nothing : PostView
nothing = record { post = draft; tags = [] }

abbrev created : PostDb
created = record {
  posts = draft ∷ [];
  tags = record { id = "id1"; name = codes "go"; created_at = 5 } ∷ [];
  post_tags = record { post_id = "id0"; tag_id = "id1" } ∷ [];
  bus = empty.bus;
  drawn = 2;
  order = λ names. names;
}

slugify_run : slugify caseless (codes "  Hello, World_! ") ≡ codes "hello-world"
unfolding slugify
slugify_run = refl

slug_taken :
    ensure_unique_slug (draft ∷ []) (codes "hello-world") none ≡ some (codes "hello-world-1")
unfolding ensure_unique_slug text_eqb print
slug_taken = refl

create_run : (final (create_post ids caseless 5 "ann" hello empty)).posts ≡ draft ∷ []
unfolding service
create_run = refl

create_post-IsCreation_example :
    IsCreation ids caseless 5 "ann" hello empty
      (final (create_post ids caseless 5 "ann" hello empty))
      (view_in (create_post ids caseless 5 "ann" hello empty) nothing)
unfolding service
create_post-IsCreation_example =
    create_post-IsCreation ids caseless 5 "ann" hello empty
      (final (create_post ids caseless 5 "ann" hello empty))
      (view_in (create_post ids caseless 5 "ann" hello empty) nothing) refl

abbrev publication : UpdatePost
publication = record { title = none; content = none; tags = some []; status = some "published" }

ensure_unique_slug_first_free_example :
    (i : ℕ) × (i ≤ 1)
    × (ensure_unique_slug (draft ∷ []) (codes "hello-world") (some "id9")
        ≡ some (candidate (codes "hello-world") i))
    × (any (blocks (some "id9") (candidate (codes "hello-world") i)) (draft ∷ []) ≡ false)
    × ((m : ℕ)
        → m < i
        → any (blocks (some "id9") (candidate (codes "hello-world") m)) (draft ∷ []) ≡ true)
ensure_unique_slug_first_free_example =
    ensure_unique_slug_first_free (draft ∷ []) (codes "hello-world") (some "id9")

get_posts-visible_example :
    All
      (λ v. visible v.post (some "ann") (some "writer") ≡ true)
      (get_posts 1 20 (some "draft") (some "ann") (some "ann") (some "writer") created).posts
get_posts-visible_example =
    get_posts-visible 1 20 (some "draft") (some "ann") (some "ann") (some "writer") created

-- The listing shows the draft to its author, so that the theorem says something there.
get_posts_run :
    length (get_posts 1 20 (some "draft") (some "ann") (some "ann") (some "writer") created).posts
    ≡ 1
unfolding get_posts list_posts page_of order_desc
get_posts_run = refl

abbrev twice : CreatePost
twice = record hello { tags = codes "Go" ∷ codes "js" ∷ codes "GO" ∷ [] }

create_post-repeated_tags_example :
    (slug : Text) × (t : PostDb) × (create_post ids caseless 5 "ann" twice empty
      ≡ thrown other_error t)
    × (t.posts ≡ [] ++ new_post ids caseless 5 "ann" twice slug 0 ∷ [])
    × (t.bus ≡ empty.bus)
unfolding to_lower_case text_eqb
create_post-repeated_tags_example =
    create_post-repeated_tags ids caseless 5 "ann" twice empty refl refl

abbrev bob : Caller
bob = record { user_id = some "bob"; user_role = some "writer" }

take_in-IsSound_example : IsSound (
    take_in ids caseless
      (request bob (create 5 (some hello))
        ∷ request bob (edit 9 "id0" (some publication))
        ∷ user_deleted 10 "bob"
        ∷ request bob (edit 11 "id0" (some publication))
        ∷ [])
      (empty_tables (record { up = true; log = [] }) (λ names. names)))
take_in-IsSound_example =
    take_in-IsSound ids caseless (record { up = true; log = [] }) (λ names. names)
      (request bob (create 5 (some hello))
        ∷ request bob (edit 9 "id0" (some publication))
        ∷ user_deleted 10 "bob"
        ∷ request bob (edit 11 "id0" (some publication))
        ∷ [])

change-kept_example :
    find
      (λ q. q.id == "id0")
      (change ids caseless bob (edit 9 "id0" (some publication)) created).posts
    ≡ some draft
change-kept_example =
    change-kept ids caseless "id0" draft bob (edit 9 "id0" (some publication)) created refl refl

abbrev outsider : Option String
outsider = some "user"

slugify_shape_example :
    All IsSlugUnit (slugify caseless (codes "Über: A_b c"))
    × (length (slugify caseless (codes "Über: A_b c")) ≤ 200)
slugify_shape_example = slugify_shape caseless (codes "Über: A_b c") caseless-KeepsLower

create_post-get_post_by_id_example :
    (v w : PostView) × (t : PostDb) × (create_post strokes caseless 5 "ann" hello empty ≡ done v t)
    × (get_post_by_id v.post.id (some "ann") (some "writer") (record t { order = λ names. names })
        ≡ done w (record t { order = λ names. names }))
    × (w.post ≡ v.post)
    × (v.post.title ≡ hello.title)
    × (v.post.content ≡ hello.content)
    × (v.post.status ≡ hello.status)
    × Perm v.tags (map (to_lower_case caseless) hello.tags)
    × Perm w.tags (map (to_lower_case caseless) hello.tags)
unfolding text_eqb
create_post-get_post_by_id_example =
    create_post-get_post_by_id strokes strokes_injective caseless 5 "ann" (some "writer") hello
      empty (record { posts = tt; tags = tt; links = tt })
      (record { posts = λ k le. refl; tags = λ k le. refl; links = λ k le. refl }) refl refl refl
      refl Perm.refl (λ names. names) Perm.refl
