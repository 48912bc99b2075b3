-- ===== src/Post/Store.antt =====
-- The tables of services/post/src/db/schema.ts, the statements on them that can fail, and the
-- helpers of services/post/src/services/post.ts that read and fill them.
use micro_blog.Base.{
  ℕ, zero, suc, ◌+◌, String, Text, string_eq, text_eq, ◌==◌, Bool, not, ◌&&◌, ◌||◌, Option, none,
  some, List, [], ◌∷◌, ◌++◌, map, find, filter, length, truthy, is_value, if◌then◌else◌, Exec, done,
  thrown, other_error, return, ◌>>=◌,
}
use micro_blog.Sql.{insert, insert_all}
use micro_blog.Shared.Events.{Event, Bus, send}
use micro_blog.Post.Slug.{to_lower_case, dash}
use micro_blog.Post.Slug.Decimal.{print}

pub record Post : Type 0 where
  pub id : String
  pub author_id : String
  pub title : Text
  pub slug : Text
  pub content : Text
  pub status : String
  pub created_at : ℕ
  pub updated_at : ℕ
  pub published_at : Option ℕ

pub record Tag : Type 0 where
  pub id : String
  pub name : Text
  pub created_at : ℕ

pub record PostTag : Type 0 where
  pub post_id : String
  pub tag_id : String

-- The database of the service, its connection to the bus, and how many identifiers the database has
-- drawn (`defaultRandom`). `order` is the order that PostgreSQL gives the rows of a join, which no query asks for.
pub record PostDb : Type 0 where
  pub posts : List Post
  pub tags : List Tag
  pub post_tags : List PostTag
  pub bus : Bus
  pub drawn : ℕ
  pub order : List Text → List Text

-- PRIMARY KEY (id), UNIQUE (slug)
abbrev pub post_clash : Post → Post → Bool
post_clash p q = p.id == q.id || p.slug == q.slug

-- PRIMARY KEY (id), UNIQUE (name)
abbrev pub tag_clash : Tag → Tag → Bool
tag_clash t u = t.id == u.id || t.name == u.name

-- PRIMARY KEY (post_id, tag_id)
abbrev pub link_clash : PostTag → PostTag → Bool
link_clash l m = l.post_id == m.post_id && l.tag_id == m.tag_id

unfoldable pub publish : Event → Exec PostDb (Unit {0})
publish = send (λ s. s.bus) (λ b s. record s { bus = b })

-- The WHERE of `ensureUniquSlug`.
abbrev pub blocks : Option String → Text → Post → Bool
blocks exclude candidate p =
    if truthy exclude
    then p.slug == candidate && not (is_value exclude p.id)
    else p.slug == candidate

-- Its loop, with fuel: `none` means that the fuel ran out.
unfoldable pub unique_slug_loop :
    (fuel : ℕ) → List Post → Option String → (slug candidate : Text) → (counter : ℕ) → Option Text
unique_slug_loop zero posts exclude slug candidate counter = none
unique_slug_loop (suc fuel) posts exclude slug candidate counter =
    elim (find (blocks exclude candidate) posts) [
      | none ↦ some candidate
      | some existing ↦
          unique_slug_loop fuel posts exclude slug (slug ++ dash ∷ print counter) (counter + 1)
    ]

-- One round more than there are posts is enough.
unfoldable pub ensure_unique_slug : List Post → Text → Option String → Option Text
unfolding unique_slug_loop
ensure_unique_slug posts slug exclude =
    unique_slug_loop (suc (length posts)) posts exclude slug slug 1

-- `select({ name }).from(postTags).innerJoin(tags, …)`, over the links of one post and in their order
unfoldable pub join_names : List PostTag → List Tag → List Text
join_names [] tags = []
join_names (l ∷ ls) tags = elim (find (λ t. t.id == l.tag_id) tags) [
  | none ↦ join_names ls tags
  | some t ↦ t.name ∷ join_names ls tags
]

unfoldable pub get_post_tags : String → PostDb → List Text
unfolding join_names
get_post_tags post_id s =
    s.order (join_names (filter (λ l. l.post_id == post_id) s.post_tags) s.tags)

module _ (uuid : ℕ → String) (now : ℕ) where
  unfoldable pub insert_tag : Text → Exec PostDb String
  insert_tag name s =
      let row : Tag = record { id = uuid s.drawn; name = name; created_at = now } in
      elim (insert tag_clash row s.tags) [
        | none ↦ thrown other_error s
        | some tags ↦ done (uuid s.drawn) (record s { tags = tags; drawn = s.drawn + 1 })
      ]

  -- One round of the loop of `ensureTags`; `name` is in lower case.
  unfoldable pub ensure_tag : Text → Exec PostDb String
  unfolding insert_tag
  ensure_tag name s = elim (find (λ t. t.name == name) s.tags) [
    | none ↦ insert_tag name s
    | some t ↦ done t.id s
  ]

module _ (uuid : ℕ → String) (unicode : ℕ → Text) (now : ℕ) where
  unfoldable pub ensure_tags : List Text → Exec PostDb (List String)
  unfolding ensure_tag
  ensure_tags [] = return []
  ensure_tags (name ∷ names) = do
    id ← ensure_tag uuid now (to_lower_case unicode name)
    ids ← ensure_tags names
    return (id ∷ ids)

-- `insert(postTags).values(tagIds.map(…))`, skipped where there is no tag
unfoldable pub link_tags : String → List String → Exec PostDb (Unit {0})
unfolding insert_all
link_tags post_id [] s = done tt s
link_tags post_id (id ∷ ids) s =
    elim (insert_all link_clash
      (map (λ tag_id. record { post_id = post_id; tag_id = tag_id }) (id ∷ ids)) s.post_tags) [
        | none ↦ thrown other_error s
        | some links ↦ done tt (record s { post_tags = links })
      ]
