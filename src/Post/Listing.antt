-- ===== src/Post/Listing.antt =====
-- GET /posts of services/post/src/routes/posts.ts, and who may see the posts that it lists.
use micro_blog.Base.{
  refl, Bool-cases, ◌⊎◌, inl, inr, ℕ, ◌-◌, ◌*◌, ◌≡◌, String, string_eq, ◌==◌, ==_iff, Bool, true,
  false, not, ◌&&◌, ◌||◌, Option, none, some, arith, All, All-take, All-drop, All-map, filter-All,
  truthy, is_value, or_else,
}
use micro_blog.Sql.{page_of}
use micro_blog.Sql.Sorting.{All-order_desc}
use micro_blog.Post.Store.{Post, PostDb}
use micro_blog.Post.Service.{PostPage, visible, effective, listed, list_posts}

-- `allStatuses` of the route.
abbrev pub all_statuses : (status author_id user_id user_role : Option String) → Bool
all_statuses status author_id user_id user_role =
    (is_value user_role "admin" && not (truthy status))
    || (is_value user_role "writer" && truthy author_id && is_value user_id (or_else author_id ""))

unfoldable pub get_posts :
    (page limit : ℕ) (status author_id user_id user_role : Option String) → PostDb → PostPage
get_posts page limit status author_id user_id user_role =
    list_posts page limit status author_id (all_statuses status author_id user_id user_role) user_id
      user_role

-- A listed post has the author that the query asks for.
listed-author :
    (q : Option String × Bool) (a : String) (p : Post)
    → listed q (some a) p ≡ true
    → truthy (some a) ≡ true
    → (a == p.author_id) ≡ true
listed-author (status, all) a p h t = ground arith

-- One that is not published is listed only where its status, or every status, is asked for.
listed-hidden :
    (status author_id : Option String) (all : Bool) (p : Post)
    → (p.status == "published") ≡ false
    → listed (status, all) author_id p ≡ true
    → ((truthy status && not (is_value status "published")) ≡ true) ⊎ (all ≡ true)
listed-hidden none author_id all p e h = ground arith
listed-hidden (some st) author_id all p e h =
    ground (arith, ==_iff p.status st, ==_iff st "published")

-- Who is known to ask for hidden posts, of those who are no admin.
abbrev asks_own : (author_id user_id user_role : Option String) → Bool
asks_own author_id user_id user_role =
    is_value user_role "writer" && truthy author_id && is_value user_id (or_else author_id "")

own_sound :
    (author_id user_id user_role : Option String) (q : Option String × Bool) (p : Post)
    → asks_own author_id user_id user_role ≡ true
    → listed q author_id p ≡ true
    → (is_value user_role "writer" && truthy user_id && is_value user_id p.author_id) ≡ true
own_sound none user_id user_role q p o h = ground arith
own_sound (some a) none user_role q p o h = ground arith
own_sound (some a) (some u) user_role q p o h = ground (
  arith,
  listed-author q a p h,
  ==_iff u a,
  ==_iff a p.author_id,
  ==_iff u p.author_id,
  ==_iff u "",
  ==_iff a "",
)

effective-cases :
    (status author_id user_id user_role : Option String) (all : Bool)
    → is_value user_role "admin" ≡ false
    → (effective status author_id all user_id user_role ≡ (some "published", false))
      ⊎ ((effective status author_id all user_id user_role ≡ (status, all))
          × ((truthy status && not (is_value status "published")) ≡ true
              → asks_own author_id user_id user_role ≡ true))
effective-cases status author_id user_id user_role all n =
    elim (Bool-cases (truthy status && not (is_value status "published"))) [
      | inr e ↦ inr (rw (e) refl, λ c. cc)
      | inl e ↦
          elim (Bool-cases (
            is_value user_role "writer"
            && truthy author_id
            && truthy user_id
            && is_value author_id (or_else user_id ""))) [
              | inl o ↦ inr (rw (e, n, o) refl, λ c. swapped author_id user_id o)
              | inr o ↦ inl (rw (e, n, o) refl)
            ]
    ]
  where
    swapped :
        (a u : Option String)
        → (is_value user_role "writer" && truthy a && truthy u && is_value a (or_else u "")) ≡ true
        → asks_own a u user_role ≡ true
    swapped none u o = ground arith
    swapped (some a) none o = ground arith
    swapped (some a) (some u) o = ground (arith, ==_iff a u, ==_iff u a)

-- A listed post that is not published is the caller's own, and the caller a writer.
listed-own :
    (status author_id user_id user_role : Option String) (p : Post)
    → (p.status == "published") ≡ false
    → is_value user_role "admin" ≡ false
    → listed
        (effective status author_id
          (all_statuses status author_id user_id user_role)
          user_id
          user_role)
        author_id
        p
      ≡ true
    → (is_value user_role "writer" && truthy user_id && is_value user_id p.author_id) ≡ true
listed-own status author_id user_id user_role p e n h =
    let all = all_statuses status author_id user_id user_role in
    elim (effective-cases status author_id user_id user_role all n) [
      | inl c ↦ ground (arith, listed-hidden (some "published") author_id false p e (rw c at h))
      | inr (c, own) ↦ elim (listed-hidden status author_id all p e (rw c at h)) [
        | inl asked ↦ own_sound author_id user_id user_role (status, all) p (own asked) (rw c at h)
        | inr every ↦
            own_sound author_id user_id user_role (status, all) p (ground arith) (rw c at h)
      ]
    ]

listed-visible :
    (status author_id user_id user_role : Option String) (p : Post)
    → listed
        (effective status author_id
          (all_statuses status author_id user_id user_role)
          user_id
          user_role)
        author_id
        p
      ≡ true
    → visible p user_id user_role ≡ true
listed-visible status author_id user_id user_role p h =
    elim (Bool-cases (p.status == "published")) [
      | inl e ↦ rw e refl
      | inr e ↦ elim (Bool-cases (is_value user_role "admin")) [
        | inl a ↦ rw (e, a) refl
        | inr n ↦ rw (e, n) (listed-own status author_id user_id user_role p e n h)
      ]
    ]

-- Whatever the query and the caller, each post that the listing shows is one that the caller may see.
pub get_posts-visible :
    (page limit : ℕ) (status author_id user_id user_role : Option String) (s : PostDb)
    → All
        (λ v. visible v.post user_id user_role ≡ true)
        (get_posts page limit status author_id user_id user_role s).posts
unfolding get_posts list_posts page_of
get_posts-visible page limit status author_id user_id user_role s = All-map _ _ _ (
    All-take _ limit _ (
      All-drop _ ((page - 1) * limit) _ (
        All-order_desc _ _ _
          (filter-All _ _ (λ p h. listed-visible status author_id user_id user_role p h) s.posts))))
