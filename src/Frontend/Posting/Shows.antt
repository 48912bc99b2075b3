-- ===== src/Frontend/Posting/Shows.antt =====
-- services/frontend/src/pages/PostPage.tsx with services/comment/src: a comment that was sent is on the page.
use micro_blog.Base.{
  ◌&&◌, ◌≡◌, refl, subst, ap, ◌∙◌, inl, inr, ℕ, suc, ◌+◌, ◌<◌, String, Text, string_eq, ◌==◌,
  ==_refl, ==_iff, Bool, true, false, Option, none, some, List, [], ◌∷◌, ◌++◌, arith, any, map,
  filter, find, truthy, All, All-filter, Bool-cases, if◌then◌else◌, take, final, ◌>>=◌, return, Run,
  done, thrown,
}
use micro_blog.Sql.{order_desc, page_of}
use micro_blog.Sql.Sorting.{order_desc-newest}
use micro_blog.Shared.Errors.{Reply, sent, respond}
use micro_blog.Shared.Requests.{parsed}
use micro_blog.Comment.Service as Rows
use micro_blog.Comment.Service.{
  CommentDb, id_clash, new_comment, create_comment, check_parent, insert_comment, publish,
  get_comments_by_post,
}
use micro_blog.Comment.Routes.{CreateComment, post_comments}
use micro_blog.Comment.Threads.{fresh_clash}
use micro_blog.Comment.Reachable.{Reachable, Reachable-IsWellFormed, post, next, handle}
use micro_blog.Comment.Branches.{IsPosting, create_comment-IsPosting}
use micro_blog.Frontend.Session.{User}
use micro_blog.Frontend.Fields.{trim, is_blank}
use micro_blog.Frontend.Threads.{Comment, Shown, render_comments, leads_up}
use micro_blog.Frontend.Threads.Page.{tally}
use micro_blog.Frontend.Threads.Served.{received, page_comments, get_comments_by_post-shown}
use micro_blog.Frontend.Posting.{CommentBox, empty_box, handle_submit_comment, settle_box}

filter-append :
    {A : Type 0} (p : A → Bool) (xs ys : List A) → filter p (xs ++ ys) ≡ filter p xs ++ filter p ys
filter-append p [] ys = refl
filter-append p (x ∷ xs) ys = ground (arith, filter-append p xs ys)

-- The request for a comment that answers none.
abbrev body : String → Text → CreateComment
body post_id content = record { post_id = some post_id; content = content; parent_id = none }

module _ (uuid : ℕ → String) (now : ℕ) (user_id post_id : String) (content : Text)
    (s : CommentDb) where
  abbrev row : Rows.Comment
  row = new_comment uuid now post_id user_id content none s.drawn

  -- What the table and the box are after a POST, whether the bus is up or not.
  record IsStored (box : CommentBox) (o : Run CommentDb (Reply Rows.Comment)) : Type 0 where
    comments : (final o).comments ≡ s.comments ++ row ∷ []
    drawn : (final o).drawn ≡ s.drawn + 1
    settled : settle_box (respond o).0 box ≡ (if s.bus.up then empty_box else box)

  -- The end of the route.
  replied : Run CommentDb Rows.Comment → Run CommentDb (Reply Rows.Comment)
  replied o = elim o [ done c t ↦ done (sent 201 c) t | thrown e t ↦ thrown e t ]

  IsPosting-IsStored :
      (box : CommentBox) (o : Run CommentDb Rows.Comment)
      → (s.is_uuid post_id && s.is_uuid user_id) ≡ true
      → IsPosting uuid now user_id content none s (some post_id) o
      → IsStored box (replied o)
  unfolding replied settle_box
  IsPosting-IsStored box o ok (IsPosting.no_parent p t h) = absurd (ground arith)
  IsPosting-IsStored box o ok (IsPosting.malformed p h bad) = absurd (ground arith)
  IsPosting-IsStored box o ok (IsPosting.unsent p h good down) = record {
    comments = refl;
    drawn = refl;
    settled = ground arith;
  }
  IsPosting-IsStored box o ok (IsPosting.posted p h good up) = record {
    comments = refl;
    drawn = refl;
    settled = ground arith;
  }

  post_comments-IsStored :
      (box : CommentBox)
      → truthy (some user_id) ≡ true
      → (s.is_uuid post_id && s.is_uuid user_id) ≡ true
      → any (id_clash row) s.comments ≡ false
      → IsStored box (post_comments uuid now (some user_id) (some (body post_id content)) s)
  unfolding post_comments parsed ◌>>=◌ return replied
  post_comments-IsStored box given ok fresh =
      let stored =
        IsPosting-IsStored box _ ok
          (create_comment-IsPosting uuid now (some post_id) user_id content none s fresh) in
      rw given stored

-- The box with a comment that answers none.
abbrev pub typed : Text → CommentBox
typed text = record { comment_text = text; reply_to = none }

handle_submit_comment-typed :
    (post_id : String) (text : Text) (b : CreateComment)
    → handle_submit_comment post_id (typed text) ≡ some b
    → body post_id (trim text) ≡ b
unfolding handle_submit_comment
handle_submit_comment-typed post_id text b h = elim (Bool-cases (is_blank (trim text))) [
  | inl e ↦ absurd (ground arith)
  | inr e ↦ ground arith
]

page_comments-stored :
    (iso : ℕ → Text) (post_id : String) (c : Rows.Comment) (s t : CommentDb)
    → c.post_id ≡ post_id
    → All (λ d. d.created_at < c.created_at) s.comments
    → t.comments ≡ s.comments ++ c ∷ []
    → (rest : List Comment) × (page_comments iso post_id 1 20 t ≡ received iso c ∷ rest)
unfolding get_comments_by_post page_of
page_comments-stored iso post_id c s t own newest e =
    let on = λ (d : Rows.Comment). d.post_id == post_id in
    let there : (c.post_id == post_id) ≡ true = (==_iff c.post_id post_id).1 own in
    let kept : filter on t.comments ≡ filter on s.comments ++ c ∷ [] =
      ap (filter on) e ∙ filter-append on s.comments (c ∷ []) ∙ rw there refl in
    let sorted =
      order_desc-newest (λ c. c.created_at) (filter on s.comments) c
        (All-filter _ on s.comments newest) in
    (
      map (received iso) (take 19 (order_desc (λ d. d.created_at) (filter on s.comments))),
      rw (kept, sorted) refl,
    )

leads_up-first :
    (n : ℕ) (c : Comment) (rest : List Comment)
    → c.parent_id ≡ none
    → leads_up (suc n) (c ∷ rest) c.id ≡ true
unfolding leads_up
leads_up-first n c rest h =
    let found : find (λ (d : Comment). d.id == c.id) (c ∷ rest) ≡ some c = rw (==_refl c.id) refl in
    rw (leads_up, found, h) refl

-- Whoever types a comment, more than space, below a post and sends it sees it, with the space at its ends
-- cut off, once on the page that is fetched next, whether the bus works or not; but the box is emptied only where
-- the bus works, and else keeps the text as if nothing had been stored. The schema and the header let the request
-- through, the post and the user have UUIDs, the comment answers none, it is newer than those before it, and identifiers are never drawn twice.
pub handle_submit_comment-shown :
    (uuid : ℕ → String) (injective : (m n : ℕ) → uuid m ≡ uuid n → m ≡ n) (iso : ℕ → Text)
    (viewer : Option User) (now : ℕ) (user_id post_id : String) (text : Text) (b : CreateComment)
    {s : CommentDb}
    → Reachable uuid s
    → truthy (some user_id) ≡ true
    → (s.is_uuid post_id && s.is_uuid user_id) ≡ true
    → All (λ c. c.created_at < now) s.comments
    → handle_submit_comment post_id (typed text) ≡ some b
    → let t = handle uuid (post now (some user_id) (some b)) s in
      let reply = (respond (post_comments uuid now (some user_id) (some b) s)).0 in
      (find (λ c. c.id == uuid s.drawn) (page_comments iso post_id 1 20 t)
        ≡ some (received iso (new_comment uuid now post_id user_id (trim text) none s.drawn)))
      × ((shown : List Shown) × (render_comments viewer
              (suc t.drawn)
              (page_comments iso post_id 1 20 t)
            ≡ some shown)
          × (tally (uuid s.drawn) shown ≡ 1))
      × (settle_box reply (typed text) ≡ (if s.bus.up then empty_box else typed text))
unfolding handle
handle_submit_comment-shown uuid injective iso viewer now user_id post_id text b {s} r given ok
      newest made =
    let row = new_comment uuid now post_id user_id (trim text) none s.drawn in
    let known = (Reachable-IsWellFormed uuid injective r).known in
    let fresh = fresh_clash uuid injective s.drawn row s.comments refl known in
    let same = handle_submit_comment-typed post_id text b made in
    let stored =
      subst
        (λ (b : CreateComment).
          IsStored uuid now user_id post_id (trim text) s (typed text)
            (post_comments uuid now (some user_id) (some b) s))
        same
        (post_comments-IsStored uuid now user_id post_id (trim text) s (typed text) given ok
          fresh) in
    let t = handle uuid (post now (some user_id) (some b)) s in
    let (rest, page) = page_comments-stored iso post_id row s t refl newest stored.comments in
    let (shown, ends, once) =
      get_comments_by_post-shown uuid injective iso viewer post_id 1 20 (uuid s.drawn)
        (next (post now (some user_id) (some b)) s r) in
    let up =
      ap (λ cs. leads_up (suc t.drawn) cs (uuid s.drawn)) page
      ∙ leads_up-first t.drawn (received iso row) rest refl in
    (
      ap (find (λ (c : Comment). c.id == uuid s.drawn)) page ∙ rw (==_refl (uuid s.drawn)) refl,
      (shown, ends, once ∙ rw up refl),
      stored.settled,
    )
