-- ===== src/Frontend/Threads/Served.antt =====
-- services/frontend/src/pages/PostPage.tsx on the comments that services/comment/src/services/comment.ts sends it.
use micro_blog.Base.{
  ◌≡◌, refl, sym, ap, ◌∙◌, inl, inr, ℕ, zero, suc, ◌<◌, ◌≤◌, String, Text, string_eq, ◌==◌, ==_iff,
  true, ◌||◌, not, Option, none, some, List, [], ◌∷◌, arith, any, map, filter, truthy, or_else, ltb,
  ◌-◌, ◌*◌, All, All-imp, All-filter, All-take, All-drop, All-map, Bool-cases, if◌then◌else◌,
}
use micro_blog.Sql.{order_desc, page_of}
use micro_blog.Sql.Distinct.{Distinct, Distinct-filter, Distinct-order_desc, Distinct-page_of}
use micro_blog.Sql.Sorting.{All-order_desc}
use micro_blog.Comment.Service as Rows
use micro_blog.Comment.Service.{CommentDb, id_clash, get_comments_by_post}
use micro_blog.Comment.Threads.{IsKnown, IsDrawn}
use micro_blog.Comment.Reachable.{Reachable, Reachable-IsWellFormed}
use micro_blog.Frontend.Session.{User}
use micro_blog.Frontend.Threads.{Comment, Shown, render_comments, leads_up}
use micro_blog.Frontend.Threads.Counting.{same_id}
use micro_blog.Frontend.Threads.Page.{is_ordered, tally, render_comments_once}

-- A row as the browser gets it, its times printed.
abbrev pub received : (ℕ → Text) → Rows.Comment → Comment
received iso c = record {
  id = c.id;
  post_id = c.post_id;
  author_id = c.author_id;
  content = c.content;
  parent_id = c.parent_id;
  created_at = iso c.created_at;
}

-- Which draw an identifier comes from, of the first `n`.
drawn_at : (ℕ → String) → ℕ → String → ℕ
drawn_at uuid zero id = 0
drawn_at uuid (suc n) id = if uuid n == id then n else drawn_at uuid n id

drawn_at-le : (uuid : ℕ → String) (n : ℕ) (id : String) → drawn_at uuid n id ≤ n
unfolding drawn_at
drawn_at-le uuid zero id = omega arith
drawn_at-le uuid (suc n) id = ground (arith, drawn_at-le uuid n id)

module _ (uuid : ℕ → String) (injective : (m n : ℕ) → uuid m ≡ uuid n → m ≡ n) where
  drawn_at-draw : (n k : ℕ) → k < n → drawn_at uuid n (uuid k) ≡ k
  unfolding drawn_at
  drawn_at-draw zero k lt = absurd (omega arith)
  drawn_at-draw (suc n) k lt = elim (Bool-cases (uuid n == uuid k)) [
    | inl y ↦ rw y (injective n k ((==_iff (uuid n) (uuid k)).0 y))
    | inr f ↦ rw f (drawn_at-draw n k (ground (arith, ==_iff (uuid n) (uuid k))))
  ]

  drawn_at_id : (n k : ℕ) (id : String) → k < n → uuid k ≡ id → drawn_at uuid n id ≡ k
  drawn_at_id n k id lt e = ap (drawn_at uuid n) (sym e) ∙ drawn_at-draw n k lt

  parent_earlier :
      (n k : ℕ) (parent_id : Option String)
      → k < n
      → ((p : String) → truthy parent_id ≡ true → parent_id ≡ some p → IsDrawn uuid k p)
      → (not (truthy parent_id) || ltb (drawn_at uuid n (or_else parent_id "")) k) ≡ true
  parent_earlier n k none lt h = refl
  parent_earlier n k (some p) lt h = elim (Bool-cases (truthy (some p))) [
    | inr f ↦ ground arith
    | inl t ↦
        let (j, lt', e) = h p t refl in let same = drawn_at_id n j p (omega arith) e in ground arith
  ]

  IsKnown-ordered :
      (iso : ℕ → Text) (n : ℕ) (c : Rows.Comment)
      → IsKnown uuid n c
      → is_ordered (drawn_at uuid n) (suc n) (received iso c) ≡ true
  IsKnown-ordered iso n c (k, lt, e, parent) =
      let same = drawn_at_id n k c.id lt e in
      let earlier = parent_earlier n k c.parent_id lt parent in rw same (ground arith)

any-received :
    (iso : ℕ → Text) (c : Rows.Comment) (rows : List Rows.Comment)
    → any (same_id (received iso c)) (map (received iso) rows) ≡ any (id_clash c) rows
any-received iso c [] = refl
any-received iso c (d ∷ rows) = rw (any-received iso c rows) refl

Distinct-received :
    (iso : ℕ → Text) (rows : List Rows.Comment)
    → Distinct id_clash rows
    → Distinct same_id (map (received iso) rows)
Distinct-received iso [] d = tt
Distinct-received iso (c ∷ rows) (new, d) =
    (any-received iso c rows ∙ new, Distinct-received iso rows d)

id_clash_comm : (c d : Rows.Comment) → id_clash c d ≡ id_clash d c
id_clash_comm c d = ground (arith, ==_iff c.id d.id, ==_iff d.id c.id)

-- What the page gets from GET /posts/:postId/comments.
abbrev pub page_comments :
    (iso : ℕ → Text) (post_id : String) (page limit : ℕ) → CommentDb → List Comment
page_comments iso post_id page limit s =
    map (received iso) (get_comments_by_post post_id page limit s).comments

-- In every state that the comment service can reach, whichever page of whichever post's comments is asked for:
-- the page in the browser comes to an end, with no more levels than identifiers were drawn, and shows a comment once
-- exactly where it leads, from answered comment to answered comment, all of them on the page, to one that
-- answers none, and else not at all. The database is assumed never to draw the same identifier twice.
pub get_comments_by_post-shown :
    (uuid : ℕ → String) (injective : (m n : ℕ) → uuid m ≡ uuid n → m ≡ n) (iso : ℕ → Text)
    (viewer : Option User) (post_id : String) (page limit : ℕ) (id : String) {s : CommentDb}
    → Reachable uuid s
    → (shown : List Shown) × (render_comments viewer
          (suc s.drawn)
          (page_comments iso post_id page limit s)
        ≡ some shown)
      × (tally id shown
          ≡ (if leads_up (suc s.drawn) (page_comments iso post_id page limit s) id then 1 else 0))
unfolding get_comments_by_post page_of
get_comments_by_post-shown uuid injective iso viewer post_id page limit id {s} r =
    let well = Reachable-IsWellFormed uuid injective r in
    let sorted = order_desc (λ c. c.created_at) (filter (λ c. c.post_id == post_id) s.comments) in
    let known : All (IsKnown uuid s.drawn) (page_of page limit sorted) = All-take _ limit _ (
      All-drop _ ((page - 1) * limit) sorted
        (All-order_desc _ _ _ (All-filter _ (λ c. c.post_id == post_id) s.comments well.known))) in
    let distinct = Distinct-page_of id_clash page limit sorted (
      Distinct-order_desc id_clash _ id_clash_comm _
        (Distinct-filter id_clash (λ c. c.post_id == post_id) s.comments well.distinct)) in
    render_comments_once viewer (map (received iso) (page_of page limit sorted))
      (drawn_at uuid s.drawn) (suc s.drawn) id (Distinct-received iso _ distinct)
      (All-map _ (received iso) _
        (All-imp _ _ (IsKnown-ordered uuid injective iso s.drawn) _ known))
      (omega (arith, drawn_at-le uuid s.drawn id))
