-- ===== src/Frontend/Threads/Page.antt =====
-- services/frontend/src/pages/PostPage.tsx: which comments the page shows.
use micro_blog.Base.{
  ◌≡◌, refl, sym, ◌∙◌, inl, inr, ℕ, zero, suc, ◌+◌, ◌≤◌, ◌<◌, String, string_eq, ◌==◌, ==_iff, Bool,
  true, not, ◌&&◌, ◌||◌, Option, none, some, List, [], ◌∷◌, ◌++◌, arith, filter, find, find-All,
  find_sound, All, filter-All_imp, ltb, Bool-cases, Option-cases, if◌then◌else◌,
}
use micro_blog.Sql.{count}
use micro_blog.Sql.Distinct.{Distinct}
use micro_blog.Frontend.Session.{User}
use micro_blog.Frontend.Threads.{
  Comment, Shown, parent_of, is_reply, reply_map, gather, shown_at, render_comment, render_comments,
  leads_up,
}
use micro_blog.Frontend.Threads.Counting.{
  same_id, one, is_reply_to, replies_to-reply_map, among, among-filter,
}

-- How often the page shows the comment under an identifier.
abbrev pub tally : String → List Shown → ℕ
tally id = count (λ s. s.comment.id == id)

tally-append : (id : String) (xs ys : List Shown) → tally id (xs ++ ys) ≡ tally id xs + tally id ys
tally-append id [] ys = omega arith
tally-append id (x ∷ xs) ys = ground (arith, tally-append id xs ys)

-- A reply comes after the comment that it answers, in the order of `rank`, and `bound` is above all.
abbrev pub is_ordered : (String → ℕ) → ℕ → Comment → Bool
is_ordered rank bound c =
    ltb (rank c.id) bound && (not (is_reply c) || ltb (rank (parent_of c)) (rank c.id))

is_ordered_reply :
    (rank : String → ℕ) (bound : ℕ) (id : String) (r : Comment)
    → is_reply_to id r ≡ true
    → is_ordered rank bound r ≡ true
    → (rank id < rank r.id) × (rank r.id < bound)
is_ordered_reply rank bound id r e o =
    let same : parent_of r ≡ id = (==_iff (parent_of r) id).0 (ground arith) in
    rw (sym same) (ground arith)

is_ordered_upper :
    (rank : String → ℕ) (bound : ℕ) (c : Comment)
    → is_ordered rank bound c ≡ true
    → is_reply c ≡ true
    → rank (parent_of c) < rank c.id
is_ordered_upper rank bound c o r = ground arith

is_ordered_bound :
    (rank : String → ℕ) (bound : ℕ) (c : Comment)
    → is_ordered rank bound c ≡ true
    → rank c.id < bound
is_ordered_bound rank bound c o = ground arith

-- How often what a comment answers is shown; nothing for a comment that is not there.
abbrev above : Option Comment → List Shown → ℕ
above none xs = 0
above (some c) xs = if is_reply c then tally (parent_of c) xs else 0

above-nil : (o : Option Comment) → above o [] ≡ 0
above-nil none = refl
above-nil (some c) = ground arith

above-append :
    (o : Option Comment) (xs ys : List Shown) → above o (xs ++ ys) ≡ above o xs + above o ys
above-append none xs ys = omega arith
above-append (some c) xs ys = ground (arith, tally-append (parent_of c) xs ys)

among-cons :
    (id : String) (c : Comment) (cs : List Comment)
    → among id (c ∷ cs) ≡ one (c.id == id) + among id cs
among-cons id c cs = ground arith

tally-cons :
    (id : String) (s : Shown) (xs : List Shown)
    → tally id (s ∷ xs) ≡ one (s.comment.id == id) + tally id xs
tally-cons id s xs = ground arith

module _ (viewer : Option User) (comments : List Comment) where
  abbrev found : String → Option Comment
  found id = find (λ c. c.id == id) comments

  -- A comment is shown once for itself, and once for each time that the comment it answers is shown.
  abbrev IsTree : Comment → Option (List Shown) → Type 0
  IsTree c o =
      (xs : List Shown) × (o ≡ some xs)
      × ((id : String) → tally id xs ≡ one (c.id == id) + above (found id) xs)

  gather-IsTree :
      (render : Comment → Option (List Shown)) (cs : List Comment)
      → All (λ c. IsTree c (render c)) cs
      → (xs : List Shown) × (gather render cs ≡ some xs)
        × ((id : String) → tally id xs ≡ among id cs + above (found id) xs)
  unfolding gather
  gather-IsTree render [] h = ([], refl, λ id. omega (arith, above-nil (found id)))
  gather-IsTree render (c ∷ cs) ((xs, e, law), h) =
      let (ys, f, laws) = gather-IsTree render cs h in
      (
        xs ++ ys,
        rw (gather, e, f) refl,
        λ id. omega (
          arith,
          law id,
          laws id,
          tally-append id xs ys,
          above-append (found id) xs ys,
          among-cons id c cs,
        ),
      )

  module _ (distinct : Distinct same_id comments) where
    above-node :
        (depth : ℕ) (c : Comment) (id : String) (xs : List Shown)
        → above (found id) (shown_at viewer depth c ∷ xs)
          ≡ among id (filter (is_reply_to c.id) comments) + above (found id) xs
    above-node depth c id xs =
        rw (among-filter (is_reply_to c.id) id comments distinct) (by_answer (found id))
      where
        by_answer :
            (o : Option Comment)
            → above o (shown_at viewer depth c ∷ xs)
              ≡ elim o [ none ↦ 0 | some d ↦ one (is_reply_to c.id d) ] + above o xs
        by_answer none = refl
        by_answer (some d) = ground (arith, ==_iff c.id (parent_of d), ==_iff (parent_of d) c.id)

    module _ (rank : String → ℕ) (bound : ℕ)
        (ordered : All (λ c. is_ordered rank bound c ≡ true) comments) where
      render_comment-IsTree :
          (fuel depth : ℕ) (c : Comment)
          → rank c.id < bound
          → bound ≤ rank c.id + fuel
          → IsTree c (render_comment viewer (reply_map comments) fuel depth c)
      unfolding render_comment
      render_comment-IsTree zero depth c lt le = absurd (omega arith)
      render_comment-IsTree (suc fuel) depth c lt le =
          let render = render_comment viewer (reply_map comments) fuel (suc depth) in
          let children =
            filter-All_imp _ (λ r. IsTree r (render r)) (is_reply_to c.id)
              (λ r e o.
                let (above, below) = is_ordered_reply rank bound c.id r e o in
                render_comment-IsTree fuel (suc depth) r below (omega arith))
              comments ordered in
          let (xs, e, law) = gather-IsTree render (filter (is_reply_to c.id) comments) children in
          (
            shown_at viewer depth c ∷ xs,
            rw (render_comment, replies_to-reply_map c.id comments, e) refl,
            λ id. omega (
              arith,
              law id,
              tally-cons id (shown_at viewer depth c) xs,
              above-node depth c id xs,
            ),
          )

      -- The whole page.
      page-tally :
          (xs : List Shown) × (render_comments viewer bound comments ≡ some xs)
          × ((id : String)
              → tally id xs
                ≡ among id (filter (λ c. not (is_reply c)) comments) + above (found id) xs)
      unfolding render_comments
      page-tally =
          gather-IsTree (render_comment viewer (reply_map comments) bound 0)
            (filter (λ c. not (is_reply c)) comments)
            (filter-All_imp _ _ (λ c. not (is_reply c))
              (λ c e o.
                render_comment-IsTree bound 0 c (is_ordered_bound rank bound c o) (omega arith))
              comments ordered)

      leads_up-tally :
          (xs : List Shown)
          → ((id : String)
              → tally id xs
                ≡ among id (filter (λ c. not (is_reply c)) comments) + above (found id) xs)
          → (fuel : ℕ) (id : String) → rank id < fuel
          → tally id xs ≡ one (leads_up fuel comments id)
      unfolding leads_up
      leads_up-tally xs law zero id lt = absurd (omega arith)
      leads_up-tally xs law (suc fuel) id lt =
          law id
          ∙ rw (among-filter (λ c. not (is_reply c)) id comments distinct)
              (elim (Option-cases (found id)) [
                | inl e ↦ rw (e, leads_up) (omega arith)
                | inr (c, e) ↦ elim (Bool-cases (is_reply c)) [
                  | inl r ↦
                      let upper =
                        is_ordered_upper rank bound c (find-All _ _ comments ordered e) r in
                      let same = (==_iff c.id id).0 (find_sound _ comments e) in
                      let below = rw same at upper in
                      let step : leads_up (suc fuel) comments id
                          ≡ leads_up fuel comments (parent_of c) =
                        rw (leads_up, e, r) refl in
                      rw (step, e, r)
                        (omega (arith, leads_up-tally xs law fuel (parent_of c) (omega arith)))
                  | inr n ↦ rw (e, leads_up, n) refl
                ]
              ])

-- The page of a post shows a comment once, exactly where it leads, from answered comment to answered
-- comment, to one that answers none, and else not at all; and it always comes to an end. No identifier is
-- there twice, and the comments have an order in which each reply comes after what it answers.
pub render_comments_once :
    (viewer : Option User) (comments : List Comment) (rank : String → ℕ) (bound : ℕ) (id : String)
    → Distinct same_id comments
    → All (λ c. is_ordered rank bound c ≡ true) comments
    → rank id < bound
    → (shown : List Shown) × (render_comments viewer bound comments ≡ some shown)
      × (tally id shown ≡ (if leads_up bound comments id then 1 else 0))
render_comments_once viewer comments rank bound id distinct ordered lt =
    let (shown, e, law) = page-tally viewer comments distinct rank bound ordered in
    (shown, e, leads_up-tally viewer comments distinct rank bound ordered shown law bound id lt)
