-- ===== src/Comment/Reachable.antt =====
-- The states that the comment service can reach, by requests and by messages of the other services.
use micro_blog.Base.{
  ◌≡◌, refl, ◌⊎◌, inl, inr, ℕ, String, Text, string_eq, ◌==◌, Bool, true, false, ◌&&◌, Option, none,
  some, [], arith, find, truthy, is_value, or_else, Bool-cases, Option-cases, final, done, thrown,
  Exec, require,
}
use micro_blog.Frames.{
  Keeps, Keeps-bind, bind_kept, Keeps-return, Keeps-require, Keeps-modify, bind-step,
  bind-eq-thrown,
}
use micro_blog.Shared.Errors.{not_found, sent, no_content, Reply}
use micro_blog.Shared.Events.{Event, Bus}
use micro_blog.Comment.Service.{
  CommentDb, publish, answers, check_parent, new_comment, insert_comment, create_comment,
  find_comment, delete_comment, on_post_deleted, on_user_deleted,
}
use micro_blog.Shared.Requests.{signed_in, Keeps-parsed}
use micro_blog.Comment.Routes.{CreateComment, post_comments, post_nested_comments, delete_comments}
use micro_blog.Comment.Threads.{
  IsWellFormed, append-IsWellFormed, fresh_clash, delete_where-IsWellFormed,
}

-- The check of the parent changes nothing, and throws in one way only.
pub check_parent-cases :
    (post_id parent_id : Option String) (s : CommentDb)
    → ((check_parent post_id parent_id s ≡ done tt s)
        × (truthy parent_id ≡ true
            → answers post_id (find (λ c. is_value parent_id c.id) s.comments) ≡ true))
      ⊎ ((check_parent post_id parent_id s ≡ thrown (not_found "Parent comment") s)
          × (truthy parent_id ≡ true)
          × (answers post_id (find (λ c. is_value parent_id c.id) s.comments) ≡ false))
unfolding check_parent require
check_parent-cases post_id parent_id s = elim (Bool-cases (truthy parent_id)) [
  | inr f ↦ inl (ground arith, λ t. ground arith)
  | inl t ↦ elim (Bool-cases (answers post_id (find (λ c. is_value parent_id c.id) s.comments))) [
    | inl a ↦ inl (ground arith, λ t. a)
    | inr a ↦ inr (ground arith, t, a)
  ]
]

module _ (uuid : ℕ → String) (injective : (m n : ℕ) → uuid m ≡ uuid n → m ≡ n) where
  publish-IsWellFormed : (e : Event) → Keeps (IsWellFormed uuid) (publish e)
  unfolding publish
  publish-IsWellFormed e = record {
    at = λ s h. elim (Bool-cases s.bus.up) [
      | inl e ↦
          rw (e, publish, final)
            (record { distinct = h.distinct; known = h.known; threads = h.threads })
      | inr e ↦ rw (e, publish, final) h
    ];
  }

  insert_comment-IsWellFormed :
      (now : ℕ) (post_id : Option String) (author_id : String) (content : Text)
      (parent_id : Option String) (s : CommentDb)
      → (truthy parent_id ≡ true
          → answers post_id (find (λ c. is_value parent_id c.id) s.comments) ≡ true)
      → IsWellFormed uuid s
      → IsWellFormed uuid (final (insert_comment uuid now post_id author_id content parent_id s))
  unfolding insert_comment
  insert_comment-IsWellFormed now none author_id content parent_id s k h = h
  insert_comment-IsWellFormed now (some post_id) author_id content parent_id s k h =
      let row = new_comment uuid now post_id author_id content parent_id s.drawn in
      elim (Bool-cases (s.is_uuid post_id && s.is_uuid author_id)) [
        | inr bad ↦ rw (insert_comment, bad, final) h
        | inl ok ↦
            rw
              (
                insert_comment,
                ok,
                fresh_clash uuid injective s.drawn row s.comments refl h.known,
                final,
              )
              (append-IsWellFormed uuid injective row s refl k h)
      ]

  create_comment-IsWellFormed :
      (now : ℕ) (post_id : Option String) (author_id : String) (content : Text)
      (parent_id : Option String)
      → Keeps (IsWellFormed uuid) (create_comment uuid now post_id author_id content parent_id)
  unfolding create_comment
  create_comment-IsWellFormed now post_id author_id content parent_id = record {
    at = λ s h. elim (check_parent-cases post_id parent_id s) [
      | inl (e, k) ↦ rw (bind-step _ _ s e) (
          bind_kept (insert_comment uuid now post_id author_id content parent_id) _ s
            (insert_comment-IsWellFormed now post_id author_id content parent_id s k h)
            (λ c. Keeps-bind _ _ (publish-IsWellFormed _) (λ u. Keeps-return c)))
      | inr (e, t, a) ↦ rw (bind-eq-thrown _ _ s e) h
    ];
  }

  find_comment-IsWellFormed : (id : String) → Keeps (IsWellFormed uuid) (find_comment id)
  unfolding find_comment
  find_comment-IsWellFormed id = record {
    at = λ s h. elim (Option-cases (find (λ c. c.id == id) s.comments)) [
      | inl e ↦ rw (e, find_comment, final) h
      | inr (c, e) ↦ rw (e, find_comment, final) h
    ];
  }

  delete_comment-IsWellFormed :
      (id author_id : String) (user_role : Option String)
      → Keeps (IsWellFormed uuid) (delete_comment id author_id user_role)
  unfolding delete_comment
  delete_comment-IsWellFormed id author_id user_role =
      Keeps-bind _ _ (find_comment-IsWellFormed id) λ c. Keeps-bind _ _ (Keeps-require _ _) λ u.
        Keeps-bind _ _ (Keeps-modify _ (delete_where-IsWellFormed uuid (λ d. d.id == id)))
          λ v. publish-IsWellFormed _

-- A request, or a message of another service, or a change of the connection to the bus. The routes
-- get `now`, the time of the request.
pub data Request : Type 0 where
  post : (now : ℕ) (user_id : Option String) (body : Option CreateComment) → Request
  post_nested :
      (now : ℕ) (post_id : String) (user_id : Option String) (body : Option CreateComment) → Request
  remove : (id : String) (user_id user_role : Option String) → Request
  post_deleted : (post_id : String) → Request
  user_deleted : (user_id : String) → Request
  connection : (up : Bool) → Request

unfoldable pub handle : (ℕ → String) → Request → CommentDb → CommentDb
handle uuid (post now user_id body) s = final (post_comments uuid now user_id body s)
handle uuid (post_nested now post_id user_id body) s =
    final (post_nested_comments uuid now post_id user_id body s)
handle uuid (remove id user_id user_role) s = final (delete_comments id user_id user_role s)
handle uuid (post_deleted post_id) s = on_post_deleted post_id s
handle uuid (user_deleted user_id) s = on_user_deleted user_id s
handle uuid (connection up) s = record s { bus = record s.bus { up = up } }

pub data Reachable (uuid : ℕ → String) : CommentDb → Type 0 where
  start :
      (b : Bus) (is_uuid : String → Bool)
      → Reachable uuid (record { comments = []; bus = b; drawn = 0; is_uuid = is_uuid })
  next : (r : Request) (s : CommentDb) → Reachable uuid s → Reachable uuid (handle uuid r s)

module _ (uuid : ℕ → String) (injective : (m n : ℕ) → uuid m ≡ uuid n → m ≡ n) where
  signed_in-IsWellFormed :
      {A : Type 0} (message : String) (user_id : Option String)
      (handler : String → Exec CommentDb (Reply A))
      → ((u : String) → Keeps (IsWellFormed uuid) (handler u))
      → Keeps (IsWellFormed uuid) (signed_in message user_id handler)
  signed_in-IsWellFormed message user_id handler h = elim (Bool-cases (truthy user_id)) [
    | inl e ↦ rw e (h (or_else user_id ""))
    | inr e ↦ rw e (Keeps-return _)
  ]

  handle-IsWellFormed :
      (r : Request) (s : CommentDb) → IsWellFormed uuid s → IsWellFormed uuid (handle uuid r s)
  unfolding handle post_comments post_nested_comments delete_comments
  handle-IsWellFormed (post now user_id body) s h =
      (signed_in-IsWellFormed "Missing user ID" user_id _ (λ u.
          Keeps-bind _ _ (Keeps-parsed body) λ b.
            Keeps-bind _ _
              (create_comment-IsWellFormed uuid injective now b.post_id u b.content b.parent_id)
              λ c. Keeps-return (sent 201 c))).at
        s h
  handle-IsWellFormed (post_nested now post_id user_id body) s h =
      (signed_in-IsWellFormed "Missing user ID" user_id _ (λ u.
          Keeps-bind _ _ (Keeps-parsed body) λ b.
            Keeps-bind _ _
              (create_comment-IsWellFormed uuid injective now (some post_id) u b.content
                b.parent_id)
              λ c. Keeps-return (sent 201 c))).at
        s h
  handle-IsWellFormed (remove id user_id user_role) s h =
      (signed_in-IsWellFormed "Missing user ID" user_id _ (λ u.
          Keeps-bind _ _ (delete_comment-IsWellFormed uuid injective id u user_role)
            λ c. Keeps-return no_content)).at
        s h
  handle-IsWellFormed (post_deleted post_id) s h =
      delete_where-IsWellFormed uuid (λ c. c.post_id == post_id) s h
  handle-IsWellFormed (user_deleted user_id) s h =
      delete_where-IsWellFormed uuid (λ c. c.author_id == user_id) s h
  handle-IsWellFormed (connection up) s h = record {
    distinct = h.distinct;
    known = h.known;
    threads = h.threads;
  }

-- In every state that requests, messages of the other services and failures of the bus can lead to,
-- no two comments have the same identifier, every identifier was drawn, that of a reply after that of the
-- comment that it answers, and a reply stands on the post of the comment that it answers, where that one
-- still exists. The database is assumed never to draw the same identifier twice.
pub Reachable-IsWellFormed :
    (uuid : ℕ → String) (injective : (m n : ℕ) → uuid m ≡ uuid n → m ≡ n) {s : CommentDb}
    → Reachable uuid s
    → IsWellFormed uuid s
Reachable-IsWellFormed uuid injective (start b is_uuid) = record {
  distinct = tt;
  known = tt;
  threads = tt;
}
Reachable-IsWellFormed uuid injective (next r s h) =
    handle-IsWellFormed uuid injective r s (Reachable-IsWellFormed uuid injective h)
