-- ===== src/Comment/Branches.antt =====
-- Every way in which a POST and a DELETE of a comment can end.
use micro_blog.Base.{
  ◌≡◌, refl, inl, inr, ℕ, ◌+◌, String, Text, string_eq, ◌==◌, true, false, ◌&&◌, ◌||◌,
  if◌then◌else◌, Option, none, some, [], ◌∷◌, ◌++◌, arith, find, any, truthy, is_value, Bool-cases,
  Option-cases, done, thrown, Run, other_error, return,
}
use micro_blog.Frames.{bind-step, bind-eq-thrown, require_ok, require_not, modify_lem}
use micro_blog.Shared.Errors.{not_found}
use micro_blog.Shared.Events.{Event, comment_created, comment_deleted}
use micro_blog.Comment.Service.{
  Comment, CommentDb, id_clash, publish, answers, new_comment, insert_comment, create_comment,
  find_comment, delete_where, delete_comment,
}
use micro_blog.Comment.Reachable.{check_parent-cases}

abbrev sending : Event → CommentDb → CommentDb
sending e s = record s { bus = record s.bus { log = s.bus.log ++ e ∷ [] } }

publish_up : (e : Event) (s : CommentDb) → s.bus.up ≡ true → publish e s ≡ done tt (sending e s)
unfolding publish
publish_up e s h = rw (h, publish) refl

publish_down : (e : Event) (s : CommentDb) → s.bus.up ≡ false → publish e s ≡ thrown other_error s
unfolding publish
publish_down e s h = ground arith

module _ (uuid : ℕ → String) (now : ℕ) (author_id : String) (content : Text)
    (parent_id : Option String) (s : CommentDb) where
  -- The new row put in.
  abbrev pub storing : String → CommentDb
  storing post_id = record s {
    comments = s.comments ++ new_comment uuid now post_id author_id content parent_id s.drawn ∷ [];
    drawn = s.drawn + 1;
  }

  -- No parent is given, or it is a comment on the same post.
  abbrev pub IsAnswerable : Option String → Type 0
  IsAnswerable post_id =
      truthy parent_id ≡ true
      → answers post_id (find (λ c. is_value parent_id c.id) s.comments) ≡ true

  pub data IsPosting : Option String → Run CommentDb Comment → Type 0 where
    no_parent :
        (post_id : Option String)
        → truthy parent_id ≡ true
        → answers post_id (find (λ c. is_value parent_id c.id) s.comments) ≡ false
        → IsPosting post_id (thrown (not_found "Parent comment") s)
    no_post : IsAnswerable none → IsPosting none (thrown other_error s)
    malformed :
        (post_id : String)
        → IsAnswerable (some post_id)
        → (s.is_uuid post_id && s.is_uuid author_id) ≡ false
        → IsPosting (some post_id) (thrown other_error s)
    unsent :
        (post_id : String)
        → IsAnswerable (some post_id)
        → (s.is_uuid post_id && s.is_uuid author_id) ≡ true
        → s.bus.up ≡ false
        → IsPosting (some post_id) (thrown other_error (storing post_id))
    posted :
        (post_id : String)
        → IsAnswerable (some post_id)
        → (s.is_uuid post_id && s.is_uuid author_id) ≡ true
        → s.bus.up ≡ true
        → IsPosting (some post_id) (
            done (new_comment uuid now post_id author_id content parent_id s.drawn) (
              sending
                (comment_created (uuid s.drawn) post_id author_id content parent_id)
                (storing post_id)))

insert_comment_lem :
    (uuid : ℕ → String) (now : ℕ) (post_id author_id : String) (content : Text)
    (parent_id : Option String) (s : CommentDb)
    → (s.is_uuid post_id && s.is_uuid author_id) ≡ true
    → any (id_clash (new_comment uuid now post_id author_id content parent_id s.drawn)) s.comments
      ≡ false
    → insert_comment uuid now (some post_id) author_id content parent_id s
      ≡ done
          (new_comment uuid now post_id author_id content parent_id s.drawn)
          (storing uuid now author_id content parent_id s post_id)
unfolding insert_comment
insert_comment_lem uuid now post_id author_id content parent_id s ok h =
    rw (insert_comment, ok, h) refl

insert_comment_refused :
    (uuid : ℕ → String) (now : ℕ) (post_id author_id : String) (content : Text)
    (parent_id : Option String) (s : CommentDb)
    → (s.is_uuid post_id && s.is_uuid author_id) ≡ false
    → insert_comment uuid now (some post_id) author_id content parent_id s ≡ thrown other_error s
unfolding insert_comment
insert_comment_refused uuid now post_id author_id content parent_id s bad =
    rw (insert_comment, bad) refl

insert_comment-none :
    (uuid : ℕ → String) (now : ℕ) (author_id : String) (content : Text) (parent_id : Option String)
    (s : CommentDb)
    → insert_comment uuid now none author_id content parent_id s ≡ thrown other_error s
unfolding insert_comment
insert_comment-none uuid now author_id content parent_id s = refl

pub create_comment-IsPosting :
    (uuid : ℕ → String) (now : ℕ) (post_id : Option String) (author_id : String) (content : Text)
    (parent_id : Option String) (s : CommentDb)
    → any (λ c. uuid s.drawn == c.id) s.comments ≡ false
    → IsPosting uuid now author_id content parent_id s post_id
        (create_comment uuid now post_id author_id content parent_id s)
unfolding create_comment return
create_comment-IsPosting uuid now none author_id content parent_id s new =
    elim (check_parent-cases none parent_id s) [
      | inl (e, k) ↦
          rw
            (
              bind-step _ _ s e,
              bind-eq-thrown _ _ s (insert_comment-none uuid now author_id content parent_id s),
            )
            (no_post k)
      | inr (e, t, a) ↦ rw (bind-eq-thrown _ _ s e) (no_parent none t a)
    ]
create_comment-IsPosting uuid now (some post_id) author_id content parent_id s new =
    elim (check_parent-cases (some post_id) parent_id s) [
      | inl (e, k) ↦ elim (Bool-cases (s.is_uuid post_id && s.is_uuid author_id)) [
        | inr bad ↦
            rw
              (
                bind-step _ _ s e,
                bind-eq-thrown _ _ s
                    (insert_comment_refused uuid now post_id author_id content parent_id s bad),
              )
              (malformed post_id k bad)
        | inl ok ↦
            let stored = insert_comment_lem uuid now post_id author_id content parent_id s ok new in
            let put = storing uuid now author_id content parent_id s post_id in
            let sent_event = comment_created (uuid s.drawn) post_id author_id content parent_id in
            rw (bind-step _ _ s e, bind-step _ _ s stored)
              (elim (Bool-cases s.bus.up) [
                | inl up ↦
                    rw (bind-step _ _ _ (publish_up sent_event put up)) (posted post_id k ok up)
                | inr down ↦
                    rw (bind-eq-thrown _ _ _ (publish_down sent_event put down))
                      (unsent post_id k ok down)
              ])
      ]
      | inr (e, t, a) ↦ rw (bind-eq-thrown _ _ s e) (no_parent (some post_id) t a)
    ]

find_comment-none :
    (id : String) (s : CommentDb)
    → find (λ c. c.id == id) s.comments ≡ none
    → find_comment id s ≡ thrown (if s.is_uuid id then not_found "Comment" else other_error) s
unfolding find_comment
find_comment-none id s h = rw (h, find_comment) refl

find_comment-some :
    (id : String) (s : CommentDb) (c : Comment)
    → find (λ d. d.id == id) s.comments ≡ some c
    → find_comment id s ≡ done c s
unfolding find_comment
find_comment-some id s c h = rw (h, find_comment) refl

-- How a DELETE ends: for a caller who may not delete the comment, as if it did not exist.
pub data IsDeletion (id author_id : String) (user_role : Option String) (s : CommentDb)
    : Run CommentDb (Unit {0}) → Type 0 where
  malformed :
      find (λ c. c.id == id) s.comments ≡ none
      → s.is_uuid id ≡ false
      → IsDeletion id author_id user_role s (thrown other_error s)
  no_comment :
      find (λ c. c.id == id) s.comments ≡ none
      → s.is_uuid id ≡ true
      → IsDeletion id author_id user_role s (thrown (not_found "Comment") s)
  hidden :
      (c : Comment)
      → find (λ c. c.id == id) s.comments ≡ some c
      → (c.author_id == author_id || is_value user_role "admin") ≡ false
      → IsDeletion id author_id user_role s (thrown (not_found "Comment") s)
  unsent :
      (c : Comment)
      → find (λ c. c.id == id) s.comments ≡ some c
      → (c.author_id == author_id || is_value user_role "admin") ≡ true
      → s.bus.up ≡ false
      → IsDeletion id author_id user_role s (thrown other_error (delete_where (λ c. c.id == id) s))
  deleted :
      (c : Comment)
      → find (λ c. c.id == id) s.comments ≡ some c
      → (c.author_id == author_id || is_value user_role "admin") ≡ true
      → s.bus.up ≡ true
      → IsDeletion id author_id user_role s
          (done tt (sending (comment_deleted id c.post_id) (delete_where (λ c. c.id == id) s)))

pub delete_comment-IsDeletion :
    (id author_id : String) (user_role : Option String) (s : CommentDb)
    → IsDeletion id author_id user_role s (delete_comment id author_id user_role s)
unfolding delete_comment
delete_comment-IsDeletion id author_id user_role s =
    elim (Option-cases (find (λ c. c.id == id) s.comments)) [
      | inl n ↦
          rw (bind-eq-thrown _ _ s (find_comment-none id s n)) (elim (Bool-cases (s.is_uuid id)) [
            | inl ok ↦ rw ok (no_comment n ok)
            | inr bad ↦ rw bad (malformed n bad)
          ])
      | inr (c, f) ↦
          rw (bind-step _ _ s (find_comment-some id s c f))
            (elim (Bool-cases (c.author_id == author_id || is_value user_role "admin")) [
              | inr not_own ↦
                  rw (bind-eq-thrown _ _ s (require_not _ _ s not_own)) (hidden c f not_own)
              | inl may ↦
                  rw
                    (
                      bind-step _ _ s (require_ok _ (not_found "Comment") s may),
                      bind-step _ _ s (modify_lem _ s),
                    )
                    (elim (Bool-cases s.bus.up) [
                      | inl up ↦
                          rw
                            (publish_up (comment_deleted id c.post_id)
                              (delete_where (λ d. d.id == id) s) up)
                            (deleted c f may up)
                      | inr down ↦
                          rw
                            (publish_down (comment_deleted id c.post_id)
                              (delete_where (λ d. d.id == id) s) down)
                            (unsent c f may down)
                    ])
            ])
    ]
