-- ===== src/Frontend/Threads/Counting.antt =====
-- services/frontend/src/pages/PostPage.tsx: what `replyMap` holds, and how often an identifier comes in a list.
use micro_blog.Base.{
  ◌≡◌, refl, ◌∙◌, inl, inr, ℕ, String, string_eq, ◌==◌, ==_iff, Bool, true, false, ◌&&◌, none, some,
  List, [], ◌∷◌, ◌++◌, arith, filter, find, any, Bool-cases, if◌then◌else◌,
}
use mathlib.Core.List.{append-nil, append_assoc}
use micro_blog.Sql.{count}
use micro_blog.Sql.Distinct.{Distinct}
use micro_blog.Frontend.Threads.{
  Comment, ReplyMap, replies_to, add_reply, add_replies, reply_map, parent_of, is_reply,
}

abbrev pub same_id : Comment → Comment → Bool
same_id c d = c.id == d.id

abbrev pub one : Bool → ℕ
one b = if b then 1 else 0

-- Is the comment a reply to that one?
abbrev pub is_reply_to : String → Comment → Bool
is_reply_to id r = is_reply r && parent_of r == id

replies_to-add_reply :
    (id key : String) (r : Comment) (m : ReplyMap)
    → replies_to id (add_reply key r m)
      ≡ (if key == id then replies_to id m ++ r ∷ [] else replies_to id m)
unfolding replies_to add_reply
replies_to-add_reply id key r [] = refl
replies_to-add_reply id key r ((k, replies) ∷ m) =
    ground (arith, ==_iff k key, ==_iff k id, ==_iff key id, replies_to-add_reply id key r m)

replies_to-add_replies :
    (id : String) (rs : List Comment) (m : ReplyMap)
    → replies_to id (add_replies rs m) ≡ replies_to id m ++ filter (λ r. parent_of r == id) rs
unfolding add_replies
replies_to-add_replies id [] m = simp append-nil
replies_to-add_replies id (r ∷ rs) m =
    replies_to-add_replies id rs (add_reply (parent_of r) r m)
    ∙ rw (replies_to-add_reply id (parent_of r) r m) (elim (Bool-cases (parent_of r == id)) [
      | inl y ↦ rw y (append_assoc (replies_to id m) (r ∷ []) _)
      | inr n ↦ rw n refl
    ])

filter-filter :
    (id : String) (cs : List Comment)
    → filter (λ r. parent_of r == id) (filter is_reply cs) ≡ filter (is_reply_to id) cs
filter-filter id [] = refl
filter-filter id (c ∷ cs) = elim (Bool-cases (is_reply c)) [
  | inl y ↦ rw (y, filter-filter id cs) refl
  | inr n ↦ rw (n, filter-filter id cs) refl
]

pub replies_to-reply_map :
    (id : String) (cs : List Comment) → replies_to id (reply_map cs) ≡ filter (is_reply_to id) cs
unfolding replies_to
replies_to-reply_map id cs = replies_to-add_replies id (filter is_reply cs) [] ∙ filter-filter id cs

-- How often the identifier comes among the comments.
abbrev pub among : String → List Comment → ℕ
among id = count (λ c. c.id == id)

among_absent :
    (p : Comment → Bool) (id : String) (cs : List Comment)
    → find (λ c. c.id == id) cs ≡ none
    → among id (filter p cs) ≡ 0
among_absent p id [] h = refl
among_absent p id (c ∷ cs) h = ground (arith, among_absent p id cs)

find-absent :
    (c : Comment) (id : String) (cs : List Comment)
    → (c.id == id) ≡ true
    → any (same_id c) cs ≡ false
    → find (λ d. d.id == id) cs ≡ none
find-absent c id [] e h = refl
find-absent c id (d ∷ cs) e h =
    ground (arith, ==_iff c.id id, ==_iff d.id id, ==_iff c.id d.id, find-absent c id cs)

-- Among the comments that pass a test, where the identifier stands for one comment at most.
pub among-filter :
    (p : Comment → Bool) (id : String) (cs : List Comment)
    → Distinct same_id cs
    → among id (filter p cs) ≡ elim (find (λ c. c.id == id) cs) [ none ↦ 0 | some c ↦ one (p c) ]
among-filter p id [] d = refl
among-filter p id (c ∷ cs) (new, d) = elim (Bool-cases (c.id == id)) [
  | inr n ↦ ground (arith, among-filter p id cs d)
  | inl y ↦ ground (arith, among_absent p id cs (find-absent c id cs y new))
]
