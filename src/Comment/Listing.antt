-- ===== src/Comment/Listing.antt =====
-- What the pages of GET /posts/:postId/comments show together.
use mathlib.Core.List.{Perm}
use micro_blog.Base.{
  ◌≡◌, ◌≤◌, refl, ℕ, zero, suc, ◌*◌, String, string_eq, ◌==◌, List, [], ◌++◌, filter, length,
}
use micro_blog.Sql.{order_desc}
use micro_blog.Sql.Pages.{pages, pages_cover}
use micro_blog.Sql.Sorting.{
  IsDescending, order_desc-perm, order_desc-IsDescending, length-order_desc,
}
use micro_blog.Comment.Service.{Comment, CommentDb, get_comments_by_post}

-- The first `n` pages, one after the other.
abbrev pub read_pages : (n limit : ℕ) → String → CommentDb → List Comment
read_pages zero limit post_id s = []
read_pages (suc n) limit post_id s =
    read_pages n limit post_id s ++ (get_comments_by_post post_id (suc n) limit s).comments

abbrev on_post : String → CommentDb → List Comment
on_post post_id s = filter (λ c. c.post_id == post_id) s.comments

read_pages-eq-pages :
    (n limit : ℕ) (post_id : String) (s : CommentDb)
    → read_pages n limit post_id s
      ≡ pages n limit (order_desc (λ c. c.created_at) (on_post post_id s))
unfolding get_comments_by_post
read_pages-eq-pages zero limit post_id s = refl
read_pages-eq-pages (suc n) limit post_id s = rw (read_pages-eq-pages n limit post_id s) refl

-- Where `total`, as the first page gives it, is at most `n` times the limit, the first `n` pages show
-- each comment on the post once, and the newest first, if the table does not change between them.
pub read_pages_cover :
    (n limit : ℕ) (post_id : String) (s : CommentDb)
    → (get_comments_by_post post_id 1 limit s).total ≤ n * limit
    → Perm (read_pages n limit post_id s) (on_post post_id s)
      × IsDescending (λ c. c.created_at) (read_pages n limit post_id s)
unfolding get_comments_by_post
read_pages_cover n limit post_id s h =
    let sorted = order_desc (λ (c : Comment). c.created_at) (on_post post_id s) in
    let fits : length sorted ≤ n * limit =
      rw (length-order_desc (λ (c : Comment). c.created_at) (on_post post_id s)) h in
    rw (read_pages-eq-pages n limit post_id s, pages_cover n limit sorted fits)
      (order_desc-perm _ (on_post post_id s), order_desc-IsDescending _ (on_post post_id s))
