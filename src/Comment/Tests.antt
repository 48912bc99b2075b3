-- ===== src/Comment/Tests.antt =====
-- Runs of the comment service at concrete inputs, and its theorems at them.
use micro_blog.Samples.{strokes, strokes_injective}
use micro_blog.Base.{◌≡◌, refl, codes, true, none, some, [], ◌∷◌, string_eq, length, ◌>>=◌}
use micro_blog.Shared.Events.{Bus}
use micro_blog.Comment.Service.{CommentDb, create_comment, check_parent, insert_comment, publish}
use micro_blog.Comment.Routes.{CreateComment, post_comments}
use micro_blog.Shared.Requests.{parsed}
use micro_blog.Comment.Threads.{IsWellFormed}
use micro_blog.Comment.Reachable.{post, start, next, handle, Reachable-IsWellFormed}

abbrev bus_up : Bus
bus_up = record { up = true; log = [] }

abbrev empty : CommentDb
empty = record { comments = []; bus = bus_up; drawn = 0; is_uuid = λ id. true }

abbrev first : CreateComment
first = record { post_id = some "p"; content = codes "first"; parent_id = none }

abbrev second : CreateComment
second = record { post_id = some "p"; content = codes "second"; parent_id = some (strokes 1) }

abbrev posted_twice : CommentDb
posted_twice = handle strokes (post 7 (some "bob") (some second)) (
    handle strokes (post 6 (some "ann") (some first))
      (handle strokes (post 5 (some "ann") (some first)) empty))

Reachable-IsWellFormed_example : IsWellFormed strokes posted_twice
Reachable-IsWellFormed_example = Reachable-IsWellFormed strokes strokes_injective (
    next (post 7 (some "bob") (some second)) _ (
      next (post 6 (some "ann") (some first)) _
        (next (post 5 (some "ann") (some first)) _ (start bus_up (λ id. true)))))

-- All three were stored.
posted_run : length posted_twice.comments ≡ 3
unfolding handle post_comments create_comment check_parent insert_comment publish parsed ◌>>=◌
posted_run = refl

abbrev one : CommentDb
one = record {
  comments =
      record {
        id = "c";
        post_id = "p";
        author_id = "ann";
        parent_id = none;
        content = codes "text";
        created_at = 1;
        updated_at = 1;
      }
      ∷ [];
  bus = bus_up;
  drawn = 0;
  is_uuid = λ id. true;
}
