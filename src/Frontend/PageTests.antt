-- ===== src/Frontend/PageTests.antt =====
-- The theorems on the pages of the frontend at concrete inputs.
use micro_blog.Base.{
  arith, ◌>>=◌, find, string_eq, ◌==◌, ◌≡◌, ◌≢◌, ◌↔◌, ◌≤◌, refl, ℕ, suc, ◌+◌, Text, codes, true,
  not, none, some, List, All, [], ◌∷◌, ◌++◌, any, take, drop, thrown, done, if◌then◌else◌,
}
use micro_blog.Samples.{strokes, strokes_injective}
use micro_blog.Shared.Errors.{not_found, respond}
use micro_blog.Shared.Requests.{parsed}
use micro_blog.Shared.Events.{Bus}
use micro_blog.Post.Store.{Post, PostDb}
use micro_blog.Post.Service.{authorized_post}
use micro_blog.Post.Slug.{is_space}
use micro_blog.Comment.Service as Rows
use micro_blog.Comment.Service.{
  CommentDb, delete_comment, new_comment, create_comment, check_parent, insert_comment, publish,
}
use micro_blog.Comment.Routes.{CreateComment, post_comments}
use micro_blog.Comment.Reachable.{post, start, next, handle}
use micro_blog.Frontend.Session.{User}
use micro_blog.Frontend.Threads.{Shown, can_delete, render_comments, leads_up}
use micro_blog.Frontend.Threads.Page.{tally}
use micro_blog.Frontend.Threads.Served.{received, page_comments, get_comments_by_post-shown}
use micro_blog.Frontend.Buttons.{is_owner, buttons_iff}
use micro_blog.Frontend.Posting.{handle_submit_comment, settle_box, empty_box}
use micro_blog.Frontend.Posting.Shows.{typed, handle_submit_comment-shown}
use micro_blog.Frontend.Toasts.{
  no_toasts, toast, clock, step, run, is_shown, takes_away, info, success,
}
use micro_blog.Frontend.Toasts.Lifetime.{run-toast}
use micro_blog.Frontend.Fields.{trim, trim_start, trim_end}
use micro_blog.Frontend.Editor.{
  Form, PostBody, submitted, blank_form, populate_all, alt_text, uploaded, referenced_ids,
  handle_upload,
}
use micro_blog.Frontend.Editor.Forms.{submitted-populate_all}
use micro_blog.Frontend.Editor.References.{handle_upload-referenced}
use micro_blog.Frontend.Excerpt.{render_excerpt_html}
use micro_blog.Frontend.Excerpt.Pieces.{Piece, IsPiece, html, wordage, render_excerpt_html-pieces}

abbrev bus_up : Bus
bus_up = record { up = true; log = [] }

abbrev question : CreateComment
question = record { post_id = some "p"; content = codes "why?"; parent_id = none }

abbrev answer : CreateComment
answer = record { post_id = some "p"; content = codes "so"; parent_id = some (strokes 0) }

abbrev talk : CommentDb
talk = handle strokes (post 6 (some "bob") (some answer)) (
    handle strokes (post 5 (some "ann") (some question))
      (record { comments = []; bus = bus_up; drawn = 0; is_uuid = λ id. true }))

abbrev no_times : ℕ → Text
no_times t = []

get_comments_by_post-shown_example :
    (shown : List Shown) × (render_comments none
        (suc talk.drawn)
        (page_comments no_times "p" 1 20 talk)
      ≡ some shown)
    × (tally (strokes 1) shown ≡ (
        if leads_up (suc talk.drawn) (page_comments no_times "p" 1 20 talk) (strokes 1)
        then 1
        else 0))
get_comments_by_post-shown_example =
    get_comments_by_post-shown strokes strokes_injective no_times none "p" 1 20 (strokes 1) (
      next (post 6 (some "bob") (some answer)) _
        (next (post 5 (some "ann") (some question)) _ (start bus_up (λ id. true))))

abbrev thanks : CreateComment
thanks = record { post_id = some "p"; content = codes "thanks"; parent_id = none }

handle_submit_comment-shown_example :
    let t = handle strokes (post 7 (some "eve") (some thanks)) talk in
    let reply = (respond (post_comments strokes 7 (some "eve") (some thanks) talk)).0 in
    (find (λ c. c.id == strokes talk.drawn) (page_comments no_times "p" 1 20 t)
      ≡ some (
          received no_times
            (new_comment strokes 7 "p" "eve" (trim (codes " thanks ")) none talk.drawn)))
    × ((shown : List Shown) × (render_comments none
            (suc t.drawn)
            (page_comments no_times "p" 1 20 t)
          ≡ some shown)
        × (tally (strokes talk.drawn) shown ≡ 1))
    × (settle_box reply (typed (codes " thanks "))
        ≡ (if talk.bus.up then empty_box else typed (codes " thanks ")))
unfolding handle post_comments create_comment check_parent insert_comment publish parsed ◌>>=◌
    handle_submit_comment trim trim_start trim_end is_space
handle_submit_comment-shown_example =
    handle_submit_comment-shown strokes strokes_injective no_times none 7 "eve" "p"
      (codes " thanks ") thanks
      (next (post 6 (some "bob") (some answer)) _
        (next (post 5 (some "ann") (some question)) _ (start bus_up (λ id. true))))
      refl refl (omega arith, (omega arith, tt)) refl

abbrev ann : User
ann = record {
  id = codes "a";
  username = codes "ann";
  email = codes "ann@x.org";
  role = codes "writer";
  bio = none;
  created_at = codes "2024";
}

abbrev written : Post
written = record {
  id = "x";
  title = codes "Title";
  slug = codes "title";
  content = codes "text";
  author_id = "a";
  status = "draft";
  published_at = none;
  created_at = 1;
  updated_at = 1;
}

abbrev blog : PostDb
blog = record {
  posts = written ∷ [];
  tags = [];
  post_tags = [];
  bus = bus_up;
  drawn = 1;
  order = λ names. names;
}

abbrev remark : Rows.Comment
remark = record {
  id = "c";
  post_id = "x";
  author_id = "b";
  parent_id = none;
  content = codes "text";
  created_at = 1;
  updated_at = 1;
}

abbrev remarks : CommentDb
remarks = record { comments = remark ∷ []; bus = bus_up; drawn = 1; is_uuid = λ id. true }

buttons_iff_example :
    ((is_owner (some ann) "a" ≡ true)
      ↔ (authorized_post "x" "a" (some "writer") blog ≡ done written blog))
    × ((can_delete (some ann) (received no_times remark) ≡ true)
        ↔ (delete_comment "c" "a" (some "writer") remarks ≢ thrown (not_found "Comment") remarks))
buttons_iff_example =
    buttons_iff ann "a" "writer" no_times blog written remarks remark
      (record { same_id = refl; same_role = refl }) refl refl

run-toast_example :
    is_shown 1 (
      run (clock 5000 ∷ clock 5001 ∷ []) (
        step
          (toast 1001 (codes "Saved") success)
          (run (toast 900 (codes "Hello") info ∷ []) no_toasts)))
    ≡ not (any (takes_away (1001 + 4000) 1) (clock 5000 ∷ clock 5001 ∷ []))
unfolding run step
run-toast_example =
    run-toast (toast 900 (codes "Hello") info ∷ []) (clock 5000 ∷ clock 5001 ∷ []) 1001
      (codes "Saved") success

abbrev fetched : PostBody
fetched = record {
  title = codes " Title ";
  content = codes "text";
  tags = codes "go" ∷ codes "web dev" ∷ [];
  status = codes "published";
}

submitted-populate_all_example :
    submitted (populate_all (fetched ∷ fetched ∷ []) blank_form)
    ≡ some (record fetched { title = trim fetched.title; content = trim fetched.content })
unfolding trim trim_start trim_end is_space
submitted-populate_all_example =
    submitted-populate_all fetched (fetched ∷ [])
      (
        record { something = refl; trimmed = refl; no_comma = (refl, (refl, tt)) },
        (
          record {
            something = refl;
            trimmed = refl;
            no_comma = (refl, (refl, (refl, (refl, (refl, (refl, (refl, tt)))))));
          },
          tt,
        ),
      )
      refl refl refl

abbrev draft_form : Form
draft_form = record blank_form { content = codes "See ![x](/api/media/0a-1) there" }

handle_upload-referenced_example :
    let content =
      (handle_upload
        (codes "video/mp4")
        (codes "a[1].mp4")
        (uploaded (codes "ab-3") (some (codes "video/mp4")))
        26
        27
        draft_form).0.content in
    ((inserted : Text) × (content
        ≡ take 26 draft_form.content ++ (inserted ++ drop 27 draft_form.content)))
    × (referenced_ids content
        ≡ referenced_ids (take 26 draft_form.content)
          ++ (referenced_ids (alt_text (some (codes "video/mp4")) (codes "a[1].mp4"))
              ++ codes "ab-3" ∷ referenced_ids (drop 27 draft_form.content)))
handle_upload-referenced_example =
    handle_upload-referenced (codes "video/mp4") (codes "a[1].mp4") (codes "ab-3")
      (some (codes "video/mp4")) 26 27 draft_form refl refl

render_excerpt_html-pieces_example :
    (pieces : List Piece) × (render_excerpt_html (codes "# <b>![x](/api/media/0a-1)`code`")
      ≡ html pieces)
    × All IsPiece pieces
    × (wordage pieces ≤ 250)
render_excerpt_html-pieces_example =
    render_excerpt_html-pieces (codes "# <b>![x](/api/media/0a-1)`code`")
