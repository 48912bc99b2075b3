-- ===== src/Frontend/Editor.antt =====
-- services/frontend/src/pages/ComposePage.tsx and EditPage.tsx: the form of a post, what is inserted into its text, and
-- what is sent.
pub mod References
pub mod Forms
use micro_blog.Base.{
  ◌≡◌, ℕ, zero, suc, ◌+◌, Text, codes, nat_eq, text_eq, ◌==◌, Bool, true, false, not, ◌&&◌, ◌||◌,
  Option, none, some, List, [], ◌∷◌, ◌++◌, length, take, drop, filter, leb, or_else, if◌then◌else◌,
}
use micro_blog.Frontend.Escape.{starts_with}
use micro_blog.Frontend.Fields.{trim, is_blank, join, read_tags}
use micro_blog.Frontend.Toasts.{ToastType, success, error}

abbrev pub newline : ℕ
newline = 10

abbrev pub ends_with_newline : Text → Bool
ends_with_newline [] = false
ends_with_newline (c ∷ []) = c == newline
ends_with_newline (c ∷ d ∷ s) = ends_with_newline (d ∷ s)

-- `needBefore` and `needAfter`
abbrev pub need_before : Text → Text
need_before before =
    if not (is_blank before) && not (ends_with_newline before) then newline ∷ [] else []

abbrev pub need_after : Text → Text
need_after after =
    if not (is_blank after) && not (starts_with (newline ∷ []) after) then newline ∷ [] else []

-- `insertAtCursor`: the new value, and where the cursor goes.
unfoldable pub insert_at_cursor : (text value : Text) (start end : ℕ) → Text × ℕ
insert_at_cursor text value start end =
    let before = take start value in
    let after = drop end value in
    let insert = need_before before ++ (text ++ need_after after) in
    (before ++ (insert ++ after), start + length insert)

-- `file.name.replace(/\[|\]/g, '')`
abbrev pub without_brackets : Text → Text
without_brackets name = filter (λ c. not (c == b'[' || c == b']')) name

-- `content_type?.startsWith('video/')`
abbrev pub is_video : Option Text → Bool
is_video content_type = starts_with (codes "video/") (or_else content_type [])

abbrev pub alt_text : Option Text → Text → Text
alt_text content_type name =
    if is_video content_type then codes "video:" ++ without_brackets name else without_brackets name

-- The template literal that `handleUpload` and `onInsert` insert.
abbrev pub media_prefix : Text
media_prefix = codes "/api/media/"

unfoldable pub reference : Option Text → (name id : Text) → Text
reference content_type name id =
    codes "!["
    ++ (alt_text content_type name ++ (codes "](" ++ (media_prefix ++ (id ++ codes ")"))))

-- `[a-f0-9-]`
abbrev pub is_id_unit : ℕ → Bool
is_id_unit c = (leb 97 c && leb c 102) || (leb 48 c && leb c 57) || c == 45

abbrev pub id_run : Text → Text
id_run [] = []
id_run (c ∷ s) = if is_id_unit c then c ∷ id_run s else []

-- What `refRegex` captures at the very beginning.
unfoldable pub id_at : Text → Text
id_at s = if starts_with media_prefix s then id_run (drop 11 s) else []

-- The rest of a match is skipped, and the search goes on after it.
unfoldable pub ids_after : ℕ → Text → List Text
ids_after skip [] = []
ids_after (suc skip) (c ∷ s) = ids_after skip s
ids_after zero (c ∷ s) = elim (is_blank (id_at (c ∷ s))) [
  | true ↦ ids_after zero s
  | false ↦ id_at (c ∷ s) ∷ ids_after (10 + length (id_at (c ∷ s))) s
]

-- What the loop over `refRegex.exec(content)` adds to `referencedIds`, in order.
unfoldable pub referenced_ids : Text → List Text
referenced_ids content = ids_after zero content

pub record Form : Type 0 where
  pub title : Text
  pub content : Text
  pub tags : Text
  pub status : Text
  pub initialized : Bool
  pub session_media : List Text

-- The answer to an upload.
pub data Upload : Type 0 where
  uploaded : (id : Text) (content_type : Option Text) → Upload
  failed : (message : Text) → Upload

-- `err.message || fallback`
abbrev pub or_text : Text → Text → Text
or_text s fallback = if is_blank s then fallback else s

-- `handleUpload`, with the answer that the upload gets, where a file of another type is not uploaded.
unfoldable pub handle_upload :
    (kind name : Text) → Upload → (start end : ℕ) → Form → Form × Text × ToastType
handle_upload kind name upload start end form =
    if not (starts_with (codes "image/") kind) && not (starts_with (codes "video/") kind)
    then (form, codes "Only image and video files are supported", error)
    else elim upload [
      | failed message ↦ (form, or_text message (codes "Upload failed"), error)
      | uploaded id content_type ↦ (
        record form {
          content = (insert_at_cursor (reference content_type name id) form.content start end).0;
          session_media = form.session_media ++ id ∷ [];
        },
        codes "Media uploaded",
        success,
      )
    ]

pub record PostBody : Type 0 where
  pub title : Text
  pub content : Text
  pub tags : List Text
  pub status : Text

-- `handleSubmit` and `handleUpdate` up to the request; `none` where the form is refused.
unfoldable pub submitted : Form → Option PostBody
submitted form =
    if is_blank (trim form.title) || is_blank (trim form.content)
    then none
    else some (record {
      title = trim form.title;
      content = trim form.content;
      tags = read_tags form.tags;
      status = form.status;
    })

-- `useState` of the page that edits
abbrev pub blank_form : Form
blank_form = record {
  title = [];
  content = [];
  tags = [];
  status = codes "draft";
  initialized = false;
  session_media = [];
}

-- The effect that fills the form once the post is there; it runs whenever the post is fetched again.
unfoldable pub populate : PostBody → Form → Form
populate post form = if form.initialized then form else record form {
  title = post.title;
  content = post.content;
  tags = join post.tags;
  status = or_text post.status (codes "draft");
  initialized = true;
}

unfoldable pub populate_all : List PostBody → Form → Form
unfolding populate
populate_all [] form = form
populate_all (post ∷ posts) form = populate_all posts (populate post form)
