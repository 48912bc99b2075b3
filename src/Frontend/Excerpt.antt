-- ===== src/Frontend/Excerpt.antt =====
-- services/frontend/src/lib/stripMarkdown.ts and lib/renderExcerpt.tsx: the beginning of a post, as HTML.
pub mod Pieces
use micro_blog.Base.{
  ◌≡◌, ℕ, zero, suc, ◌+◌, ◌-◌, Text, codes, nat_eq, ◌==◌, Bool, true, false, not, ◌&&◌, ◌||◌,
  Option, none, some, List, [], ◌∷◌, ◌++◌, length, take, drop, filter, any, if◌then◌else◌,
}
use micro_blog.Frontend.Escape.{escape_html, starts_with}
use micro_blog.Frontend.Fields.{trim, is_blank}
use micro_blog.Frontend.Editor.{media_prefix, id_run, newline}

abbrev pub backtick : ℕ
backtick = 96

abbrev pub fence : Text
fence = codes "```"

-- How many code units stand before the first fence.
unfoldable pub before_fence : Text → Option ℕ
before_fence [] = none
before_fence (c ∷ s) = elim (starts_with fence (c ∷ s)) [
  | true ↦ some 0
  | false ↦ elim (before_fence s) [ none ↦ none | some n ↦ some (suc n) ]
]

-- The length of a match of /```[\s\S]*?```/ at the beginning.
abbrev pub fenced_at : Text → Option ℕ
fenced_at s = elim (starts_with fence s) [
  | false ↦ none
  | true ↦ elim (before_fence (drop 3 s)) [ none ↦ none | some n ↦ some (6 + n) ]
]

abbrev pub code_run : Text → Text
code_run [] = []
code_run (c ∷ s) = if c == backtick then [] else c ∷ code_run s

-- The length of a match of /`[^`]+`/ at the beginning.
abbrev pub code_at : Text → Option ℕ
code_at [] = none
code_at (c ∷ s) =
    let n = length (code_run s) in
    if c == backtick && not (is_blank (code_run s)) && starts_with (backtick ∷ []) (drop n s)
    then some (2 + n)
    else none

-- `replace(…, '')`, for a pattern by the length of its match; a match is skipped as a whole.
unfoldable pub remove_matches : (Text → Option ℕ) → ℕ → Text → Text
remove_matches match skip [] = []
remove_matches match (suc skip) (c ∷ s) = remove_matches match skip s
remove_matches match zero (c ∷ s) = elim (match (c ∷ s)) [
  | none ↦ c ∷ remove_matches match zero s
  | some n ↦ remove_matches match (n - 1) s
]

-- /[#*>\-_\[\]()!]/
abbrev pub is_mark : ℕ → Bool
is_mark c = any (λ d. d == c) (codes "#*>-_[]()!")

-- `replace(/\n+/g, ' ')`; the flag tells that the code unit before was replaced.
unfoldable pub join_lines : Bool → Text → Text
join_lines in_run [] = []
join_lines in_run (c ∷ s) =
    let rest = join_lines (c == newline) s in
    if c == newline then (if in_run then rest else 32 ∷ rest) else c ∷ rest

unfoldable pub strip_markdown : Text → Text
unfolding before_fence remove_matches join_lines trim
strip_markdown text = trim (
    join_lines false
      (filter (λ c. not (is_mark c)) (remove_matches code_at 0 (remove_matches fenced_at 0 text))))

-- What stands before the `]` that ends a text in brackets.
abbrev pub bracket_run : Text → Text
bracket_run [] = []
bracket_run (c ∷ s) = if c == 93 then [] else c ∷ bracket_run s

-- A match of /!\[[^\]]*\]\(\/api\/media\/[a-f0-9-]+\)/ at the beginning: the identifier, and the length.
unfoldable pub image_at : Text → Option (Text × ℕ)
image_at s =
    let label = bracket_run (drop 2 s) in
    let address = drop (2 + length label) s in
    let id = id_run (drop 13 address) in
    if starts_with (codes "![") s
      && starts_with (codes "](" ++ media_prefix) address
      && not (is_blank id)
      && starts_with (codes ")") (drop (13 + length id) address)
    then some (id, 2 + length label + 13 + length id + 1)
    else none

-- What `split` makes of the text: a match, or what stands between two.
pub data Part : Type 0 where
  image : (id : Text) → Part
  text : (s : Text) → Part

abbrev pub before_parts : ℕ → List Part → List Part
before_parts c [] = text (c ∷ []) ∷ []
before_parts c (text s ∷ parts) = text (c ∷ s) ∷ parts
before_parts c (image id ∷ parts) = text (c ∷ []) ∷ image id ∷ parts

unfoldable pub parts_after : ℕ → Text → List Part
parts_after skip [] = text [] ∷ []
parts_after (suc skip) (c ∷ s) = parts_after skip s
parts_after zero (c ∷ s) = elim (image_at (c ∷ s)) [
  | none ↦ before_parts c (parts_after zero s)
  | some (id, n) ↦ text [] ∷ image id ∷ parts_after (n - 1) s
]

abbrev pub max_text : ℕ
max_text = 250

abbrev pub thumbnail : Text → Text
thumbnail id =
    codes "<img class=\"post-card__thumb\" src=\""
    ++ ((media_prefix ++ id) ++ codes "\" alt=\"\" loading=\"lazy\">")

-- The loop over the parts; `text_len` counts the code units of text so far.
unfoldable pub render_parts : (text_len : ℕ) → List Part → Text
render_parts text_len [] = []
render_parts text_len (image id ∷ parts) = thumbnail id ++ render_parts text_len parts
render_parts text_len (text s ∷ parts) =
    let words = take (max_text - text_len) (strip_markdown s) in
    escape_html words ++ render_parts (text_len + length words) parts

unfoldable pub render_excerpt_html : Text → Text
unfolding parts_after render_parts image_at
render_excerpt_html content = render_parts 0 (parts_after 0 content)
