-- ===== src/Frontend/Excerpt/Pieces.antt =====
-- services/frontend/src/lib/renderExcerpt.tsx: what an excerpt is made of.
use micro_blog.Base.{
  ◌≡◌, refl, sym, ap, inl, inr, ℕ, zero, suc, ◌+◌, ◌-◌, ◌≤◌, Text, codes, true, not, ◌&&◌, none,
  some, List, [], ◌∷◌, ◌++◌, arith, length, length-take, take, drop, all, All, Bool-cases,
  Option-cases,
}
use micro_blog.Frontend.Escape.{escape_html, escape_html-inert, is_inert, shown, starts_with}
use micro_blog.Frontend.Fields.{is_blank}
use micro_blog.Frontend.Editor.{media_prefix, id_run, is_id_unit}
use micro_blog.Frontend.Editor.References.{is_media_id}
use micro_blog.Frontend.Excerpt.{
  Part, image, text, image_at, bracket_run, strip_markdown, before_parts, parts_after, max_text,
  thumbnail, render_parts, render_excerpt_html,
}

-- A picture of the media service, or words.
pub data Piece : Type 0 where
  picture : (id : Text) → Piece
  words : (s : Text) → Piece

abbrev pub html : List Piece → Text
html [] = []
html (picture id ∷ pieces) = thumbnail id ++ html pieces
html (words s ∷ pieces) = escape_html s ++ html pieces

abbrev pub wordage : List Piece → ℕ
wordage [] = 0
wordage (picture id ∷ pieces) = wordage pieces
wordage (words s ∷ pieces) = length s + wordage pieces

-- The address of a picture ends no attribute, and words hold no mark-up and are shown as they are.
abbrev pub IsPiece : Piece → Type 0
IsPiece (picture id) = is_media_id id ≡ true
IsPiece (words s) = All (λ c. is_inert c ≡ true) (escape_html s) × (shown (escape_html s) ≡ s)

abbrev IsPart : Part → Type 0
IsPart (image id) = is_media_id id ≡ true
IsPart (text s) = Unit {0}

all-id_run : (s : Text) → all is_id_unit (id_run s) ≡ true
all-id_run [] = refl
all-id_run (c ∷ s) = ground (arith, all-id_run s)

image_at-IsPart : (s id : Text) (n : ℕ) → image_at s ≡ some (id, n) → is_media_id id ≡ true
unfolding image_at
image_at-IsPart s id n e =
    let address = drop (2 + length (bracket_run (drop 2 s))) s in
    let run = id_run (drop 13 address) in
    elim (Bool-cases (
      starts_with (codes "![") s
      && starts_with (codes "](" ++ media_prefix) address
      && not (is_blank run)
      && starts_with (codes ")") (drop (13 + length run) address))) [
        | inr f ↦ cc (rw f at e)
        | inl y ↦
            let same : run ≡ id = cc (rw y at e) in
            let units = all-id_run (drop 13 address) in rw (sym same) (ground arith)
      ]

before_parts-IsPart :
    (c : ℕ) (parts : List Part) → All IsPart parts → All IsPart (before_parts c parts)
before_parts-IsPart c [] h = (tt, tt)
before_parts-IsPart c (text s ∷ parts) (t, h) = (tt, h)
before_parts-IsPart c (image id ∷ parts) (i, h) = (tt, (i, h))

parts_after-none :
    (c : ℕ) (s : Text)
    → image_at (c ∷ s) ≡ none
    → parts_after zero (c ∷ s) ≡ before_parts c (parts_after zero s)
unfolding parts_after
parts_after-none c s e = rw (parts_after, e) refl

parts_after-some :
    (c : ℕ) (s id : Text) (n : ℕ)
    → image_at (c ∷ s) ≡ some (id, n)
    → parts_after zero (c ∷ s) ≡ text [] ∷ image id ∷ parts_after (n - 1) s
unfolding parts_after
parts_after-some c s id n e = rw (parts_after, e) refl

parts_after-IsPart : (skip : ℕ) (s : Text) → All IsPart (parts_after skip s)
unfolding parts_after
parts_after-IsPart skip [] = (tt, tt)
parts_after-IsPart (suc skip) (c ∷ s) = parts_after-IsPart skip s
parts_after-IsPart zero (c ∷ s) = elim (Option-cases (image_at (c ∷ s))) [
  | inl e ↦
      rw (parts_after-none c s e)
        (before_parts-IsPart c (parts_after zero s) (parts_after-IsPart zero s))
  | inr ((id, n), e) ↦
      rw (parts_after-some c s id n e)
        (tt, (image_at-IsPart (c ∷ s) id n e, parts_after-IsPart (n - 1) s))
]

render_parts-pieces :
    (text_len : ℕ) (parts : List Part)
    → text_len ≤ max_text
    → All IsPart parts
    → (pieces : List Piece) × (render_parts text_len parts ≡ html pieces)
      × All IsPiece pieces
      × (text_len + wordage pieces ≤ max_text)
unfolding render_parts
render_parts-pieces text_len [] le h = ([], refl, tt, omega arith)
render_parts-pieces text_len (image id ∷ parts) le (i, h) =
    let (pieces, e, ok, few) = render_parts-pieces text_len parts le h in
    (picture id ∷ pieces, ap (λ (s : Text). thumbnail id ++ s) e, (i, ok), few)
render_parts-pieces text_len (text s ∷ parts) le (_, h) =
    let w = take (max_text - text_len) (strip_markdown s) in
    let short = length-take (max_text - text_len) (strip_markdown s) in
    let (pieces, e, ok, few) =
      render_parts-pieces (text_len + length w) parts (omega (arith, short)) h in
    (
      words w ∷ pieces,
      ap (λ (s : Text). escape_html w ++ s) e,
      (escape_html-inert w, ok),
      omega arith,
    )

-- An excerpt is made of pictures of the media service, whose address is of hexadecimal digits and dashes, and of words,
-- in all at most 250 code units, that hold no angle bracket and no quotation mark in the page and that the
-- browser shows as they are.
pub render_excerpt_html-pieces :
    (content : Text)
    → (pieces : List Piece) × (render_excerpt_html content ≡ html pieces)
      × All IsPiece pieces
      × (wordage pieces ≤ 250)
unfolding render_excerpt_html
render_excerpt_html-pieces content =
    let (pieces, e, ok, few) =
      render_parts-pieces 0 (parts_after 0 content) (omega arith) (parts_after-IsPart 0 content) in
    (pieces, e, ok, omega arith)
