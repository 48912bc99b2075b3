-- ===== src/Captcha/Glyphs.antt =====
-- The bitmaps of services/captcha/src/captcha.ts and the cells that `renderGlyphPath` fills. Where a
-- cell is drawn, and how large, depends on fractions and is left out.
use micro_blog.Base.{
  ◌≡◌, refl, ℕ, zero, suc, ◌+◌, ◌-◌, ◌/◌, ◌%◌, ◌<◌, arith, Text, Bool, true, not, ◌&&◌, Option,
  none, some, List, [], ◌∷◌, ◌++◌, length, length-append, all, All, All-append, nat_eq, ◌==◌,
  if◌then◌else◌, ltb,
}
use micro_blog.Captcha.Store.{charset, char_at, random_text}

-- `GLYPHS`: for each character its seven rows of five bits, the leftmost highest.
abbrev pub glyphs : List (ℕ × List ℕ)
glyphs =
    (b'A', 14 ∷ 17 ∷ 17 ∷ 31 ∷ 17 ∷ 17 ∷ 17 ∷ [])
    ∷ (b'B', 30 ∷ 17 ∷ 17 ∷ 30 ∷ 17 ∷ 17 ∷ 30 ∷ [])
    ∷ (b'C', 14 ∷ 17 ∷ 16 ∷ 16 ∷ 16 ∷ 17 ∷ 14 ∷ [])
    ∷ (b'D', 30 ∷ 17 ∷ 17 ∷ 17 ∷ 17 ∷ 17 ∷ 30 ∷ [])
    ∷ (b'E', 31 ∷ 16 ∷ 16 ∷ 30 ∷ 16 ∷ 16 ∷ 31 ∷ [])
    ∷ (b'F', 31 ∷ 16 ∷ 16 ∷ 30 ∷ 16 ∷ 16 ∷ 16 ∷ [])
    ∷ (b'G', 14 ∷ 17 ∷ 16 ∷ 23 ∷ 17 ∷ 17 ∷ 14 ∷ [])
    ∷ (b'H', 17 ∷ 17 ∷ 17 ∷ 31 ∷ 17 ∷ 17 ∷ 17 ∷ [])
    ∷ (b'J', 7 ∷ 2 ∷ 2 ∷ 2 ∷ 2 ∷ 18 ∷ 12 ∷ [])
    ∷ (b'K', 17 ∷ 18 ∷ 20 ∷ 24 ∷ 20 ∷ 18 ∷ 17 ∷ [])
    ∷ (b'L', 16 ∷ 16 ∷ 16 ∷ 16 ∷ 16 ∷ 16 ∷ 31 ∷ [])
    ∷ (b'M', 17 ∷ 27 ∷ 21 ∷ 21 ∷ 17 ∷ 17 ∷ 17 ∷ [])
    ∷ (b'N', 17 ∷ 25 ∷ 21 ∷ 19 ∷ 17 ∷ 17 ∷ 17 ∷ [])
    ∷ (b'P', 30 ∷ 17 ∷ 17 ∷ 30 ∷ 16 ∷ 16 ∷ 16 ∷ [])
    ∷ (b'Q', 14 ∷ 17 ∷ 17 ∷ 17 ∷ 21 ∷ 18 ∷ 13 ∷ [])
    ∷ (b'R', 30 ∷ 17 ∷ 17 ∷ 30 ∷ 20 ∷ 18 ∷ 17 ∷ [])
    ∷ (b'S', 14 ∷ 17 ∷ 16 ∷ 14 ∷ 1 ∷ 17 ∷ 14 ∷ [])
    ∷ (b'T', 31 ∷ 4 ∷ 4 ∷ 4 ∷ 4 ∷ 4 ∷ 4 ∷ [])
    ∷ (b'U', 17 ∷ 17 ∷ 17 ∷ 17 ∷ 17 ∷ 17 ∷ 14 ∷ [])
    ∷ (b'V', 17 ∷ 17 ∷ 17 ∷ 17 ∷ 10 ∷ 10 ∷ 4 ∷ [])
    ∷ (b'W', 17 ∷ 17 ∷ 17 ∷ 21 ∷ 21 ∷ 27 ∷ 17 ∷ [])
    ∷ (b'X', 17 ∷ 17 ∷ 10 ∷ 4 ∷ 10 ∷ 17 ∷ 17 ∷ [])
    ∷ (b'Y', 17 ∷ 17 ∷ 10 ∷ 4 ∷ 4 ∷ 4 ∷ 4 ∷ [])
    ∷ (b'Z', 31 ∷ 1 ∷ 2 ∷ 4 ∷ 8 ∷ 16 ∷ 31 ∷ [])
    ∷ (b'a', 0 ∷ 0 ∷ 14 ∷ 1 ∷ 15 ∷ 17 ∷ 15 ∷ [])
    ∷ (b'b', 16 ∷ 16 ∷ 22 ∷ 25 ∷ 17 ∷ 17 ∷ 30 ∷ [])
    ∷ (b'c', 0 ∷ 0 ∷ 14 ∷ 16 ∷ 16 ∷ 17 ∷ 14 ∷ [])
    ∷ (b'd', 1 ∷ 1 ∷ 13 ∷ 19 ∷ 17 ∷ 17 ∷ 15 ∷ [])
    ∷ (b'e', 0 ∷ 0 ∷ 14 ∷ 17 ∷ 31 ∷ 16 ∷ 14 ∷ [])
    ∷ (b'f', 6 ∷ 9 ∷ 8 ∷ 28 ∷ 8 ∷ 8 ∷ 8 ∷ [])
    ∷ (b'g', 0 ∷ 15 ∷ 17 ∷ 17 ∷ 15 ∷ 1 ∷ 14 ∷ [])
    ∷ (b'h', 16 ∷ 16 ∷ 22 ∷ 25 ∷ 17 ∷ 17 ∷ 17 ∷ [])
    ∷ (b'j', 2 ∷ 0 ∷ 6 ∷ 2 ∷ 2 ∷ 18 ∷ 12 ∷ [])
    ∷ (b'k', 16 ∷ 16 ∷ 18 ∷ 20 ∷ 24 ∷ 20 ∷ 18 ∷ [])
    ∷ (b'm', 0 ∷ 0 ∷ 26 ∷ 21 ∷ 21 ∷ 17 ∷ 17 ∷ [])
    ∷ (b'n', 0 ∷ 0 ∷ 22 ∷ 25 ∷ 17 ∷ 17 ∷ 17 ∷ [])
    ∷ (b'p', 0 ∷ 0 ∷ 30 ∷ 17 ∷ 30 ∷ 16 ∷ 16 ∷ [])
    ∷ (b'q', 0 ∷ 0 ∷ 13 ∷ 19 ∷ 15 ∷ 1 ∷ 1 ∷ [])
    ∷ (b'r', 0 ∷ 0 ∷ 22 ∷ 25 ∷ 16 ∷ 16 ∷ 16 ∷ [])
    ∷ (b's', 0 ∷ 0 ∷ 14 ∷ 16 ∷ 14 ∷ 1 ∷ 30 ∷ [])
    ∷ (b't', 8 ∷ 8 ∷ 28 ∷ 8 ∷ 8 ∷ 9 ∷ 6 ∷ [])
    ∷ (b'u', 0 ∷ 0 ∷ 17 ∷ 17 ∷ 17 ∷ 19 ∷ 13 ∷ [])
    ∷ (b'v', 0 ∷ 0 ∷ 17 ∷ 17 ∷ 17 ∷ 10 ∷ 4 ∷ [])
    ∷ (b'w', 0 ∷ 0 ∷ 17 ∷ 17 ∷ 21 ∷ 21 ∷ 10 ∷ [])
    ∷ (b'x', 0 ∷ 0 ∷ 17 ∷ 10 ∷ 4 ∷ 10 ∷ 17 ∷ [])
    ∷ (b'y', 0 ∷ 0 ∷ 17 ∷ 17 ∷ 15 ∷ 1 ∷ 14 ∷ [])
    ∷ (b'z', 0 ∷ 0 ∷ 31 ∷ 2 ∷ 4 ∷ 8 ∷ 31 ∷ [])
    ∷ (b'2', 14 ∷ 17 ∷ 1 ∷ 2 ∷ 4 ∷ 8 ∷ 31 ∷ [])
    ∷ (b'3', 31 ∷ 2 ∷ 4 ∷ 2 ∷ 1 ∷ 17 ∷ 14 ∷ [])
    ∷ (b'4', 2 ∷ 6 ∷ 10 ∷ 18 ∷ 31 ∷ 2 ∷ 2 ∷ [])
    ∷ (b'5', 31 ∷ 16 ∷ 30 ∷ 1 ∷ 1 ∷ 17 ∷ 14 ∷ [])
    ∷ (b'6', 6 ∷ 8 ∷ 16 ∷ 30 ∷ 17 ∷ 17 ∷ 14 ∷ [])
    ∷ (b'7', 31 ∷ 1 ∷ 2 ∷ 4 ∷ 8 ∷ 8 ∷ 8 ∷ [])
    ∷ (b'8', 14 ∷ 17 ∷ 17 ∷ 14 ∷ 17 ∷ 17 ∷ 14 ∷ [])
    ∷ (b'9', 14 ∷ 17 ∷ 17 ∷ 15 ∷ 1 ∷ 2 ∷ 12 ∷ [])
    ∷ []

-- `GLYPHS[ch]`
abbrev pub rows_of : List (ℕ × List ℕ) → ℕ → Option (List ℕ)
rows_of [] c = none
rows_of ((k, rows) ∷ table) c = if k == c then some rows else rows_of table c

-- `rows[row] & (1 << (4 - col))`, where `shift` is `4 - col`
abbrev pub is_set : (bits shift : ℕ) → Bool
is_set bits shift = not ((bits / power shift) % 2 == 0)
  where
    power : ℕ → ℕ
    power zero = 1
    power (suc n) = power n + power n

-- The cells of one row, from column `5 - left` on.
abbrev pub cells_of_row : (row bits left : ℕ) → List (ℕ × ℕ)
cells_of_row row bits zero = []
cells_of_row row bits (suc left) =
    if is_set bits left
    then (4 - left, row) ∷ cells_of_row row bits left
    else cells_of_row row bits left

abbrev pub cells_of_rows : (row : ℕ) → List ℕ → List (ℕ × ℕ)
cells_of_rows row [] = []
cells_of_rows row (bits ∷ rows) = cells_of_row row bits 5 ++ cells_of_rows (row + 1) rows

-- The rectangles of `renderGlyphPath`, as pairs of column and row.
abbrev pub glyph_cells : ℕ → List (ℕ × ℕ)
glyph_cells c = elim (rows_of glyphs c) [ none ↦ [] | some rows ↦ cells_of_rows 0 rows ]

-- Something is drawn, and all of it inside the five columns and seven rows of a glyph.
abbrev pub is_visible : ℕ → Bool
is_visible c =
    not (length (glyph_cells c) == 0) && all (λ cell. ltb cell.0 5 && ltb cell.1 7) (glyph_cells c)

charset-is_visible : all is_visible charset ≡ true
charset-is_visible = refl

-- What every character of a text has, the one at a position inside it has.
char_at-all :
    (p : ℕ → Bool) (s : Text) (i : ℕ)
    → all p s ≡ true
    → i < length s
    → (length (char_at s i) ≡ 1) × All (λ c. p c ≡ true) (char_at s i)
char_at-all p [] i h lt = absurd (omega arith)
char_at-all p (c ∷ s) zero h lt = (refl, (ground arith, tt))
char_at-all p (c ∷ s) (suc i) h lt = char_at-all p s i (ground arith) (omega arith)

-- Where each number that is drawn is a position in the character set, the text of a challenge has one
-- character for each round, and the image shows each of them inside its five columns and seven rows.
pub random_text-is_visible :
    (pick : ℕ → ℕ) (rounds : ℕ)
    → ((n : ℕ) → pick n < length charset)
    → (length (random_text pick rounds) ≡ rounds)
      × All (λ c. is_visible c ≡ true) (random_text pick rounds)
random_text-is_visible pick zero h = (refl, tt)
random_text-is_visible pick (suc n) h =
    let (l, a) = random_text-is_visible pick n h in
    let (one, visible) = char_at-all is_visible charset (pick n) charset-is_visible (h n) in
    (
      grind (arith, length-append (random_text pick n) (char_at charset (pick n)), l, one),
      All-append (λ c. is_visible c ≡ true) (random_text pick n) (char_at charset (pick n)) a
          visible,
    )
