-- ===== src/Post/Slug.antt =====
-- `slugify` of services/post/src/services/post.ts, over UTF-16 code units.
pub mod Decimal
pub mod Shape
pub mod Distinct
use micro_blog.Base.{
  ℕ, zero, suc, ◌+◌, ◌%◌, ◌/◌, Text, codes, Bool, true, false, not, ◌&&◌, ◌||◌, List, [], ◌∷◌, ◌++◌,
  ltb, leb, ◌==◌, nat_eq, if◌then◌else◌, filter, take,
}

-- `\w` and `\s` of a JavaScript pattern with no flag but `g`.
abbrev pub is_lower_ascii : ℕ → Bool
is_lower_ascii c = leb b'a' c && leb c b'z'

abbrev pub is_upper_ascii : ℕ → Bool
is_upper_ascii c = leb b'A' c && leb c b'Z'

abbrev pub is_digit : ℕ → Bool
is_digit c = leb b'0' c && leb c b'9'

abbrev pub is_word : ℕ → Bool
is_word c = is_lower_ascii c || is_upper_ascii c || is_digit c || c == b'_'

unfoldable pub is_space : ℕ → Bool
is_space c =
    (leb 9 c && leb c 13)
    || c == 32
    || c == 0xa0
    || c == 0x1680
    || (leb 0x2000 c && leb c 0x200a)
    || c == 0x2028
    || c == 0x2029
    || c == 0x202f
    || c == 0x205f
    || c == 0x3000
    || c == 0xfeff

abbrev pub dash : ℕ
dash = 45

-- `.toLowerCase()`: ASCII is written out; the tables of Unicode are the parameter `unicode`.
pub lower : (ℕ → Text) → ℕ → Text
lower unicode c =
    if is_upper_ascii c then (c + 32) ∷ [] else if ltb c 128 then c ∷ [] else unicode c

unfoldable pub to_lower_case : (ℕ → Text) → Text → Text
unfolding lower
to_lower_case unicode [] = []
to_lower_case unicode (c ∷ s) = lower unicode c ++ to_lower_case unicode s

-- `.replace(/[^\w\s-]/g, '')`
abbrev pub is_kept : ℕ → Bool
is_kept c = is_word c || is_space c || c == dash

-- `.replace(/[\s_]+/g, '-')`; `in_run` tells whether the code unit before was replaced too.
abbrev pub is_gap : ℕ → Bool
is_gap c = is_space c || c == b'_'

pub hyphenate : (in_run : Bool) → Text → Text
hyphenate in_run [] = []
hyphenate in_run (c ∷ s) =
    let rest = hyphenate (is_gap c) s in
    if is_gap c then (if in_run then rest else dash ∷ rest) else c ∷ rest

-- `.replace(/^-+|-+$/g, '')`
pub trim_start : Text → Text
trim_start [] = []
trim_start (c ∷ s) = let rest = trim_start s in if c == dash then rest else c ∷ s

abbrev pub is_empty : Text → Bool
is_empty [] = true
is_empty (c ∷ s) = false

pub trim_end : Text → Text
trim_end [] = []
trim_end (c ∷ s) = let rest = trim_end s in if c == dash && is_empty rest then [] else c ∷ rest

unfoldable pub slugify : (ℕ → Text) → Text → Text
unfolding to_lower_case is_space hyphenate trim_start trim_end
slugify unicode text =
    take 200 (trim_end (trim_start (hyphenate false (filter is_kept (to_lower_case unicode text)))))

-- The code units of a number in a template literal, least significant digit first. Each round
-- divides by ten, so as many rounds as the number itself, and one, are enough.
pub digits : (fuel n : ℕ) → Text
digits zero n = []
digits (suc fuel) n =
    let rest = digits fuel (n / 10) in if ltb n 10 then (n + 48) ∷ [] else (n % 10 + 48) ∷ rest
