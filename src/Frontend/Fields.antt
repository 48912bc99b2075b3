-- ===== src/Frontend/Fields.antt =====
-- String methods that the forms of the frontend use on what is typed: `trim`, `split(',')` and `join(', ')`; and the
-- field of tags of services/frontend/src/pages/ComposePage.tsx and EditPage.tsx.
use micro_blog.Base.{
  ◌≡◌, refl, ap, ◌∙◌, inl, inr, ℕ, Text, nat_eq, ◌==◌, Bool, true, false, not, ◌&&◌, List, [], ◌∷◌,
  ◌++◌, arith, map, filter, filter-All_imp, All, All-map, All-imp, Bool-cases, if◌then◌else◌,
}
use micro_blog.Post.Slug.{is_space}

abbrev pub is_blank : Text → Bool
is_blank [] = true
is_blank (c ∷ s) = false

-- `trim`, from both ends
unfoldable pub trim_start : Text → Text
trim_start [] = []
trim_start (c ∷ s) = if is_space c then trim_start s else c ∷ s

unfoldable pub trim_end : Text → Text
trim_end [] = []
trim_end (c ∷ s) = let rest = trim_end s in if is_space c && is_blank rest then [] else c ∷ rest

unfoldable pub trim : Text → Text
unfolding trim_start trim_end
trim s = trim_start (trim_end s)

abbrev pub comma : ℕ
comma = 44

abbrev pub before_first : ℕ → List Text → List Text
before_first c [] = (c ∷ []) ∷ []
before_first c (part ∷ parts) = (c ∷ part) ∷ parts

-- `split(',')`
unfoldable pub split : Text → List Text
split [] = [] ∷ []
split (c ∷ s) = let parts = split s in if c == comma then [] ∷ parts else before_first c parts

-- `join(', ')`
unfoldable pub join : List Text → Text
join [] = []
join (t ∷ []) = t
join (t ∷ u ∷ rest) = t ++ comma ∷ 32 ∷ join (u ∷ rest)

-- `tags.split(',').map((t) => t.trim()).filter(Boolean)`
unfoldable pub read_tags : Text → List Text
unfolding trim split
read_tags s = filter (λ t. not (is_blank t)) (map trim (split s))

-- A tag that the field can hold: something, without a comma, and without space at its ends.
pub record IsTag (t : Text) : Type 0 where
  pub something : is_blank t ≡ false
  pub trimmed : trim t ≡ t
  pub no_comma : All (λ c. (c == comma) ≡ false) t

trim-space : (p : Text) → trim (32 ∷ p) ≡ trim p
unfolding trim trim_start trim_end is_space
trim-space p = inner (trim_end p)
  where
    inner :
        (r : Text) → trim_start (if is_space 32 && is_blank r then [] else 32 ∷ r) ≡ trim_start r
    inner [] = refl
    inner (c ∷ r) = refl

split-append :
    (t s : Text) → All (λ c. (c == comma) ≡ false) t → split (t ++ comma ∷ s) ≡ t ∷ split s
unfolding split
split-append [] s h = refl
split-append (c ∷ t) s (n, h) = rw (n, split-append t s h) refl

split-plain : (t : Text) → All (λ c. (c == comma) ≡ false) t → split t ≡ t ∷ []
unfolding split
split-plain [] h = refl
split-plain (c ∷ t) (n, h) = rw (n, split-plain t h) refl

read_tags-cons : (t s : Text) → IsTag t → read_tags (t ++ comma ∷ s) ≡ t ∷ read_tags s
unfolding read_tags
read_tags-cons t s h = rw (split-append t s h.no_comma, h.trimmed, h.something) refl

first-space :
    (parts : List Text)
    → filter (λ t. not (is_blank t)) (map trim (before_first 32 parts))
      ≡ filter (λ t. not (is_blank t)) (map trim parts)
unfolding trim
first-space [] = rw (trim-space []) refl
first-space (part ∷ parts) = rw (trim-space part) refl

read_tags-space : (s : Text) → read_tags (32 ∷ s) ≡ read_tags s
unfolding read_tags
read_tags-space s = first-space (split s)

-- The tags that the field is filled with are read back from it.
pub read_tags-join : (tags : List Text) → All IsTag tags → read_tags (join tags) ≡ tags
unfolding join read_tags
read_tags-join [] h = refl
read_tags-join (t ∷ []) (h, hs) = rw (split-plain t h.no_comma, h.trimmed, h.something) refl
read_tags-join (t ∷ u ∷ rest) (h, hs) =
    read_tags-cons t (32 ∷ join (u ∷ rest)) h
    ∙ ap (λ (ts : List Text). t ∷ ts)
        (read_tags-space (join (u ∷ rest)) ∙ read_tags-join (u ∷ rest) hs)

trim_end-trim_end : (s : Text) → trim_end (trim_end s) ≡ trim_end s
unfolding trim_end
trim_end-trim_end [] = refl
trim_end-trim_end (c ∷ s) = elim (Bool-cases (is_space c && is_blank (trim_end s))) [
  | inl y ↦ rw y refl
  | inr n ↦ rw (n, trim_end-trim_end s, n) refl
]

trim_start-trim_start : (s : Text) → trim_start (trim_start s) ≡ trim_start s
unfolding trim_start
trim_start-trim_start [] = refl
trim_start-trim_start (c ∷ s) = elim (Bool-cases (is_space c)) [
  | inl y ↦ rw y (trim_start-trim_start s)
  | inr n ↦ rw (n, n) refl
]

trim_end-trim_start : (s : Text) → trim_end s ≡ s → trim_end (trim_start s) ≡ trim_start s
unfolding trim_end trim_start
trim_end-trim_start [] h = refl
trim_end-trim_start (c ∷ s) h = elim (Bool-cases (is_space c)) [
  | inl y ↦ rw y (trim_end-trim_start s (ground arith))
  | inr n ↦ rw n h
]

trim-trim : (s : Text) → trim (trim s) ≡ trim s
unfolding trim
trim-trim s =
    rw (trim_end-trim_start (trim_end s) (trim_end-trim_end s)) (trim_start-trim_start (trim_end s))

module _ {ℓ} (P : ℕ → Type ℓ) where
  trim_start-All : (s : Text) → All P s → All P (trim_start s)
  unfolding trim_start
  trim_start-All [] h = tt
  trim_start-All (c ∷ s) (p, h) = elim (Bool-cases (is_space c)) [
    | inl y ↦ rw y (trim_start-All s h)
    | inr n ↦ rw n (p, h)
  ]

  trim_end-All : (s : Text) → All P s → All P (trim_end s)
  unfolding trim_end
  trim_end-All [] h = tt
  trim_end-All (c ∷ s) (p, h) = elim (Bool-cases (is_space c && is_blank (trim_end s))) [
    | inl y ↦ rw y tt
    | inr n ↦ rw n (p, trim_end-All s h)
  ]

abbrev HasNoComma : Text → Type 0
HasNoComma = All (λ c. (c == comma) ≡ false)

before_first-HasNoComma :
    (c : ℕ)
    → (c == comma) ≡ false
    → (parts : List Text) → All HasNoComma parts
    → All HasNoComma (before_first c parts)
before_first-HasNoComma c n [] h = ((n, tt), tt)
before_first-HasNoComma c n (part ∷ parts) (p, h) = ((n, p), h)

split-HasNoComma : (s : Text) → All HasNoComma (split s)
unfolding split
split-HasNoComma [] = (tt, tt)
split-HasNoComma (c ∷ s) = elim (Bool-cases (c == comma)) [
  | inl y ↦ rw y (tt, split-HasNoComma s)
  | inr n ↦ rw n (before_first-HasNoComma c n (split s) (split-HasNoComma s))
]

-- Whatever is typed, the tags that are sent are tags that the field can hold.
pub read_tags-IsTag : (s : Text) → All IsTag (read_tags s)
unfolding read_tags trim
read_tags-IsTag s =
    filter-All_imp (λ t. (trim t ≡ t) × HasNoComma t) IsTag (λ t. not (is_blank t))
      (λ t some (fix, h). record { something = ground arith; trimmed = fix; no_comma = h })
      (map trim (split s))
      (All-map _ trim (split s) (
        All-imp _ _ (λ t h. (trim-trim t, trim_start-All _ (trim_end t) (trim_end-All _ t h)))
          (split s) (split-HasNoComma s)))
