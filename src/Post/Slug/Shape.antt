-- ===== src/Post/Slug/Shape.antt =====
-- The characters and the length of what `slugify` produces.
use micro_blog.Base.{
  ℕ, zero, suc, ◌≤◌, ◌≡◌, ◌≢◌, refl, ap, Text, Bool, true, false, ◌&&◌, ◌||◌, [], ◌∷◌, arith, ltb,
  ◌==◌, nat_eq, filter, take, length, length-take, All, All-append, All-take, Bool-cases, inl, inr,
}
use micro_blog.Sql.Pages.{take_all}
use micro_blog.Post.Slug.{
  is_lower_ascii, is_upper_ascii, is_digit, is_space, dash, lower, to_lower_case, is_kept, is_gap,
  hyphenate, trim_start, is_empty, trim_end, slugify,
}

abbrev pub IsSlugUnit : ℕ → Type 0
IsSlugUnit c = (is_lower_ascii c || is_digit c || c == dash) ≡ true

-- The tables of Unicode map no character to an upper-case ASCII letter.
abbrev pub KeepsLower : (ℕ → Text) → Type 0
KeepsLower unicode = (c : ℕ) → All (λ d. is_upper_ascii d ≡ false) (unicode c)

lower-All :
    (unicode : ℕ → Text)
    → KeepsLower unicode
    → (c : ℕ) → All (λ d. is_upper_ascii d ≡ false) (lower unicode c)
unfolding lower
lower-All unicode k c = elim (Bool-cases (is_upper_ascii c)) [
  | inl e ↦ rw e ((ground arith), tt)
  | inr e ↦ elim (Bool-cases (ltb c 128)) [ inl l ↦ rw (e, l) (e, tt) | inr l ↦ rw (e, l) (k c) ]
]

to_lower_case-All :
    (unicode : ℕ → Text)
    → KeepsLower unicode
    → (s : Text) → All (λ d. is_upper_ascii d ≡ false) (to_lower_case unicode s)
unfolding to_lower_case
to_lower_case-All unicode k [] = tt
to_lower_case-All unicode k (c ∷ s) =
    All-append _ (lower unicode c) _ (lower-All unicode k c) (to_lower_case-All unicode k s)

-- What the first filter leaves, before the gaps are replaced.
abbrev IsKeptUnit : ℕ → Type 0
IsKeptUnit c = (is_upper_ascii c ≡ false) × (is_kept c ≡ true)

filter-All : (s : Text) → All (λ d. is_upper_ascii d ≡ false) s → All IsKeptUnit (filter is_kept s)
filter-All [] h = tt
filter-All (c ∷ s) (u, h) = elim (Bool-cases (is_kept c)) [
  | inl e ↦ rw e ((u, e), filter-All s h)
  | inr e ↦ rw e (filter-All s h)
]

hyphenate-All : (b : Bool) (s : Text) → All IsKeptUnit s → All IsSlugUnit (hyphenate b s)
unfolding hyphenate
hyphenate-All b [] h = tt
hyphenate-All b (c ∷ s) ((u, k), h) = elim (Bool-cases (is_gap c)) [
  | inl e ↦ elim (Bool-cases b) [
    | inl i ↦ rw (e, i) (hyphenate-All true s h)
    | inr i ↦ rw (e, i) (refl, hyphenate-All true s h)
  ]
  | inr e ↦ rw e ((ground arith), hyphenate-All false s h)
]

trim_start-All : (P : ℕ → Type 0) (s : Text) → All P s → All P (trim_start s)
unfolding trim_start
trim_start-All P [] h = tt
trim_start-All P (c ∷ s) (p, h) = elim (Bool-cases (c == dash)) [
  | inl e ↦ rw e (trim_start-All P s h)
  | inr e ↦ rw e (p, h)
]

trim_end-All : (P : ℕ → Type 0) (s : Text) → All P s → All P (trim_end s)
unfolding trim_end
trim_end-All P [] h = tt
trim_end-All P (c ∷ s) (p, h) = elim (Bool-cases (c == dash && is_empty (trim_end s))) [
  | inl e ↦ rw e tt
  | inr e ↦ rw e (p, trim_end-All P s h)
]

-- Every code unit of a slug is a lower-case ASCII letter, a digit or a hyphen, and there are 200 at
-- most; the tables of Unicode are assumed to give no upper-case ASCII letter.
pub slugify_shape :
    (unicode : ℕ → Text) (text : Text)
    → KeepsLower unicode
    → All IsSlugUnit (slugify unicode text) × (length (slugify unicode text) ≤ 200)
unfolding slugify
slugify_shape unicode text k = (
  All-take IsSlugUnit 200 _ (
      trim_end-All _ _ (
        trim_start-All _ _
          (hyphenate-All false _ (filter-All _ (to_lower_case-All unicode k text))))),
  omega (arith, length-take {0} 200),
)

abbrev pub NoDashFirst : Text → Type 0
NoDashFirst [] = Unit
NoDashFirst (c ∷ s) = c ≢ dash

trim_start-NoDashFirst : (s : Text) → NoDashFirst (trim_start s)
unfolding trim_start
trim_start-NoDashFirst [] = tt
trim_start-NoDashFirst (c ∷ s) = elim (Bool-cases (c == dash)) [
  | inl e ↦ rw e (trim_start-NoDashFirst s)
  | inr e ↦ rw e (ground arith)
]

trim_end-NoDashFirst : (s : Text) → NoDashFirst s → NoDashFirst (trim_end s)
unfolding trim_end
trim_end-NoDashFirst [] h = tt
trim_end-NoDashFirst (c ∷ s) h = elim (Bool-cases (c == dash && is_empty (trim_end s))) [
  | inl e ↦ rw e tt
  | inr e ↦ rw e h
]

take-NoDashFirst : (n : ℕ) (s : Text) → NoDashFirst s → NoDashFirst (take n s)
take-NoDashFirst zero s h = tt
take-NoDashFirst (suc n) [] h = tt
take-NoDashFirst (suc n) (c ∷ s) h = h

-- A slug does not begin with a hyphen.
pub slugify-NoDashFirst : (unicode : ℕ → Text) (text : Text) → NoDashFirst (slugify unicode text)
unfolding slugify
slugify-NoDashFirst unicode text = take-NoDashFirst 200 _ (
    trim_end-NoDashFirst
      (trim_start (hyphenate false (filter is_kept (to_lower_case unicode text))))
      (trim_start-NoDashFirst (hyphenate false (filter is_kept (to_lower_case unicode text)))))

abbrev pub NoDashLast : Text → Type 0
NoDashLast [] = Unit
NoDashLast (c ∷ []) = c ≢ dash
NoDashLast (c ∷ d ∷ s) = NoDashLast (d ∷ s)

lower_fixed : (unicode : ℕ → Text) (c : ℕ) → IsSlugUnit c → lower unicode c ≡ c ∷ []
unfolding lower
lower_fixed unicode c h =
    let e : is_upper_ascii c ≡ false = ground arith in
    let l : ltb c 128 ≡ true = ground arith in rw (e, l) refl

to_lower_case_fixed :
    (unicode : ℕ → Text) (s : Text) → All IsSlugUnit s → to_lower_case unicode s ≡ s
unfolding to_lower_case
to_lower_case_fixed unicode [] h = refl
to_lower_case_fixed unicode (c ∷ s) (p, h) =
    cc (lower_fixed unicode c p, to_lower_case_fixed unicode s h)

slug_unit_kept : (c : ℕ) → IsSlugUnit c → is_kept c ≡ true
slug_unit_kept c h = ground arith

filter_fixed : (s : Text) → All IsSlugUnit s → filter is_kept s ≡ s
filter_fixed [] h = refl
filter_fixed (c ∷ s) (p, h) = rw (slug_unit_kept c p) (ap (λ (l : Text). c ∷ l) (filter_fixed s h))

slug_unit_no_gap : (c : ℕ) → IsSlugUnit c → is_gap c ≡ false
unfolding is_space
slug_unit_no_gap c h = ground arith

hyphenate_fixed : (b : Bool) (s : Text) → All IsSlugUnit s → hyphenate b s ≡ s
unfolding hyphenate
hyphenate_fixed b [] h = refl
hyphenate_fixed b (c ∷ s) (p, h) =
    rw (slug_unit_no_gap c p) (ap (λ (l : Text). c ∷ l) (hyphenate_fixed false s h))

trim_start_fixed : (s : Text) → NoDashFirst s → trim_start s ≡ s
unfolding trim_start
trim_start_fixed [] h = refl
trim_start_fixed (c ∷ s) h = ground arith

trim_end_fixed : (s : Text) → NoDashLast s → trim_end s ≡ s
unfolding trim_end
trim_end_fixed [] h = refl
trim_end_fixed (c ∷ []) h = ground arith
trim_end_fixed (c ∷ d ∷ s) h = ground (arith, trim_end_fixed (d ∷ s) h)

-- A text that is a slug already, with no hyphen at either end, is its own slug.
pub slugify_fixed :
    (unicode : ℕ → Text) (s : Text)
    → All IsSlugUnit s
    → NoDashFirst s
    → NoDashLast s
    → length s ≤ 200
    → slugify unicode s ≡ s
unfolding slugify
slugify_fixed unicode s a f l n =
    simp
      (
        to_lower_case_fixed unicode s a,
        filter_fixed s a,
        hyphenate_fixed false s a,
        trim_start_fixed s f,
        trim_end_fixed s l,
      )
      (take_all 200 s n)
