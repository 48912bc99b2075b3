-- ===== src/Frontend/Escape.antt =====
-- services/frontend/src/lib/escapeHtml.ts, and how a browser reads its result.
use micro_blog.Base.{
  ◌≡◌, refl, ap, ◌∙◌, inl, inr, ℕ, zero, suc, Text, codes, nat_eq, ◌==◌, ==_iff, Bool, true, false,
  not, ◌&&◌, Option, none, some, [], ◌∷◌, ◌++◌, arith, All, All-append, Bool-cases, if◌then◌else◌,
}

-- `escapeMap`, with the code units of & < > " and '
abbrev pub escape : ℕ → Text
escape c =
    if c == 38
    then codes "&amp;"
    else if c == 60
    then codes "&lt;"
    else if c == 62
    then codes "&gt;"
    else if c == 34
    then codes "&quot;"
    else if c == 39
    then codes "&#39;"
    else c ∷ []

-- `str.replace(/[&<>"']/g, …)`; the empty string stays empty.
unfoldable pub escape_html : Text → Text
escape_html [] = []
escape_html (c ∷ s) = escape c ++ escape_html s

-- A code unit that ends neither a text nor an attribute in HTML.
abbrev pub is_inert : ℕ → Bool
is_inert c = not (c == 60) && not (c == 62) && not (c == 34) && not (c == 39)

abbrev pub starts_with : Text → Text → Bool
starts_with [] s = true
starts_with (c ∷ prefix) [] = false
starts_with (c ∷ prefix) (d ∷ s) = c == d && starts_with prefix s

-- The character that a reference at the beginning stands for, and how many code units follow its first.
abbrev pub reference : Text → Option (ℕ × ℕ)
reference s =
    if starts_with (codes "&amp;") s
    then some (38, 4)
    else if starts_with (codes "&lt;") s
    then some (60, 3)
    else if starts_with (codes "&gt;") s
    then some (62, 3)
    else if starts_with (codes "&quot;") s
    then some (34, 5)
    else if starts_with (codes "&#39;") s
    then some (39, 4)
    else none

-- The text that a browser shows, after the code units that belong to a reference already read.
pub shown_after : ℕ → Text → Text
shown_after n [] = []
shown_after (suc n) (c ∷ s) = shown_after n s
shown_after zero (c ∷ s) = elim (reference (c ∷ s)) [
  | none ↦ c ∷ shown_after zero s
  | some (d, n) ↦ d ∷ shown_after n s
]

unfoldable pub shown : Text → Text
unfolding shown_after
shown s = shown_after zero s

-- The ways that `escape` can go.
data IsEscape (c : ℕ) : Text → Type 0 where
  ampersand : c ≡ 38 → IsEscape c (codes "&amp;")
  less : c ≡ 60 → IsEscape c (codes "&lt;")
  greater : c ≡ 62 → IsEscape c (codes "&gt;")
  quote : c ≡ 34 → IsEscape c (codes "&quot;")
  apostrophe : c ≡ 39 → IsEscape c (codes "&#39;")
  other : is_inert c ≡ true → (c == 38) ≡ false → IsEscape c (c ∷ [])

escape-IsEscape : (c : ℕ) → IsEscape c (escape c)
escape-IsEscape c = elim (Bool-cases (c == 38)) [
  | inl y ↦ rw y (ampersand ((==_iff c 38).0 y))
  | inr a ↦ elim (Bool-cases (c == 60)) [
    | inl y ↦ rw (a, y) (less ((==_iff c 60).0 y))
    | inr l ↦ elim (Bool-cases (c == 62)) [
      | inl y ↦ rw (a, l, y) (greater ((==_iff c 62).0 y))
      | inr g ↦ elim (Bool-cases (c == 34)) [
        | inl y ↦ rw (a, l, g, y) (quote ((==_iff c 34).0 y))
        | inr q ↦ elim (Bool-cases (c == 39)) [
          | inl y ↦ rw (a, l, g, q, y) (apostrophe ((==_iff c 39).0 y))
          | inr n ↦ rw (a, l, g, q, n) (other (rw (l, g, q, n) refl) a)
        ]
      ]
    ]
  ]
]

IsEscape-inert : {c : ℕ} {t : Text} → IsEscape c t → All (λ d. is_inert d ≡ true) t
IsEscape-inert (ampersand e) = (refl, (refl, (refl, (refl, (refl, tt)))))
IsEscape-inert (less e) = (refl, (refl, (refl, (refl, tt))))
IsEscape-inert (greater e) = (refl, (refl, (refl, (refl, tt))))
IsEscape-inert (quote e) = (refl, (refl, (refl, (refl, (refl, (refl, tt))))))
IsEscape-inert (apostrophe e) = (refl, (refl, (refl, (refl, (refl, tt)))))
IsEscape-inert (other i n) = (i, tt)

no_reference : (c : ℕ) (s : Text) → (c == 38) ≡ false → reference (c ∷ s) ≡ none
no_reference c s n = ground (arith, ==_iff c 38, ==_iff 38 c)

IsEscape-shown :
    {c : ℕ} {t : Text} (s : Text)
    → IsEscape c t
    → shown_after zero (t ++ s) ≡ c ∷ shown_after zero s
unfolding shown_after
IsEscape-shown s (ampersand e) = rw e refl
IsEscape-shown s (less e) = rw e refl
IsEscape-shown s (greater e) = rw e refl
IsEscape-shown s (quote e) = rw e refl
IsEscape-shown s (apostrophe e) = rw e refl
IsEscape-shown {c} s (other i n) = rw (no_reference c s n, shown_after) refl

-- A text that is escaped holds no angle bracket and no quotation mark, and a browser shows it as the text
-- that it was before.
pub escape_html-inert :
    (s : Text) → All (λ c. is_inert c ≡ true) (escape_html s) × (shown (escape_html s) ≡ s)
unfolding escape_html shown
escape_html-inert [] = (tt, refl)
escape_html-inert (c ∷ s) =
    let (inert, same) = escape_html-inert s in
    let way = escape-IsEscape c in
    (
      All-append _ (escape c) (escape_html s) (IsEscape-inert way) inert,
      IsEscape-shown (escape_html s) way ∙ ap (λ (t : Text). c ∷ t) same,
    )
