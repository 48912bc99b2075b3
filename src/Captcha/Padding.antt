-- ===== src/Captcha/Padding.antt =====
-- What the comparison of padded buffers tells of the buffers.
use micro_blog.Base.{
  ◌≡◌, ◌≢◌, ◌⊎◌, ◌↔◌, inl, inr, refl, sym, ap, ◌∙◌, ℕ, zero, suc, ◌+◌, ◌-◌, arith, true, List, [],
  ◌∷◌, ◌++◌, length, length-append, All, text_eq, text_eqb_iff,
}
use micro_blog.Captcha.Store.{zeros, padded, max_of, same_padded}

length-zeros : (n : ℕ) → length (zeros n) ≡ n
length-zeros zero = refl
length-zeros (suc n) = ap suc (length-zeros n)

append_empty : (xs : List ℕ) → xs ++ [] ≡ xs
append_empty [] = refl
append_empty (x ∷ xs) = ap (λ (l : List ℕ). x ∷ l) (append_empty xs)

abbrev pub NonZero : ℕ → Type 0
NonZero n = n ≢ 0

padding_sound :
    (xs ys : List ℕ) (a b : ℕ)
    → All NonZero xs
    → (a ≡ 0) ⊎ (b ≡ 0)
    → xs ++ zeros a ≡ ys ++ zeros b
    → (k : ℕ) × (ys ≡ xs ++ zeros k)
padding_sound [] ys a b n (inr z) h =
    (a, sym (append_empty ys) ∙ ap (λ m. ys ++ zeros m) (sym z) ∙ sym h)
padding_sound [] [] a b n (inl z) h = (0, refl)
padding_sound [] (y ∷ ys) a b n (inl z) h =
    let h' : zeros zero ≡ y ∷ (ys ++ zeros b) = ap zeros (sym z) ∙ h in cc
padding_sound (x ∷ xs) [] a zero n z h = let h' : x ∷ (xs ++ zeros a) ≡ [] = h in cc
padding_sound (x ∷ xs) [] a (suc b) (p, n) z h =
    let h' : x ∷ (xs ++ zeros a) ≡ 0 ∷ zeros b = h in absurd (p cc)
padding_sound (x ∷ xs) (y ∷ ys) a b (p, n) z h =
    let h' : x ∷ (xs ++ zeros a) ≡ y ∷ (ys ++ zeros b) = h in
    let (k, e) = padding_sound xs ys a b n z cc in
    let q : y ≡ x = cc in (k, ap (λ (m : ℕ). m ∷ ys) q ∙ ap (λ (l : List ℕ). x ∷ l) e)

max_of-cases : (a b : ℕ) → (max_of a b - a ≡ 0) ⊎ (max_of a b - b ≡ 0)
max_of-cases a b = ground arith

length-append_zeros : (xs : List ℕ) (k : ℕ) → length (xs ++ zeros k) ≡ length xs + k
length-append_zeros xs k =
    length-append xs (zeros k) ∙ ap (λ (m : ℕ). length xs + m) (length-zeros k)

max_of_longer : (a b k : ℕ) → b ≡ a + k → max_of a b ≡ a + k
max_of_longer a b k h = ground arith

padding_complete :
    (xs : List ℕ) (k size : ℕ) → size ≡ length xs + k → padded size xs ≡ padded size (xs ++ zeros k)
padding_complete xs k size h =
    let l = length-append_zeros xs k in
    let a : size - length xs ≡ k = omega arith in
    let b : size - length (xs ++ zeros k) ≡ 0 = omega arith in
    ap (λ m. xs ++ zeros m) a
    ∙ sym (append_empty (xs ++ zeros k))
    ∙ ap (λ m. (xs ++ zeros k) ++ zeros m) (sym b)

-- Where `expected` has no zero byte, the comparison succeeds exactly for it, with any number of zero
-- bytes after it.
pub same_padded_iff :
    (expected actual : List ℕ)
    → All NonZero expected
    → (same_padded expected actual ≡ true) ↔ ((k : ℕ) × (actual ≡ expected ++ zeros k))
unfolding same_padded
same_padded_iff expected actual n = (
  λ h.
      padding_sound expected actual _ _ n (max_of-cases (length expected) (length actual))
        ((text_eqb_iff _ _).0 h),
  λ w.
      let (k, e) = w in
      let size = max_of (length expected) (length actual) in
      let fits : size ≡ length expected + k =
        max_of_longer _ _ k (ap length e ∙ length-append_zeros expected k) in
      (text_eqb_iff (padded size expected) (padded size actual)).1
        (padding_complete expected k size fits ∙ ap (padded size) (sym e)),
)
