-- ===== src/Sql/Replace.antt =====
-- An UPDATE that puts one new row in the place of the row with a given key.
use micro_blog.Base.{
  ◌≡◌, refl, inl, inr, Bool, true, false, some, List, [], ◌∷◌, arith, any, find, Bool-cases,
}
use micro_blog.Sql.{update}
use micro_blog.Sql.Distinct.{Distinct}

module _ {ℓ} {A : Type ℓ} (p : A → Bool) (row : A) where
  abbrev pub replace : List A → List A
  replace xs = update p (λ x. row) xs

  pub find-replace_other :
      (q : A → Bool)
      → ((x : A) → p x ≡ true → q x ≡ false)
      → q row ≡ false
      → (xs : List A) → find q (replace xs) ≡ find q xs
  find-replace_other q h r [] = refl
  find-replace_other q h r (x ∷ xs) = ground (arith, h x, find-replace_other q h r xs)

  pub find-replace_self :
      p row ≡ true → (xs : List A) {x : A} → find p xs ≡ some x → find p (replace xs) ≡ some row
  find-replace_self r [] e = cc
  find-replace_self r (y ∷ xs) {x} e = ground (arith, find-replace_self r xs {x = x})

  -- Two rows with the key clash, and the new row clashes with no row that is not a rival.
  module _ (clash : A → A → Bool) (rival : A → Bool)
      (same_key : (x y : A) → p x ≡ true → p y ≡ true → clash x y ≡ true)
      (fits : (x : A)
        → p x ≡ false
        → rival x ≡ false
        → (clash row x ≡ false) × (clash x row ≡ false)) where
    others-stay :
        (x : A) (xs : List A)
        → p x ≡ false
        → rival x ≡ false
        → any (clash x) xs ≡ false
        → any (clash x) (replace xs) ≡ false
    others-stay x [] k r c = refl
    others-stay x (y ∷ xs) k r c = ground (arith, others-stay x xs k r, fits x k r)

    row-fits :
        (x : A) (xs : List A)
        → p x ≡ true
        → any rival xs ≡ false
        → any (clash x) xs ≡ false
        → any (clash row) (replace xs) ≡ false
    row-fits x [] k r c = refl
    row-fits x (y ∷ xs) k r c = ground (arith, row-fits x xs k, same_key x y k, fits y)

    pub Distinct-replace :
        (xs : List A) → any rival xs ≡ false → Distinct clash xs → Distinct clash (replace xs)
    Distinct-replace [] r d = tt
    Distinct-replace (x ∷ xs) r (c, d) = elim (Bool-cases (p x)) [
      | inl e ↦ rw e (row-fits x xs e (ground arith) c, Distinct-replace xs (ground arith) d)
      | inr e ↦ rw e (others-stay x xs e (ground arith) c, Distinct-replace xs (ground arith) d)
    ]
