-- ===== src/Sql/Laws.antt =====
-- What the statements keep and what they change.
use micro_blog.Base.{
  ◌≡◌, inl, inr, refl, Bool, true, false, List, [], ◌∷◌, ◌++◌, none, some, arith, if◌then◌else◌,
  filter, find, any, All, length, Bool-cases,
}
use micro_blog.Sql.{update, delete, insert}

module _ {ℓ} {A : Type ℓ} where
  pub any-append :
      (p : A → Bool) (xs : List A) (x : A)
      → any p xs ≡ false
      → p x ≡ false
      → any p (xs ++ x ∷ []) ≡ false
  any-append p [] x h k = ground arith
  any-append p (y ∷ xs) x h k = ground (arith, any-append p xs x)

  pub any-append_true : (p : A → Bool) (xs ys : List A) → any p xs ≡ true → any p (xs ++ ys) ≡ true
  any-append_true p [] ys h = cc
  any-append_true p (x ∷ xs) ys h = ground (arith, any-append_true p xs ys)

  pub any-append_last :
      (p : A → Bool) (xs : List A) (x : A) → p x ≡ true → any p (xs ++ x ∷ []) ≡ true
  any-append_last p [] x h = ground arith
  any-append_last p (y ∷ xs) x h = ground (arith, any-append_last p xs x)

  pub find-eq-none_iff_any : (p : A → Bool) (xs : List A) → find p xs ≡ none → any p xs ≡ false
  find-eq-none_iff_any p [] h = refl
  find-eq-none_iff_any p (x ∷ xs) h = ground (arith, find-eq-none_iff_any p xs)

  pub find-none_of_any : (p : A → Bool) (xs : List A) → any p xs ≡ false → find p xs ≡ none
  find-none_of_any p [] h = refl
  find-none_of_any p (x ∷ xs) h = ground (arith, find-none_of_any p xs)

  pub find-append :
      (p : A → Bool) (xs : List A) (x : A)
      → find p xs ≡ none
      → p x ≡ true
      → find p (xs ++ x ∷ []) ≡ some x
  find-append p [] x h k = ground arith
  find-append p (y ∷ xs) x h k = ground (arith, find-append p xs x)

  pub find-append_some :
      (p : A → Bool) (xs : List A) (x : A) {y : A}
      → find p xs ≡ some y
      → find p (xs ++ x ∷ []) ≡ some y
  find-append_some p [] x h = cc
  find-append_some p (z ∷ xs) x {y} h = ground (arith, find-append_some p xs x {y = y})

  pub find-append_ne :
      (p : A → Bool) (xs : List A) (x : A) → p x ≡ false → find p (xs ++ x ∷ []) ≡ find p xs
  find-append_ne p [] x k = ground arith
  find-append_ne p (y ∷ xs) x k = ground (arith, find-append_ne p xs x)

  -- No row that a DELETE names is left, and the others are.
  pub find-delete_self : (p : A → Bool) (xs : List A) → find p (delete p xs) ≡ none
  find-delete_self p [] = refl
  find-delete_self p (x ∷ xs) = elim (Bool-cases (p x)) [
    | inl e ↦ rw e (find-delete_self p xs)
    | inr e ↦ rw (e, e) (find-delete_self p xs)
  ]

  pub find-delete :
      (p q : A → Bool) (xs : List A)
      → ((x : A) → q x ≡ true → p x ≡ false)
      → find q (delete p xs) ≡ find q xs
  find-delete p q [] h = refl
  find-delete p q (x ∷ xs) h = ground (arith, h x, find-delete p q xs h)

  pub find-filter :
      (p q : A → Bool) (xs : List A)
      → ((x : A) → q x ≡ true → p x ≡ true)
      → find q (filter p xs) ≡ find q xs
  find-filter p q [] h = refl
  find-filter p q (x ∷ xs) h = ground (arith, h x, find-filter p q xs h)

  pub find-update :
      (p q : A → Bool) (f : A → A) (xs : List A)
      → ((x : A) → q (f x) ≡ q x)
      → find q (update p f xs)
        ≡ elim (find q xs) [ none ↦ none | some x ↦ some (if p x then f x else x) ]
  find-update p q f [] h = refl
  find-update p q f (x ∷ xs) h = ground (arith, h x, find-update p q f xs h)

  pub length-update : (p : A → Bool) (f : A → A) (xs : List A) → length (update p f xs) ≡ length xs
  length-update p f [] = refl
  length-update p f (x ∷ xs) = omega (arith, length-update p f xs)

  pub All-update {κ} :
      (P : A → Type κ) (p : A → Bool) (f : A → A) (xs : List A)
      → ((x : A) → P x → P (f x))
      → All P xs
      → All P (update p f xs)
  All-update P p f [] h a = tt
  All-update P p f (x ∷ xs) h (q, a) = elim (Bool-cases (p x)) [
    | inl e ↦ rw e (h x q, All-update P p f xs h a)
    | inr e ↦ rw e (q, All-update P p f xs h a)
  ]

  pub insert-eq-some :
      (clash : A → A → Bool) (row : A) (xs : List A)
      → any (clash row) xs ≡ false
      → insert clash row xs ≡ some (xs ++ row ∷ [])
  insert-eq-some clash row xs h = rw h
