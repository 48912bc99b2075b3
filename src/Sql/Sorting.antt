-- ===== src/Sql/Sorting.antt =====
-- ORDER BY … DESC sorts, and neither drops nor repeats a row.
use mathlib.Core.List.{Perm}
use mathlib.Core.List.Perm
use micro_blog.Base.{
  refl, suc, length, ◌≡◌, ap, ◌∙◌, ℕ, ◌≤◌, ◌<◌, ◌++◌, List, [], ◌∷◌, arith, leb, Bool-cases, inl,
  inr, All, All-imp,
}
use micro_blog.Sql.{sink, order_desc}

module _ {ℓ} {A : Type ℓ} (key : A → ℕ) where
  -- Each row's key is at least the keys of the rows after it.
  abbrev pub IsDescending : List A → Type ℓ
  IsDescending [] = Unit
  IsDescending (x ∷ xs) = All (λ y. key y ≤ key x) xs × IsDescending xs

  sink-perm : (x : A) (ys : List A) → Perm (sink key x ys) (x ∷ ys)
  unfolding sink
  sink-perm x [] = Perm.refl (x ∷ [])
  sink-perm x (y ∷ ys) = elim (Bool-cases (leb (key y) (key x))) [
    | inl e ↦ rw e (Perm.refl (x ∷ y ∷ ys))
    | inr e ↦ rw e (Perm.trans (Perm.cons y (sink-perm x ys)) (Perm.swap x y ys))
  ]

  -- The result holds the same rows, each as often.
  pub order_desc-perm : (xs : List A) → Perm (order_desc key xs) xs
  unfolding order_desc
  order_desc-perm [] = Perm.refl []
  order_desc-perm (x ∷ xs) =
      Perm.trans (sink-perm x (order_desc key xs)) (Perm.cons x (order_desc-perm xs))

  All-sink {κ} : (P : A → Type κ) (x : A) (ys : List A) → P x → All P ys → All P (sink key x ys)
  unfolding sink
  All-sink P x [] p h = (p, tt)
  All-sink P x (y ∷ ys) p (q, h) = elim (Bool-cases (leb (key y) (key x))) [
    | inl e ↦ rw e (p, (q, h))
    | inr e ↦ rw e (q, All-sink P x ys p h)
  ]

  sink-IsDescending : (x : A) (ys : List A) → IsDescending ys → IsDescending (sink key x ys)
  unfolding sink
  sink-IsDescending x [] h = (tt, tt)
  sink-IsDescending x (y ∷ ys) (a, h) = elim (Bool-cases (leb (key y) (key x))) [
    | inl e ↦
        rw e ((ground arith, All-imp _ _ (λ z (p : key z ≤ key y). ground arith) ys a), (a, h))
    | inr e ↦ rw e (All-sink _ x ys (ground arith) a, sink-IsDescending x ys h)
  ]

  -- The result is in descending order of the key.
  pub order_desc-IsDescending : (xs : List A) → IsDescending (order_desc key xs)
  unfolding order_desc
  order_desc-IsDescending [] = tt
  order_desc-IsDescending (x ∷ xs) =
      sink-IsDescending x (order_desc key xs) (order_desc-IsDescending xs)

  pub All-order_desc {κ} : (P : A → Type κ) (xs : List A) → All P xs → All P (order_desc key xs)
  unfolding order_desc
  All-order_desc P [] h = tt
  All-order_desc P (x ∷ xs) (p, h) = All-sink P x (order_desc key xs) p (All-order_desc P xs h)

  length-sink : (x : A) (xs : List A) → length (sink key x xs) ≡ suc (length xs)
  unfolding sink
  length-sink x [] = refl
  length-sink x (y ∷ ys) = ground (arith, length-sink x ys)

  pub length-order_desc : (xs : List A) → length (order_desc key xs) ≡ length xs
  unfolding order_desc
  length-order_desc [] = refl
  length-order_desc (x ∷ xs) =
      ground (arith, length-sink x (order_desc key xs), length-order_desc xs)

  sink-newer : (y x : A) (xs : List A) → key y < key x → sink key y (x ∷ xs) ≡ x ∷ sink key y xs
  unfolding sink
  sink-newer y x xs lt = ground arith

  -- A row that is newer than all others comes first.
  pub order_desc-newest :
      (xs : List A) (x : A)
      → All (λ y. key y < key x) xs
      → order_desc key (xs ++ x ∷ []) ≡ x ∷ order_desc key xs
  unfolding order_desc sink
  order_desc-newest [] x h = refl
  order_desc-newest (y ∷ xs) x (lt, h) =
      ap (sink key y) (order_desc-newest xs x h) ∙ sink-newer y x (order_desc key xs) lt
