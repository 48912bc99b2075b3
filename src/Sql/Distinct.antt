-- ===== src/Sql/Distinct.antt =====
-- UNIQUE and PRIMARY KEY constraints: no two rows of a table clash.
use micro_blog.Base.{
  ◌≡◌, refl, ◌∙◌, Bool, false, List, [], ◌∷◌, ◌++◌, some, arith, any, filter, Bool-cases, inl, inr,
  ℕ, zero, suc, ◌-◌, ◌*◌, take, drop, leb,
}
use micro_blog.Sql.{insert, insert_all, update, sink, order_desc, page_of}

module _ {ℓ} {A : Type ℓ} (clash : A → A → Bool) where
  -- No row clashes with a later one.
  abbrev pub Distinct : List A → Type 0
  Distinct [] = Unit
  Distinct (x ∷ xs) = (any (clash x) xs ≡ false) × Distinct xs

  module _ (symmetric : (x y : A) → clash x y ≡ clash y x) where
    any-clash-append :
        (x y : A) (xs : List A)
        → any (clash x) xs ≡ false
        → clash y x ≡ false
        → any (clash x) (xs ++ y ∷ []) ≡ false
    any-clash-append x y [] h k = rw (symmetric x y, k) refl
    any-clash-append x y (z ∷ xs) h k = ground (arith, any-clash-append x y xs)

    pub Distinct-append :
        (row : A) (xs : List A)
        → Distinct xs
        → any (clash row) xs ≡ false
        → Distinct (xs ++ row ∷ [])
    Distinct-append row [] d h = (refl, tt)
    Distinct-append row (x ∷ xs) (c, d) h =
        (any-clash-append x row xs c (ground arith), Distinct-append row xs d (ground arith))

    -- A row that INSERT accepts, and all the rows that an INSERT of several accepts, clash with none.
    pub insert-Distinct :
        (row : A) (xs : List A) {ys : List A}
        → Distinct xs
        → insert clash row xs ≡ some ys
        → Distinct ys
    insert-Distinct row xs {ys} d e = elim (Bool-cases (any (clash row) xs)) [
      | inl c ↦ cc (rw c at e)
      | inr c ↦
          let kept : Distinct (xs ++ row ∷ []) = Distinct-append row xs d c in
          let same : xs ++ row ∷ [] ≡ ys = cc (rw c at e) in rw same at kept
    ]

    pub insert_all-Distinct :
        (rows xs : List A) {ys : List A}
        → Distinct xs
        → insert_all clash rows xs ≡ some ys
        → Distinct ys
    unfolding insert_all
    insert_all-Distinct [] xs {ys} d e = let same : xs ≡ ys = cc in rw same at d
    insert_all-Distinct (row ∷ rows) xs {ys} d e = elim (Bool-cases (any (clash row) xs)) [
      | inl c ↦ cc (rw c at e)
      | inr c ↦ insert_all-Distinct rows (xs ++ row ∷ []) (Distinct-append row xs d c) (rw c at e)
    ]

  any-filter :
      (p : A → Bool) (x : A) (xs : List A)
      → any (clash x) xs ≡ false
      → any (clash x) (filter p xs) ≡ false
  any-filter p x [] h = refl
  any-filter p x (y ∷ xs) h = ground (arith, any-filter p x xs)

  pub Distinct-filter : (p : A → Bool) (xs : List A) → Distinct xs → Distinct (filter p xs)
  Distinct-filter p [] d = tt
  Distinct-filter p (x ∷ xs) (c, d) = elim (Bool-cases (p x)) [
    | inl e ↦ rw e (any-filter p x xs c, Distinct-filter p xs d)
    | inr e ↦ rw e (Distinct-filter p xs d)
  ]

  module _ (p : A → Bool) (f : A → A)
      (same : (x y : A) → (clash (f x) y ≡ clash x y) × (clash x (f y) ≡ clash x y)) where
    any-update : (x : A) (xs : List A) → any (clash x) (update p f xs) ≡ any (clash x) xs
    any-update x [] = refl
    any-update x (y ∷ xs) = ground (arith, same x y, any-update x xs)

    any-clash_of_update : (x : A) (xs : List A) → any (clash (f x)) xs ≡ any (clash x) xs
    any-clash_of_update x [] = refl
    any-clash_of_update x (y ∷ xs) = ground (arith, same x y, any-clash_of_update x xs)

    -- An UPDATE of columns that no constraint names.
    pub Distinct-update : (xs : List A) → Distinct xs → Distinct (update p f xs)
    Distinct-update [] d = tt
    Distinct-update (x ∷ xs) (c, d) = elim (Bool-cases (p x)) [
      | inl e ↦
          rw e (any-clash_of_update x (update p f xs) ∙ any-update x xs ∙ c, Distinct-update xs d)
      | inr e ↦ rw e (any-update x xs ∙ c, Distinct-update xs d)
    ]

  any-take :
      (n : ℕ) (x : A) (xs : List A) → any (clash x) xs ≡ false → any (clash x) (take n xs) ≡ false
  any-take zero x xs h = refl
  any-take (suc n) x [] h = refl
  any-take (suc n) x (y ∷ xs) h = ground (arith, any-take n x xs)

  pub Distinct-take : (n : ℕ) (xs : List A) → Distinct xs → Distinct (take n xs)
  Distinct-take zero xs d = tt
  Distinct-take (suc n) [] d = tt
  Distinct-take (suc n) (x ∷ xs) (c, d) = (any-take n x xs c, Distinct-take n xs d)

  pub Distinct-drop : (n : ℕ) (xs : List A) → Distinct xs → Distinct (drop n xs)
  Distinct-drop zero xs d = d
  Distinct-drop (suc n) [] d = tt
  Distinct-drop (suc n) (x ∷ xs) (c, d) = Distinct-drop n xs d

  pub Distinct-page_of :
      (page limit : ℕ) (xs : List A) → Distinct xs → Distinct (page_of page limit xs)
  unfolding page_of
  Distinct-page_of page limit xs d = Distinct-take limit _ (Distinct-drop ((page - 1) * limit) xs d)

  module _ (key : A → ℕ) where
    any-sink : (x y : A) (xs : List A) → any (clash x) (sink key y xs) ≡ any (clash x) (y ∷ xs)
    unfolding sink
    any-sink x y [] = refl
    any-sink x y (z ∷ xs) = ground (arith, any-sink x y xs)

    any-order_desc : (x : A) (xs : List A) → any (clash x) (order_desc key xs) ≡ any (clash x) xs
    unfolding order_desc
    any-order_desc x [] = refl
    any-order_desc x (y ∷ xs) =
        ground (arith, any-sink x y (order_desc key xs), any-order_desc x xs)

    module _ (symmetric : (x y : A) → clash x y ≡ clash y x) where
      Distinct-sink :
          (x : A) (xs : List A) → any (clash x) xs ≡ false → Distinct xs → Distinct (sink key x xs)
      unfolding sink
      Distinct-sink x [] n d = (refl, tt)
      Distinct-sink x (y ∷ xs) n (c, d) = elim (Bool-cases (leb (key y) (key x))) [
        | inl e ↦ rw e (n, (c, d))
        | inr e ↦
            rw e
              (any-sink y x xs ∙ ground (arith, symmetric x y), Distinct-sink x xs (ground arith) d)
      ]

      -- ORDER BY repeats no row.
      pub Distinct-order_desc : (xs : List A) → Distinct xs → Distinct (order_desc key xs)
      unfolding order_desc
      Distinct-order_desc [] d = tt
      Distinct-order_desc (x ∷ xs) (c, d) =
          Distinct-sink x (order_desc key xs) (any-order_desc x xs ∙ c) (Distinct-order_desc xs d)
