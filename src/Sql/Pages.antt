-- ===== src/Sql/Pages.antt =====
-- Pages of a listing: put end to end, they are the listing.
use Prim.Native.Nat.add
use micro_blog.Base.{
  ℕ, zero, suc, ◌+◌, ◌-◌, ◌*◌, ◌≤◌, ◌≡◌, refl, ap, ◌∙◌, List, [], ◌∷◌, ◌++◌, arith, length, take,
  drop,
}
use micro_blog.Sql.{page_of}

module _ {ℓ} {A : Type ℓ} where
  -- The pages 1 to n, one after the other.
  abbrev pub pages : (n limit : ℕ) → List A → List A
  pages zero limit xs = []
  pages (suc n) limit xs = pages n limit xs ++ page_of (suc n) limit xs

  take-add : (a b : ℕ) (xs : List A) → take (a + b) xs ≡ take a xs ++ take b (drop a xs)
  take-add zero b xs = rw add.zero refl
  take-add (suc a) zero [] = rw add.suc refl
  take-add (suc a) (suc b) [] = rw add.suc refl
  take-add (suc a) b (x ∷ xs) = rw add.suc (ap (λ (l : List A). x ∷ l) (take-add a b xs))

  pub take_all : (n : ℕ) (xs : List A) → length xs ≤ n → take n xs ≡ xs
  take_all zero [] h = refl
  take_all zero (x ∷ xs) h = absurd (omega arith)
  take_all (suc n) [] h = refl
  take_all (suc n) (x ∷ xs) h = ap (λ (l : List A). x ∷ l) (take_all n xs (omega arith))

  -- The first n pages are the first n * limit rows.
  pub pages-eq-take : (n limit : ℕ) (xs : List A) → pages n limit xs ≡ take (n * limit) xs
  unfolding page_of
  pages-eq-take zero limit xs = let e : zero * limit ≡ zero = omega arith in rw e refl
  pages-eq-take (suc n) limit xs =
      let e : (suc n - 1) * limit ≡ n * limit = ap (λ (k : ℕ). k * limit) (omega arith) in
      let e' : suc n * limit ≡ n * limit + limit = grind arith in
      rw (e, e', take-add, pages-eq-take n limit xs) refl

  -- Enough pages hold every row once, in the order of the listing.
  pub pages_cover : (n limit : ℕ) (xs : List A) → length xs ≤ n * limit → pages n limit xs ≡ xs
  pages_cover n limit xs h = pages-eq-take n limit xs ∙ take_all (n * limit) xs h
