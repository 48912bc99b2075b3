-- ===== src/Accounts/Tables.antt =====
-- A view of a table that keeps only some columns, and the statements that read no others.
use micro_blog.Base.{
  ◌≡◌, refl, ap, Bool, Bool-cases, inl, inr, some, List, [], ◌∷◌, ◌++◌, map, arith, find, any, drop,
  length,
}
use micro_blog.Sql.{update, delete}
use micro_blog.Shared.Events.{Event, Bus, logged}
use micro_blog.Accounts.{sent}

module _ {A B : Type 0} (view : A → B) where
  pub map-append : (xs ys : List A) → map view (xs ++ ys) ≡ map view xs ++ map view ys
  map-append [] ys = refl
  map-append (x ∷ xs) ys = ap (λ (l : List B). view x ∷ l) (map-append xs ys)

  pub any-map : (q : B → Bool) (xs : List A) → any (λ x. q (view x)) xs ≡ any q (map view xs)
  any-map q [] = refl
  any-map q (x ∷ xs) = ground (arith, any-map q xs)

  pub map-update :
      (q : B → Bool) (row : A) (xs : List A)
      → map view (update (λ x. q (view x)) (λ x. row) xs) ≡ update q (λ y. view row) (map view xs)
  map-update q row [] = refl
  map-update q row (x ∷ xs) = ground (arith, map-update q row xs)

  pub map-delete :
      (q : B → Bool) (xs : List A) → map view (delete (λ x. q (view x)) xs) ≡ delete q (map view xs)
  map-delete q [] = refl
  map-delete q (x ∷ xs) = ground (arith, map-delete q xs)

  pub find-map :
      (q : B → Bool) (xs : List A) {x : A}
      → find (λ x. q (view x)) xs ≡ some x
      → find q (map view xs) ≡ some (view x)
  find-map q [] e = cc
  find-map q (y ∷ xs) {x} e = ground (arith, find-map q xs {x = x})

  pub find_of_map :
      (q : B → Bool) (xs : List A) {y : B}
      → find q (map view xs) ≡ some y
      → (x : A) × (find (λ x. q (view x)) xs ≡ some x) × (view x ≡ y)
  find_of_map q [] e = cc
  find_of_map q (x ∷ xs) {y} e = elim (Bool-cases (q (view x))) [
    | inl h ↦ (x, rw h refl, cc (rw h at e))
    | inr n ↦ let (z, found, same) = find_of_map q xs (rw n at e) in (z, rw n found, same)
  ]

pub drop-append : {A : Type 0} (xs ys : List A) → drop (length xs) (xs ++ ys) ≡ ys
drop-append [] ys = refl
drop-append (x ∷ xs) ys = ground (arith, drop-append xs ys)

pub drop_all : {A : Type 0} (xs : List A) → drop (length xs) xs ≡ []
drop_all [] = refl
drop_all (x ∷ xs) = ground (arith, drop_all xs)

pub sent_one : (b : Bus) (e : Event) → sent b (logged e b) ≡ e ∷ []
sent_one b e = drop-append b.log (e ∷ [])

pub sent_none : (b : Bus) → sent b b ≡ []
sent_none b = drop_all b.log
