-- ===== src/Sql.antt =====
-- The SQL statements that the services build with drizzle, over a table as the list of its rows:
-- SELECT with WHERE (`filter`, and `find` for `findFirst`), COUNT, UPDATE, DELETE, INSERT against the
-- UNIQUE constraints of a table, ORDER BY … DESC, and LIMIT with OFFSET.
pub mod Laws
pub mod Distinct
pub mod Replace
pub mod Pages
pub mod Sorting
use micro_blog.Base.{
  ℕ, suc, ◌+◌, ◌-◌, ◌*◌, Bool, not, List, [], ◌∷◌, ◌++◌, Option, none, some, if◌then◌else◌, filter,
  any, length, take, drop, leb,
}

module _ {ℓ} {A : Type ℓ} where
  -- UPDATE … SET f WHERE p
  abbrev pub update : (A → Bool) → (A → A) → List A → List A
  update p f [] = []
  update p f (x ∷ xs) = (if p x then f x else x) ∷ update p f xs

  -- DELETE … WHERE p
  abbrev pub delete : (A → Bool) → List A → List A
  delete p xs = filter (λ x. not (p x)) xs

  -- SELECT count(*) … WHERE p
  abbrev pub count : (A → Bool) → List A → ℕ
  count p xs = length (filter p xs)

  -- INSERT; `clash` tells when two rows violate a UNIQUE or PRIMARY KEY constraint, and then the
  -- statement is refused.
  abbrev pub insert : (A → A → Bool) → A → List A → Option (List A)
  insert clash row xs = if any (clash row) xs then none else some (xs ++ row ∷ [])

  -- INSERT of several rows in one statement: all of them or none.
  unfoldable pub insert_all : (A → A → Bool) → List A → List A → Option (List A)
  insert_all clash [] xs = some xs
  insert_all clash (row ∷ rows) xs =
      let rest = insert_all clash rows (xs ++ row ∷ []) in if any (clash row) xs then none else rest

  -- ORDER BY key DESC. Rows with the same key stay in the order of the table; PostgreSQL leaves
  -- their order open.
  pub sink : (A → ℕ) → A → List A → List A
  sink key x [] = x ∷ []
  sink key x (y ∷ ys) = if leb (key y) (key x) then x ∷ y ∷ ys else y ∷ sink key x ys

  unfoldable pub order_desc : (A → ℕ) → List A → List A
  unfolding sink
  order_desc key [] = []
  order_desc key (x ∷ xs) = sink key x (order_desc key xs)

  -- `.limit(limit).offset((page - 1) * limit)`
  unfoldable pub page_of : (page limit : ℕ) → List A → List A
  page_of page limit xs = take limit (drop ((page - 1) * limit) xs)
