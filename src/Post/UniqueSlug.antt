-- ===== src/Post/UniqueSlug.antt =====
-- `ensureUniquSlug` of services/post/src/services/post.ts: how long its loop runs, and where it ends.
use native.Mathlib.Numerals.{add-one}
use micro_blog.Base.{
  ℕ, zero, suc, ◌+◌, ◌≤◌, ◌<◌, ◌≡◌, ◌≢◌, refl, ap, ◌∙◌, String, Text, text_eq, string_eq, nat_eq,
  ◌==◌, true, false, not, Option, some, List, [], ◌∷◌, map, arith, find, any, length, truthy,
  is_value, if◌then◌else◌, Bool-cases, Option-cases, inl, inr, filter, ==_iff,
}
use micro_blog.Sql.Laws.{find-eq-none_iff_any, find-none_of_any}
use micro_blog.Post.Slug.Distinct.{candidate, taken, free_candidate}
use micro_blog.Post.Store.{Post, blocks, unique_slug_loop, ensure_unique_slug}

-- The slugs that a candidate must differ from.
abbrev others : Option String → List Post → List Text
others exclude posts =
    map (λ p. p.slug)
      (filter (λ p. if truthy exclude then not (is_value exclude p.id) else true) posts)

blocked_iff_taken :
    (exclude : Option String) (t : Text) (posts : List Post)
    → any (blocks exclude t) posts ≡ taken t (others exclude posts)
blocked_iff_taken exclude t [] = refl
blocked_iff_taken exclude t (p ∷ posts) = ground (arith, blocked_iff_taken exclude t posts)

-- The loop stops at the number `i`: its candidate is free, and all before it, from `k` on, are not.
abbrev StopsAt : List Post → Option String → Text → ℕ → ℕ → Type 0
StopsAt posts exclude slug k i =
    (any (blocks exclude (candidate slug i)) posts ≡ false)
    × ((m : ℕ) → k ≤ m → m < i → any (blocks exclude (candidate slug m)) posts ≡ true)

loop_stops :
    (fuel k j : ℕ) (posts : List Post) (exclude : Option String) (slug : Text)
    → k ≤ j
    → j < k + fuel
    → any (blocks exclude (candidate slug j)) posts ≡ false
    → (i : ℕ) × (i ≤ j)
      × (unique_slug_loop fuel posts exclude slug (candidate slug k) (suc k)
          ≡ some (candidate slug i))
      × StopsAt posts exclude slug k i
unfolding unique_slug_loop
loop_stops zero k j posts exclude slug lo hi free = absurd (omega arith)
loop_stops (suc fuel) k j posts exclude slug lo hi free =
    elim (Bool-cases (any (blocks exclude (candidate slug k)) posts)) [
      | inr e ↦ (
        k,
        lo,
        rw (find-none_of_any (blocks exclude (candidate slug k)) posts e, unique_slug_loop) refl,
        (e, λ m p q. absurd (omega arith)),
      )
      | inl e ↦
          let apart : k ≢ j =
            λ p. cc (e, free, ap (λ (n : ℕ). any (blocks exclude (candidate slug n)) posts) p) in
          let (i, le, runs, stops) =
            loop_stops fuel (suc k) j posts exclude slug (omega arith) (omega arith) free in
          (i, le, goes_on e runs, (stops.0, λ m p q. later e stops.1 m p q))
    ]
  where
    goes_on :
        {r : Option Text}
        → any (blocks exclude (candidate slug k)) posts ≡ true
        → unique_slug_loop fuel posts exclude slug (candidate slug (suc k)) (suc (suc k)) ≡ r
        → unique_slug_loop (suc fuel) posts exclude slug (candidate slug k) (suc k) ≡ r
    goes_on e runs = elim (Option-cases (find (blocks exclude (candidate slug k)) posts)) [
      | inl n ↦ cc (e, find-eq-none_iff_any (blocks exclude (candidate slug k)) posts n)
      | inr (p, s) ↦ rw (s, unique_slug_loop) (rw add-one runs)
    ]

    later :
        {i : ℕ}
        → any (blocks exclude (candidate slug k)) posts ≡ true
        → ((m : ℕ) → suc k ≤ m → m < i → any (blocks exclude (candidate slug m)) posts ≡ true)
        → (m : ℕ) → k ≤ m
        → m < i
        → any (blocks exclude (candidate slug m)) posts ≡ true
    later e f m p q = elim (Bool-cases (m == k)) [
      | inl same ↦ rw ((==_iff m k).0 same) e
      | inr other ↦ f m (ground arith) q
    ]

length-others :
    (exclude : Option String) (posts : List Post) → length (others exclude posts) ≤ length posts
length-others exclude [] = omega arith
length-others exclude (p ∷ posts) = ground (arith, length-others exclude posts)

-- The loop always ends within one round more than there are posts. Its result is the first of slug,
-- slug-1, slug-2, … that no other post has, and the number in it is at most the number of posts.
pub ensure_unique_slug_first_free :
    (posts : List Post) (slug : Text) (exclude : Option String)
    → (i : ℕ) × (i ≤ length posts)
      × (ensure_unique_slug posts slug exclude ≡ some (candidate slug i))
      × (any (blocks exclude (candidate slug i)) posts ≡ false)
      × ((m : ℕ) → m < i → any (blocks exclude (candidate slug m)) posts ≡ true)
unfolding ensure_unique_slug
ensure_unique_slug_first_free posts slug exclude =
    let (j, lo, hi, free) =
      free_candidate slug (suc (length posts)) 0 (others exclude posts)
        (omega (arith, length-others exclude posts)) in
    let (i, le, runs, stops) =
      loop_stops (suc (length posts)) 0 j posts exclude slug (omega arith) (omega arith)
        (blocked_iff_taken exclude (candidate slug j) posts ∙ free) in
    (i, omega arith, runs, stops.0, λ m q. stops.1 m (omega arith) q)
