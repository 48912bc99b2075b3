-- ===== src/Post/Slug/Distinct.antt =====
-- The candidates that `ensureUniquSlug` tries, counted against the slugs that are taken.
use micro_blog.Base.{
  ℕ, zero, suc, ◌+◌, ◌≤◌, ◌<◌, ◌≡◌, ◌≢◌, refl, sym, ap, ◌∙◌, Text, Bool, true, false, not, List, [],
  ◌∷◌, ◌++◌, arith, ◌==◌, text_eq, ==_iff, filter, any, length, Bool-cases, inl, inr, suc,
  length-filter, length-append,
}
use micro_blog.Post.Slug.{dash}
use micro_blog.Post.Slug.Decimal.{print, print-injective}

-- The texts in the order in which they are tried: slug, slug-1, slug-2, …
abbrev pub candidate : Text → ℕ → Text
candidate slug zero = slug
candidate slug (suc k) = slug ++ dash ∷ print (suc k)

append-cancel : (s t u : Text) → s ++ t ≡ s ++ u → t ≡ u
append-cancel [] t u e = e
append-cancel (c ∷ s) t u e = append-cancel s t u (cc)

append-ne : (s t : Text) (c : ℕ) → s ≢ s ++ c ∷ t
append-ne s t c e = absurd (omega (arith, ap (λ (l : Text). length l) e, length-append s (c ∷ t)))

pub candidate-injective : (slug : Text) (j k : ℕ) → candidate slug j ≡ candidate slug k → j ≡ k
candidate-injective slug zero zero e = refl
candidate-injective slug zero (suc k) e = absurd (append-ne slug _ _ e)
candidate-injective slug (suc j) zero e = absurd (append-ne slug _ _ (sym e))
candidate-injective slug (suc j) (suc k) e =
    print-injective (suc j) (suc k) (cc (append-cancel slug _ _ e))

abbrev pub taken : Text → List Text → Bool
taken t ts = any (λ u. u == t) ts

without : Text → List Text → List Text
without t ts = filter (λ u. not (u == t)) ts

length-without : (t : Text) (ts : List Text) → taken t ts ≡ true → length (without t ts) < length ts
unfolding without
length-without t [] h = cc
length-without t (u ∷ ts) h = elim (Bool-cases (u == t)) [
  | inl e ↦ rw e (omega (arith, length-filter (λ u. not (u == t)) ts))
  | inr e ↦ rw e (omega (arith, length-without t ts (rw e at h)))
]

taken-without : (s t : Text) (ts : List Text) → t ≢ s → taken s (without t ts) ≡ taken s ts
unfolding without
taken-without s t [] n = refl
taken-without s t (u ∷ ts) n = ground (arith, ==_iff u t, ==_iff u s, taken-without s t ts n)

-- Among more candidates than there are texts, one is not taken, and it is the first such.
pub free_candidate :
    (slug : Text) (fuel k : ℕ) (ts : List Text)
    → length ts < fuel
    → (j : ℕ) × (k ≤ j) × (j < k + fuel) × (taken (candidate slug j) ts ≡ false)
free_candidate slug zero k ts h = absurd (omega arith)
free_candidate slug (suc fuel) k ts h = elim (Bool-cases (taken (candidate slug k) ts)) [
  | inr e ↦ (k, omega arith, omega arith, e)
  | inl e ↦
      let (j, lo, hi, free) =
        free_candidate slug fuel (suc k) (without (candidate slug k) ts)
          (omega (arith, length-without (candidate slug k) ts e)) in
      (
        j,
        omega arith,
        omega arith,
        sym (
              taken-without (candidate slug j) (candidate slug k) ts
                (λ p. absurd (omega (arith, candidate-injective slug k j p))))
            ∙ free,
      )
]
