-- ===== src/Post/Slug/Decimal.antt =====
-- A number printed in decimal: `${counter}` of services/post/src/services/post.ts.
use mathlib.Core.List.{reverse, reverse-reverse}
use micro_blog.Base.{
  ℕ, zero, suc, ◌+◌, ◌-◌, ◌*◌, ◌/◌, ◌<◌, ◌≡◌, sym, ap, ◌∙◌, Text, [], ◌∷◌, arith, ltb, Bool-cases,
  inl, inr,
}
use micro_blog.Post.Slug.{digits}

unfoldable pub print : ℕ → Text
unfolding digits
print n = reverse (digits (suc n) n)

-- The number that digits stand for, the least significant first.
abbrev value : Text → ℕ
value [] = 0
value (d ∷ ds) = (d - 48) + 10 * value ds

value-digits : (fuel n : ℕ) → n < fuel → value (digits fuel n) ≡ n
unfolding digits
value-digits zero n h = absurd (omega arith)
value-digits (suc fuel) n h = elim (Bool-cases (ltb n 10)) [
  | inl e ↦ rw e (omega arith)
  | inr e ↦ rw e (ground (arith, value-digits fuel (n / 10) (ground arith)))
]

-- Different numbers are printed differently.
pub print-injective : (m n : ℕ) → print m ≡ print n → m ≡ n
unfolding print
print-injective m n e =
    sym (value-digits (suc m) m (omega arith))
    ∙ ap value (
        sym (reverse-reverse (digits (suc m) m))
        ∙ ap reverse e
        ∙ reverse-reverse (digits (suc n) n))
    ∙ value-digits (suc n) n (omega arith)
