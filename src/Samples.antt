-- ===== src/Samples.antt =====
-- Sample data that the tests of several services share.
use Prim.Native.String as Str
use Prim.Native.String.{◌∷◌ as ◌∷ₛ◌}
use micro_blog.Base.{◌≡◌, refl, sym, ap, ◌∙◌, ℕ, zero, suc, String}

-- Identifiers that never repeat: as many strokes as were drawn before.
abbrev pub strokes : ℕ → String
strokes zero = Str.[]
strokes (suc n) = "|" ∷ₛ strokes n

abbrev how_many : String → ℕ
how_many Str.[] = 0
how_many (c ∷ₛ s) = suc (how_many s)

how_many_lem : (n : ℕ) → how_many (strokes n) ≡ n
how_many_lem zero = refl
how_many_lem (suc n) = ap suc (how_many_lem n)

pub strokes_injective : (m n : ℕ) → strokes m ≡ strokes n → m ≡ n
strokes_injective m n h = sym (how_many_lem m) ∙ ap how_many h ∙ how_many_lem n
