-- ===== src/Auth/Taken.antt =====
-- A name and an address of services/auth/src/services/auth.ts belong to one account.
use micro_blog.Base.{
  ◌≡◌, ◌⊎◌, ap, ◌∙◌, sym, ℕ, Text, text_eq, ◌==◌, ==_iff, true, ◌||◌, arith, any, done, thrown,
}
use micro_blog.Frames.{bind-step, bind-eq-thrown, gets_lem, require_not}
use micro_blog.Sql.Laws.{any-append_last}
use micro_blog.Shared.Errors.{conflict}
use micro_blog.Auth.Service.{AuthDb, Primitives, Account, new_credential, register}
use micro_blog.Auth.RoundTrips.{register-eq-done}

register_taken :
    (prim : Primitives) (now : ℕ) (username email password : Text) (s : AuthDb)
    → any (λ c. c.email == email || c.username == username) s.credentials ≡ true
    → register prim now username email password s
      ≡ thrown (conflict "User with this email or username already exists") s
unfolding register
register_taken prim now u e p s taken =
    bind-step _ _ s (gets_lem _ s) ∙ bind-eq-thrown _ _ s (require_not _ _ s (ground arith))

-- Once a registration has succeeded, another one with the same address or the same name, whatever the rest of it and
-- whenever it comes next, is refused with the conflict that the caller is told of, and changes nothing.
pub register_twice :
    (prim : Primitives) (now now' : ℕ) (username email password username' email' password' : Text)
    (s t : AuthDb) (a : Account)
    → register prim now username email password s ≡ done a t
    → (username ≡ username') ⊎ (email ≡ email')
    → register prim now' username' email' password' t
      ≡ thrown (conflict "User with this email or username already exists") t
register_twice prim now now' u e p u' e' p' s t a h same =
    let (free, account, rows) = register-eq-done prim now u e p s h in
    register_taken prim now' u' e' p' t (
      ap (any (λ c. c.email == e' || c.username == u')) (sym rows)
      ∙ any-append_last _ s.credentials (new_credential prim now u e p "user" s.drawn)
          (ground (arith, ==_iff u u', ==_iff e e')))
