-- ===== src/User/Profiles.antt =====
-- The message user.created: what the subscriber stores, and what happens to a message that comes again.
use micro_blog.Base.{
  ◌≡◌, refl, inl, inr, ℕ, String, Text, string_eq, text_eq, ==_refl, Bool, true, false, List, [],
  ◌∷◌, ◌++◌, arith, any, Bool-cases,
}
use micro_blog.User.Service.{User, UserDb, user_clash, profile, insert_unless, on_user_created}

any_last :
    (p : User → Bool) (users : List User) (u : User) → p u ≡ true → any p (users ++ u ∷ []) ≡ true
any_last p [] u h = ground arith
any_last p (v ∷ users) u h = ground (arith, any_last p users u)

insert_unless-clash :
    (row : User) (s : UserDb) → any (user_clash row) s.users ≡ true → insert_unless row s ≡ s
unfolding insert_unless
insert_unless-clash row s h = rw (h, insert_unless) refl

insert_unless-fits :
    (row : User) (s : UserDb)
    → any (user_clash row) s.users ≡ false
    → insert_unless row s ≡ record s { users = s.users ++ row ∷ [] }
unfolding insert_unless
insert_unless-fits row s h = rw (h, insert_unless) refl

module _ (user_id : String) (username email : Text) (role : String) where
  -- The message delivered at each of the given times.
  unfoldable pub deliver : (times : List ℕ) → UserDb → UserDb
  unfolding on_user_created
  deliver [] s = s
  deliver (now ∷ times) s = deliver times (on_user_created now user_id username email role s)

  abbrev row_at : ℕ → User
  row_at now = profile now user_id username email role

  clash_after :
      (now later : ℕ) (s : UserDb)
      → any (user_clash (row_at later)) (insert_unless (row_at now) s).users ≡ true
  clash_after now later s = elim (Bool-cases (any (user_clash (row_at now)) s.users)) [
    | inl c ↦ rw (insert_unless-clash (row_at now) s c) c
    | inr f ↦
        rw (insert_unless-fits (row_at now) s f)
          (any_last (user_clash (row_at later)) s.users (row_at now) (rw (==_refl user_id) refl))
  ]

  settled :
      (times : List ℕ) (s : UserDb)
      → ((later : ℕ) → any (user_clash (row_at later)) s.users ≡ true)
      → deliver times s ≡ s
  unfolding deliver
  settled [] s h = refl
  settled (now ∷ times) s h = rw (insert_unless-clash (row_at now) s (h now)) (settled times s h)

-- A message user.created that is delivered again, at whatever times, has the effect of its first
-- delivery: no profile is added twice, and none is overwritten.
pub deliver-eq-first :
    (user_id : String) (username email : Text) (role : String) (now : ℕ) (times : List ℕ)
    (s : UserDb)
    → deliver user_id username email role (now ∷ times) s
      ≡ on_user_created now user_id username email role s
unfolding deliver
deliver-eq-first user_id username email role now times s =
    settled user_id username email role times _
      (λ later. clash_after user_id username email role now later s)
