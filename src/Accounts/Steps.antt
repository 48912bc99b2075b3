-- ===== src/Accounts/Steps.antt =====
-- What one request to the user service does to the table of profiles and to the event bus.
use micro_blog.Base.{
  ◌≡◌, refl, inl, inr, ℕ, String, Text, string_eq, text_eq, ◌==◌, Bool, true, false, Option, none,
  some, [], ◌∷◌, find, or_else, Bool-cases, Option-cases, final, done, thrown, Run, Exec, return,
  ◌>>=◌,
}
use micro_blog.Frames.{bind-step, bind-eq-thrown, modify_lem}
use micro_blog.Sql.{delete}
use micro_blog.Shared.Errors.{Reply, sent, no_content}
use micro_blog.Shared.Events.{user_updated, user_deleted, logged}
use micro_blog.Shared.Requests.{parsed}
use micro_blog.Auth.Subscribers.{given, given_role}
use micro_blog.User.Service.{
  User, UserDb, UserView, UpdateUser, with_role, with_data, update_user_role, delete_user,
}
use micro_blog.User.Routes.{Caller, is_admin, is_outsider, put_role, put_user, delete_users}
use micro_blog.User.Branches.{
  IsPut, outsider, refused_id, malformed, no_user, taken, unsent, updated, put_user-IsPut, is_taken,
  with_row, publish_up, find_user-none, find_user-some, update_row-taken, update_row-free,
}
use micro_blog.User.Reachable.{Request, put, promote, remove, handle}

-- A field that the schema lets through is not empty.
abbrev pub is_filled : Option Text → Bool
is_filled none = true
is_filled (some []) = false
is_filled (some (c ∷ s)) = true

abbrev pub IsParsed : Request → Type 0
IsParsed (put now id none) = Unit
IsParsed (put now id (some body)) = (is_filled body.username ≡ true) × (is_filled body.email ≡ true)
IsParsed (promote now id none) = Unit
IsParsed (promote now id (some role)) = (role == "") ≡ false
IsParsed (remove id) = Unit

given_lem : (t : Option Text) → is_filled t ≡ true → given t ≡ t
given_lem none h = refl
given_lem (some []) h = cc
given_lem (some (c ∷ s)) h = refl

-- A profile is changed or removed, and one message tells of it; or nothing happens.
pub data IsStep (s : UserDb) : UserDb → Type 0 where
  idle : IsStep s s
  rewritten :
      (id : String) (u row : User) (username email bio : Option Text) (role : Option String)
      → find (λ v. v.id == id) s.users ≡ some u
      → is_taken id row s ≡ false
      → given username ≡ username
      → given email ≡ email
      → given_role role ≡ role
      → row.id ≡ u.id
      → row.username ≡ or_else username u.username
      → row.email ≡ or_else email u.email
      → row.role ≡ or_else role u.role
      → IsStep s (record (with_row id row s) {
        bus = logged (user_updated u.id username email bio role) s.bus;
      })
  removed :
      (id : String)
      → IsStep s (record s {
        users = delete (λ u. u.id == id) s.users;
        bus = logged (user_deleted id) s.bus;
      })

put_user-IsStep :
    (now : ℕ) (caller : Caller) (id : String) (s : UserDb) (body : Option UpdateUser)
    (r : Run UserDb (Reply UserView))
    → s.bus.up ≡ true
    → IsParsed (put now id body)
    → IsPut now caller id s body r
    → IsStep s (final r)
put_user-IsStep now caller id s body r up ok (outsider _ _) = idle
put_user-IsStep now caller id s body r up ok (refused_id _ _ _ _) = idle
put_user-IsStep now caller id s body r up ok (malformed _) = idle
put_user-IsStep now caller id s body r up ok (no_user _ _ _ _) = idle
put_user-IsStep now caller id s body r up ok (taken _ _ _ _ _) = idle
put_user-IsStep now caller id s body r up ok (unsent b u o f t down) = cc (up, down)
put_user-IsStep now caller id s body r up ok (updated b u o f t _) =
    rewritten id u (with_data now b u) b.username b.email b.bio none f t (given_lem b.username ok.0)
      (given_lem b.email ok.1) refl refl refl refl refl

-- A last step that only returns leaves the state as it is.
final-return :
    {A B : Type 0} (m : Exec UserDb A) (f : A → B) (s : UserDb)
    → final ((m >>= λ a. return (f a)) s) ≡ final (m s)
unfolding ◌>>=◌ return
final-return m f s = go (m s)
  where
    go :
        (r : Run UserDb _)
        → final (elim r [ done a s' ↦ return (f a) s' | thrown e s' ↦ thrown e s' ]) ≡ final r
    go (done a t) = refl
    go (thrown e t) = refl

module _ (s : UserDb) (up : s.bus.up ≡ true) where
  update_user_role-IsStep :
      (now : ℕ) (id role : String)
      → (role == "") ≡ false
      → IsStep s (final (update_user_role now id role s))
  unfolding update_user_role return
  update_user_role-IsStep now id role ok = elim (Option-cases (find (λ u. u.id == id) s.users)) [
    | inl n ↦ rw (bind-eq-thrown _ _ s (find_user-none id s n)) idle
    | inr (u, f) ↦ elim (Bool-cases (is_taken id (with_role now role u) s)) [
      | inl t ↦
          rw
            (
              bind-step _ _ s (find_user-some id s u f),
              bind-eq-thrown _ _ s (update_row-taken id (with_role now role u) s t),
            )
            idle
      | inr free ↦
          let row = with_role now role u in
          rw
            (
              bind-step _ _ s (find_user-some id s u f),
              bind-step _ _ s (update_row-free id row s free),
              bind-step _ _ (with_row id row s) (
                  publish_up (user_updated u.id none none none (some role)) (with_row id row s) up),
            )
            (rewritten id u row none none none (some role) f free refl refl (rw ok refl) refl refl
              refl refl)
    ]
  ]

  delete_user-IsStep : (id : String) → IsStep s (final (delete_user id s))
  unfolding delete_user
  delete_user-IsStep id = elim (Option-cases (find (λ u. u.id == id) s.users)) [
    | inl n ↦ rw (bind-eq-thrown _ _ s (find_user-none id s n)) idle
    | inr (u, f) ↦
        let left : UserDb = record s { users = delete (λ u. u.id == id) s.users } in
        rw
          (
            bind-step _ _ s (find_user-some id s u f),
            bind-step _ _ s (modify_lem _ s),
            publish_up (user_deleted id) left up,
          )
          (removed id)
  ]

  put_role-IsStep :
      (now : ℕ) (caller : Caller) (id : String) (role : Option String)
      → IsParsed (promote now id role)
      → IsStep s (final (put_role now caller id role s))
  unfolding put_role parsed return ◌>>=◌
  put_role-IsStep now caller id role ok = elim (Bool-cases (is_admin caller)) [
    | inr n ↦ rw n idle
    | inl a ↦ rw a (granted role ok)
  ]
    where
      granted :
          (role : Option String)
          → IsParsed (promote now id role)
          → IsStep s (
              final (
                (parsed role >>= λ r. update_user_role now id r >>= λ user. return (sent 200 user))
                  s))
      granted none ok = idle
      granted (some r) ok =
          rw (final-return (update_user_role now id r) (λ user. sent 200 user) s)
            (update_user_role-IsStep now id r ok)

  pub handle-IsStep : (caller : Caller) (r : Request) → IsParsed r → IsStep s (handle caller r s)
  unfolding handle delete_users return
  handle-IsStep caller (put now id body) ok =
      put_user-IsStep now caller id s body (put_user now caller id body s) up ok
        (put_user-IsPut now caller id s body)
  handle-IsStep caller (promote now id role) ok = put_role-IsStep now caller id role ok
  handle-IsStep caller (remove id) ok = elim (Bool-cases (is_outsider caller id)) [
    | inl o ↦ rw o idle
    | inr own ↦ rw (own, final-return (delete_user id) (λ _. no_content) s) (delete_user-IsStep id)
  ]
