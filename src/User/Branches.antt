-- ===== src/User/Branches.antt =====
-- Every way in which PUT /users/:id can end.
use micro_blog.Base.{
  ◌≡◌, refl, inl, inr, ◌∙◌, ℕ, String, string_eq, text_eq, ◌==◌, Bool, true, false, not, ◌&&◌, ◌||◌,
  Option, none, some, find, any, if◌then◌else◌, Bool-cases, Option-cases, done, thrown, Run,
  other_error, zod_error, return, ◌>>=◌,
}
use micro_blog.Frames.{bind-step, bind-eq-thrown}
use micro_blog.Sql.{update}
use micro_blog.Shared.Errors.{Reply, sent, refused, not_found}
use micro_blog.Shared.Events.{Event, user_updated, logged, send_up, send_down}
use micro_blog.Shared.Requests.{parsed}
use micro_blog.User.Service.{
  User, UserDb, UserView, UpdateUser, publish, view_of, find_user, update_row, with_data,
  update_user,
}
use micro_blog.User.Routes.{Caller, is_outsider, put_user}

pub publish_up :
    (e : Event) (s : UserDb)
    → s.bus.up ≡ true
    → publish e s ≡ done tt (record s { bus = logged e s.bus })
unfolding publish
publish_up e s h = send_up (λ s. s.bus) (λ b s. record s { bus = b }) e s h

pub publish_down : (e : Event) (s : UserDb) → s.bus.up ≡ false → publish e s ≡ thrown other_error s
unfolding publish
publish_down e s h = send_down (λ s. s.bus) (λ b s. record s { bus = b }) e s h

pub find_user-none :
    (id : String) (s : UserDb)
    → find (λ u. u.id == id) s.users ≡ none
    → find_user id s ≡ thrown (if s.is_uuid id then not_found "User" else other_error) s
unfolding find_user
find_user-none id s h = rw (h, find_user) refl

pub find_user-some :
    (id : String) (s : UserDb) (u : User)
    → find (λ v. v.id == id) s.users ≡ some u
    → find_user id s ≡ done u s
unfolding find_user
find_user-some id s u h = rw (h, find_user) refl

-- Another row has the name or the address.
abbrev pub is_taken : String → User → UserDb → Bool
is_taken id row s =
    any (λ v. not (v.id == id) && (v.username == row.username || v.email == row.email)) s.users

pub update_row-taken :
    (id : String) (row : User) (s : UserDb)
    → is_taken id row s ≡ true
    → update_row id row s ≡ thrown other_error s
unfolding update_row
update_row-taken id row s h = rw (h, update_row) refl

abbrev pub with_row : String → User → UserDb → UserDb
with_row id row s = record s { users = update (λ u. u.id == id) (λ u. row) s.users }

pub update_row-free :
    (id : String) (row : User) (s : UserDb)
    → is_taken id row s ≡ false
    → update_row id row s ≡ done row (with_row id row s)
unfolding update_row
update_row-free id row s h = rw (h, update_row) refl

module _ (now : ℕ) (caller : Caller) (id : String) (s : UserDb) where
  pub data IsPut : Option UpdateUser → Run UserDb (Reply UserView) → Type 0 where
    outsider :
        (body : Option UpdateUser)
        → is_outsider caller id ≡ true
        → IsPut body (done (refused 403 "Can only update your own profile") s)
    refused_id :
        (b : UpdateUser)
        → is_outsider caller id ≡ false
        → find (λ u. u.id == id) s.users ≡ none
        → s.is_uuid id ≡ false
        → IsPut (some b) (thrown other_error s)
    malformed : is_outsider caller id ≡ false → IsPut none (thrown zod_error s)
    no_user :
        (b : UpdateUser)
        → is_outsider caller id ≡ false
        → find (λ u. u.id == id) s.users ≡ none
        → s.is_uuid id ≡ true
        → IsPut (some b) (thrown (not_found "User") s)
    taken :
        (b : UpdateUser) (u : User)
        → is_outsider caller id ≡ false
        → find (λ u. u.id == id) s.users ≡ some u
        → is_taken id (with_data now b u) s ≡ true
        → IsPut (some b) (thrown other_error s)
    unsent :
        (b : UpdateUser) (u : User)
        → is_outsider caller id ≡ false
        → find (λ u. u.id == id) s.users ≡ some u
        → is_taken id (with_data now b u) s ≡ false
        → s.bus.up ≡ false
        → IsPut (some b) (thrown other_error (with_row id (with_data now b u) s))
    updated :
        (b : UpdateUser) (u : User)
        → is_outsider caller id ≡ false
        → find (λ u. u.id == id) s.users ≡ some u
        → is_taken id (with_data now b u) s ≡ false
        → s.bus.up ≡ true
        → IsPut (some b) (
            done
              (sent 200 (view_of (with_data now b u)))
              (record (with_row id (with_data now b u) s) {
                bus = logged (user_updated u.id b.username b.email b.bio none) s.bus;
              }))

  module _ (b : UpdateUser) where
    update_user-none :
        find (λ u. u.id == id) s.users ≡ none
        → update_user now id b s ≡ thrown (if s.is_uuid id then not_found "User" else other_error) s
    unfolding update_user
    update_user-none n = bind-eq-thrown _ _ s (find_user-none id s n)

    module _ (u : User) (found : find (λ v. v.id == id) s.users ≡ some u) where
      update_user-taken :
          is_taken id (with_data now b u) s ≡ true → update_user now id b s ≡ thrown other_error s
      unfolding update_user
      update_user-taken t =
          bind-step _ _ s (find_user-some id s u found)
          ∙ bind-eq-thrown _ _ s (update_row-taken id (with_data now b u) s t)

      module _ (free : is_taken id (with_data now b u) s ≡ false) where
        update_user-unsent :
            s.bus.up ≡ false
            → update_user now id b s ≡ thrown other_error (with_row id (with_data now b u) s)
        unfolding update_user
        update_user-unsent down =
            bind-step _ _ s (find_user-some id s u found)
            ∙ bind-step _ _ s (update_row-free id (with_data now b u) s free)
            ∙ bind-eq-thrown _ _ (with_row id (with_data now b u) s) (
                publish_down (user_updated u.id b.username b.email b.bio none)
                  (with_row id (with_data now b u) s) down)

        update_user-updated :
            s.bus.up ≡ true
            → update_user now id b s
              ≡ done (view_of (with_data now b u)) (record (with_row id (with_data now b u) s) {
                bus = logged (user_updated u.id b.username b.email b.bio none) s.bus;
              })
        unfolding update_user return
        update_user-updated up =
            bind-step _ _ s (find_user-some id s u found)
            ∙ bind-step _ _ s (update_row-free id (with_data now b u) s free)
            ∙ bind-step _ _ (with_row id (with_data now b u) s) (
                publish_up (user_updated u.id b.username b.email b.bio none)
                  (with_row id (with_data now b u) s) up)

  put_allowed :
      is_outsider caller id ≡ false
      → (body : Option UpdateUser)
      → IsPut body ((parsed body >>= λ b. update_user now id b >>= λ u. return (sent 200 u)) s)
  unfolding parsed ◌>>=◌
  put_allowed own none = malformed own
  put_allowed own (some b) = elim (Option-cases (find (λ u. u.id == id) s.users)) [
    | inl n ↦ rw (bind-eq-thrown _ _ s (update_user-none b n)) (elim (Bool-cases (s.is_uuid id)) [
      | inl ok ↦ rw ok (no_user b own n ok)
      | inr bad ↦ rw bad (refused_id b own n bad)
    ])
    | inr (u, f) ↦ elim (Bool-cases (is_taken id (with_data now b u) s)) [
      | inl t ↦ rw (bind-eq-thrown _ _ s (update_user-taken b u f t)) (taken b u own f t)
      | inr free ↦ elim (Bool-cases s.bus.up) [
        | inl up ↦
            rw (bind-step _ _ s (update_user-updated b u f free up)) (updated b u own f free up)
        | inr down ↦
            rw (bind-eq-thrown _ _ s (update_user-unsent b u f free down))
              (unsent b u own f free down)
      ]
    ]
  ]

  pub put_user-IsPut : (body : Option UpdateUser) → IsPut body (put_user now caller id body s)
  unfolding put_user return
  put_user-IsPut body = elim (Bool-cases (is_outsider caller id)) [
    | inl out ↦ rw out (outsider body out)
    | inr own ↦ rw own (put_allowed own body)
  ]
