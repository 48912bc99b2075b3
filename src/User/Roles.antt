-- ===== src/User/Roles.antt =====
-- What a caller who is no admin can do to the profiles, and to their roles.
use micro_blog.Base.{
  ◌≡◌, refl, sym, ap, ◌∙◌, ◌⊎◌, inl, inr, ℕ, String, string_eq, ◌==◌, ==_iff, Bool, true, false,
  Option, none, some, List, arith, find, find_sound, is_value, Bool-cases, Option-cases, final, Run,
  return, ◌>>=◌,
}
use micro_blog.Sql.{delete}
use micro_blog.Sql.Laws.{find-delete, find-delete_self}
use micro_blog.Sql.Replace.{replace, find-replace_other, find-replace_self}
use micro_blog.Shared.Errors.{Reply}
use micro_blog.User.Service.{
  User, UserDb, UpdateUser, publish, find_user, with_data, delete_user, UserView,
}
use micro_blog.User.Routes.{Caller, is_admin, is_outsider, put_role, delete_users}
use micro_blog.User.Branches.{
  IsPut, outsider, refused_id, malformed, no_user, taken, unsent, updated, put_user-IsPut,
}
use micro_blog.User.Reachable.{Request, put, promote, remove, handle}

-- The profile with an identifier.
abbrev pub profile_of : String → UserDb → Option User
profile_of id s = find (λ u. u.id == id) s.users

abbrev pub role_in : Option User → Option String
role_in none = none
role_in (some u) = some u.role

-- Of the profile of `id`: it is the same, or it is the caller's own and keeps its role, or it is the
-- caller's own and gone.
pub data IsHarmless (caller : Caller) (id : String) (old new : Option User) : Type 0 where
  same : new ≡ old → IsHarmless caller id old new
  own : is_value caller.user_id id ≡ true → role_in new ≡ role_in old → IsHarmless caller id old new
  gone : is_value caller.user_id id ≡ true → new ≡ none → IsHarmless caller id old new

-- What a PUT leaves in the table.
IsPut-users :
    (now : ℕ) (caller : Caller) (id : String) (s : UserDb) (body : Option UpdateUser)
    (r : Run UserDb (Reply UserView))
    → IsPut now caller id s body r
    → ((final r).users ≡ s.users)
      ⊎ ((b : UpdateUser) × (u : User) × (is_outsider caller id ≡ false)
          × (find (λ v. v.id == id) s.users ≡ some u)
          × ((final r).users ≡ replace (λ v. v.id == id) (with_data now b u) s.users))
IsPut-users now caller id s body r (outsider _ _) = inl refl
IsPut-users now caller id s body r (malformed _) = inl refl
IsPut-users now caller id s body r (no_user _ _ _ _) = inl refl
IsPut-users now caller id s body r (refused_id _ _ _ _) = inl refl
IsPut-users now caller id s body r (taken _ _ _ _ _) = inl refl
IsPut-users now caller id s body r (unsent b u o f _ _) = inr (b, u, o, f, refl)
IsPut-users now caller id s body r (updated b u o f _ _) = inr (b, u, o, f, refl)

module _ (caller : Caller) (plain : is_admin caller ≡ false) (id : String) where
  abbrev mine : String → User → Bool
  mine target v = v.id == target

  -- A row put in the place of a row that the caller may change, with the same role.
  replace-IsHarmless :
      (target : String) (u row : User) (users : List User)
      → row.id ≡ u.id
      → row.role ≡ u.role
      → is_outsider caller target ≡ false
      → find (mine target) users ≡ some u
      → IsHarmless caller id
          (find (mine id) users)
          (find (mine id) (replace (mine target) row users))
  replace-IsHarmless target u row users i r o f =
      let t = find_sound (mine target) users {x = u} f in
      elim (Bool-cases (target == id)) [
        | inl e ↦ rw (sym ((==_iff target id).0 e)) (
            own (ground arith) (
              ap role_in (find-replace_self (mine target) row (rw i t) users f)
              ∙ ap some r
              ∙ sym (ap role_in f)))
        | inr e ↦ same (
            find-replace_other (mine target) row (mine id)
              (λ x h. ground (arith, ==_iff x.id target, ==_iff x.id id, ==_iff target id))
              (rw i (ground (arith, ==_iff u.id target, ==_iff u.id id, ==_iff target id))) users)
      ]

  delete-IsHarmless :
      (target : String) (users : List User)
      → is_outsider caller target ≡ false
      → IsHarmless caller id (find (mine id) users) (find (mine id) (delete (mine target) users))
  delete-IsHarmless target users o = elim (Bool-cases (target == id)) [
    | inl e ↦
        rw (sym ((==_iff target id).0 e))
          (gone (ground arith) (find-delete_self (mine target) users))
    | inr e ↦ same (
        find-delete (mine target) (mine id) users
          (λ x h. ground (arith, ==_iff x.id target, ==_iff x.id id, ==_iff target id)))
  ]

-- What a DELETE leaves in the table.
delete_users-users :
    (caller : Caller) (target : String) (s : UserDb)
    → ((final (delete_users caller target s)).users ≡ s.users)
      ⊎ ((is_outsider caller target ≡ false)
          × ((final (delete_users caller target s)).users ≡ delete (λ u. u.id == target) s.users))
unfolding delete_users delete_user find_user publish ◌>>=◌
delete_users-users caller target s = elim (Bool-cases (is_outsider caller target)) [
  | inl out ↦ inl (ground arith)
  | inr may ↦ elim (Option-cases (find (λ u. u.id == target) s.users)) [
    | inl n ↦ inl (ground arith)
    | inr (u, f) ↦ inr (may, ground arith)
  ]
]

-- PUT /users/:id/role and PUT and DELETE /users/:id by a caller who is no admin leave every other profile
-- as it is; the caller's own keeps its role, or is gone.
pub handle-IsHarmless :
    (caller : Caller) (r : Request) (s : UserDb) (id : String)
    → is_admin caller ≡ false
    → IsHarmless caller id (profile_of id s) (profile_of id (handle caller r s))
unfolding handle put_role return
handle-IsHarmless caller (put now target body) s id plain =
    elim (IsPut-users now caller target s body _ (put_user-IsPut now caller target s body)) [
      | inl e ↦ same (ap (find (λ u. u.id == id)) e)
      | inr (b, u, o, f, e) ↦
          rw e
            (replace-IsHarmless caller plain id target u (with_data now b u) s.users refl refl o f)
    ]
handle-IsHarmless caller (promote now target role) s id plain = rw plain (same refl)
handle-IsHarmless caller (remove target) s id plain = elim (delete_users-users caller target s) [
  | inl e ↦ same (ap (find (λ u. u.id == id)) e)
  | inr (o, e) ↦ rw e (delete-IsHarmless caller plain id target s.users o)
]
