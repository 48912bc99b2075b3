-- ===== src/User/Reachable.antt =====
-- What the user service does in one go, and the constraints of its table in the states that it reaches.
use micro_blog.Base.{
  Bool, ◌≡◌, inl, inr, ℕ, String, Text, string_eq, text_eq, ◌==◌, ==_iff, not, ◌&&◌, ◌||◌, Option,
  [], arith, find, any, find_sound, Bool-cases, Option-cases, final, done,
}
use micro_blog.Frames.{
  Keeps, Keeps-either, Keeps-bind, Keeps-bind_known, Keeps-return, Keeps-modify,
}
use micro_blog.Sql.Distinct.{Distinct, Distinct-append, Distinct-filter}
use micro_blog.Sql.Replace.{Distinct-replace}
use micro_blog.Shared.Errors.{sent, no_content}
use micro_blog.Shared.Events.{Event, Bus}
use micro_blog.Shared.Requests.{Keeps-parsed}
use micro_blog.User.Service.{
  User, UserDb, UpdateUser, user_clash, publish, find_user, update_row, with_role, with_data,
  update_user, update_user_role, delete_user, profile, on_user_created, insert_unless,
}
use micro_blog.User.Routes.{Caller, is_admin, is_outsider, put_role, put_user, delete_users}
use micro_blog.User.Branches.{is_taken}

-- A request that writes, a message of the auth service, or a change of the connection to the bus.
pub data Request : Type 0 where
  put : (now : ℕ) (id : String) (body : Option UpdateUser) → Request
  promote : (now : ℕ) (id : String) (role : Option String) → Request
  remove : (id : String) → Request

unfoldable pub handle : Caller → Request → UserDb → UserDb
handle caller (put now id body) s = final (put_user now caller id body s)
handle caller (promote now id role) s = final (put_role now caller id role s)
handle caller (remove id) s = final (delete_users caller id s)

pub data Reachable : UserDb → Type 0 where
  start :
      (b : Bus) (is_uuid : String → Bool)
      → Reachable (record { users = []; bus = b; is_uuid = is_uuid })
  request :
      (caller : Caller) (r : Request) (s : UserDb) → Reachable s → Reachable (handle caller r s)
  created :
      (now : ℕ) (user_id : String) (username email : Text) (role : String) (s : UserDb)
      → Reachable s
      → Reachable (on_user_created now user_id username email role s)
  connection : (b : Bus) (s : UserDb) → Reachable s → Reachable (record s { bus = b })

abbrev pub IsWellFormed : UserDb → Type 0
IsWellFormed s = Distinct user_clash s.users

user_clash_comm : (u v : User) → user_clash u v ≡ user_clash v u
user_clash_comm u v = ground (
  arith,
  ==_iff u.id v.id,
  ==_iff v.id u.id,
  ==_iff u.username v.username,
  ==_iff v.username u.username,
  ==_iff u.email v.email,
  ==_iff v.email u.email,
)

publish-IsWellFormed : (e : Event) → Keeps IsWellFormed (publish e)
unfolding publish
publish-IsWellFormed e = record {
  at = λ s h. elim (Bool-cases s.bus.up) [
    | inl u ↦ rw (u, publish, final) h
    | inr u ↦ rw (u, publish, final) h
  ];
}

find_user-IsWellFormed : (id : String) → Keeps IsWellFormed (find_user id)
unfolding find_user
find_user-IsWellFormed id = record {
  at = λ s h. elim (Option-cases (find (λ u. u.id == id) s.users)) [
    | inl e ↦ rw (e, find_user, final) h
    | inr (u, e) ↦ rw (e, find_user, final) h
  ];
}

-- What the update that follows may use.
find_user-eq-done :
    (id : String) (s : UserDb) (u : User) (t : UserDb) → find_user id s ≡ done u t → u.id ≡ id
unfolding find_user
find_user-eq-done id s u t h =
    ground (arith, find_sound (λ (v : User). v.id == id) s.users {x = u}, ==_iff u.id id)

update_row-IsWellFormed :
    (id : String) (row : User) → row.id ≡ id → Keeps IsWellFormed (update_row id row)
unfolding update_row
update_row-IsWellFormed id row named = record {
  at = λ s h. elim (Bool-cases (is_taken id row s)) [
    | inl e ↦ rw (e, update_row, final) h
    | inr e ↦
        rw (e, update_row, final)
          (Distinct-replace (λ u. u.id == id) row user_clash
            (λ v. not (v.id == id) && (v.username == row.username || v.email == row.email))
            (λ x y k l. ground (arith, ==_iff x.id id, ==_iff y.id id, ==_iff x.id y.id))
            (λ x k r. ground (
              arith,
              ==_iff x.id id,
              user_clash_comm x row,
              ==_iff row.id x.id,
              ==_iff row.username x.username,
              ==_iff x.username row.username,
              ==_iff row.email x.email,
              ==_iff x.email row.email,
            ))
            s.users e h)
  ];
}

update_user-IsWellFormed :
    (now : ℕ) (id : String) (body : UpdateUser) → Keeps IsWellFormed (update_user now id body)
unfolding update_user
update_user-IsWellFormed now id body =
    Keeps-bind_known (λ u. u.id ≡ id) _ _ (find_user-IsWellFormed id) (find_user-eq-done id)
      λ u e.
        Keeps-bind _ _ (update_row-IsWellFormed id (with_data now body u) e)
          λ row. Keeps-bind _ _ (publish-IsWellFormed _) λ _. Keeps-return _

update_user_role-IsWellFormed :
    (now : ℕ) (id role : String) → Keeps IsWellFormed (update_user_role now id role)
unfolding update_user_role
update_user_role-IsWellFormed now id role =
    Keeps-bind_known (λ u. u.id ≡ id) _ _ (find_user-IsWellFormed id) (find_user-eq-done id)
      λ u e.
        Keeps-bind _ _ (update_row-IsWellFormed id (with_role now role u) e)
          λ row. Keeps-bind _ _ (publish-IsWellFormed _) λ _. Keeps-return _

delete_user-IsWellFormed : (id : String) → Keeps IsWellFormed (delete_user id)
unfolding delete_user
delete_user-IsWellFormed id = Keeps-bind _ _ (find_user-IsWellFormed id) λ u.
    Keeps-bind _ _ (Keeps-modify _ λ s h. Distinct-filter user_clash _ s.users h)
      λ _. publish-IsWellFormed _

insert_unless-IsWellFormed :
    (row : User) (s : UserDb) → IsWellFormed s → IsWellFormed (insert_unless row s)
unfolding insert_unless
insert_unless-IsWellFormed row s h = elim (Bool-cases (any (user_clash row) s.users)) [
  | inl e ↦ rw (e, insert_unless) h
  | inr e ↦ rw (e, insert_unless) (Distinct-append user_clash user_clash_comm row s.users h e)
]

handle-IsWellFormed :
    (caller : Caller) (r : Request) (s : UserDb) → IsWellFormed s → IsWellFormed (handle caller r s)
unfolding handle put_user put_role delete_users
handle-IsWellFormed caller (put now id body) s h =
    (Keeps-either (is_outsider caller id) _ _ (Keeps-return _) (
        Keeps-bind _ _ (Keeps-parsed body) λ b.
          Keeps-bind _ _ (update_user-IsWellFormed now id b) λ u. Keeps-return (sent 200 u))).at
      s h
handle-IsWellFormed caller (promote now id role) s h =
    (Keeps-either (not (is_admin caller)) _ _ (Keeps-return _) (
        Keeps-bind _ _ (Keeps-parsed role) λ r.
          Keeps-bind _ _ (update_user_role-IsWellFormed now id r)
            λ u. Keeps-return (sent 200 u))).at
      s h
handle-IsWellFormed caller (remove id) s h =
    (Keeps-either (is_outsider caller id) _ _ (Keeps-return _)
        (Keeps-bind _ _ (delete_user-IsWellFormed id) λ u. Keeps-return no_content)).at
      s h

-- In every state that requests, messages of the auth service and failures of the bus can lead to, no two
-- profiles have the same identifier, name or address.
pub Reachable-Distinct : {s : UserDb} → Reachable s → Distinct user_clash s.users
unfolding on_user_created
Reachable-Distinct (start b is_uuid) = tt
Reachable-Distinct (request caller r s h) = handle-IsWellFormed caller r s (Reachable-Distinct h)
Reachable-Distinct (created now user_id username email role s h) =
    insert_unless-IsWellFormed (profile now user_id username email role) s (Reachable-Distinct h)
Reachable-Distinct (connection b s h) = Reachable-Distinct h
