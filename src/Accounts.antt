-- ===== src/Accounts.antt =====
-- The auth service and the user service together: both hold the identifier, the name, the address and the
-- role of every account, and each tells the other of its changes through the event bus.
pub mod Tables
pub mod Steps
pub mod Registration
pub mod Agreement
mod Tests
use micro_blog.Base.{ℕ, Text, List, [], ◌∷◌, map, drop, length, final}
use micro_blog.Shared.Events.{Event, Bus, user_created, user_updated, user_deleted}
use micro_blog.Auth.Service.{AuthDb, Primitives, Account, account_of, register}
use micro_blog.Auth.Subscribers.{on_user_updated, on_user_deleted}
use micro_blog.User.Service.{User, UserDb, on_user_created}
use micro_blog.User.Routes.{Caller}
use micro_blog.User.Reachable.{Request, handle}

abbrev pub account : User → Account
account u = record { id = u.id; username = u.username; email = u.email; role = u.role }

-- What each service holds of the accounts.
abbrev pub profiles : UserDb → List Account
profiles s = map account s.users

abbrev pub logins : AuthDb → List Account
logins s = map account_of s.credentials

-- The two consumers of the auth service, each with its `filter_subject`.
unfoldable pub auth_receives : (now : ℕ) → Event → AuthDb → AuthDb
auth_receives now (user_updated id username email bio role) s =
    final (on_user_updated now id username email role s)
auth_receives now (user_deleted id) s = on_user_deleted id s
auth_receives now e s = s

-- The consumer of the user service.
unfoldable pub user_receives : (now : ℕ) → Event → UserDb → UserDb
user_receives now (user_created id username email role) s =
    on_user_created now id username email role s
user_receives now e s = s

-- Messages arrive in the order in which they were sent.
abbrev pub auth_receives_all : (now : ℕ) → List Event → AuthDb → AuthDb
auth_receives_all now [] s = s
auth_receives_all now (e ∷ es) s = auth_receives_all now es (auth_receives now e s)

abbrev pub user_receives_all : (now : ℕ) → List Event → UserDb → UserDb
user_receives_all now [] s = s
user_receives_all now (e ∷ es) s = user_receives_all now es (user_receives now e s)

-- What was published between two states of a bus.
abbrev pub sent : Bus → Bus → List Event
sent old new = drop (length old.log) new.log

pub record System : Type 0 where
  pub auth : AuthDb
  pub users : UserDb

pub data Action : Type 0 where
  profile_request : (caller : Caller) (r : Request) → Action
  registration : (username email password : Text) → Action

-- One request to one of the services, and then what the other does with the messages.
unfoldable pub run : Primitives → (now : ℕ) → Action → System → System
unfolding auth_receives user_receives
run prim now (profile_request caller r) s =
    let users = handle caller r s.users in
    record { auth = auth_receives_all now (sent s.users.bus users.bus) s.auth; users = users }
run prim now (registration username email password) s =
    let auth = final (register prim now username email password s.auth) in
    record { auth = auth; users = user_receives_all now (sent s.auth.bus auth.bus) s.users }

abbrev pub run_all : Primitives → List (ℕ × Action) → System → System
run_all prim [] s = s
run_all prim (a ∷ rest) s = run_all prim rest (run prim a.0 a.1 s)
