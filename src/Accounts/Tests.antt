-- ===== src/Accounts/Tests.antt =====
-- The agreement of the two services at a concrete run.
use micro_blog.Base.{◌≡◌, refl, ℕ, codes, text_eqb, true, none, some, List, [], ◌∷◌}
use micro_blog.Samples.{strokes}
use micro_blog.Shared.Events.{Bus}
use micro_blog.Auth.Service.{Primitives}
use micro_blog.Auth.Constraints.{empty}
use micro_blog.User.Routes.{Caller}
use micro_blog.User.Reachable.{put, promote, remove}
use micro_blog.Accounts.{System, Action, profile_request, registration, profiles, logins, run_all}
use micro_blog.Accounts.Agreement.{run_all-agrees}

abbrev bus_up : Bus
bus_up = record { up = true; log = [] }

abbrev prim : Primitives
prim = record {
  uuid = strokes;
  secret = strokes;
  hash = λ n p. p;
  compare = λ p h. text_eqb p h;
  hmac = λ raw. raw;
  sign = λ now claims. claims.username;
  lifetime = 100;
}

abbrev nobody : System
nobody = record {
  auth = empty bus_up;
  users = record { users = []; bus = bus_up; is_uuid = λ id. true };
}

abbrev root : Caller
root = record { user_id = none; user_role = some "admin" }

-- Two users register, one is made a writer and changes the name, and the other is removed.
abbrev story : List (ℕ × Action)
story =
    (1, registration (codes "ann") (codes "ann@x.org") (codes "secret99"))
    ∷ (2, registration (codes "bob") (codes "bob@x.org") (codes "secret99"))
    ∷ (3, profile_request root (promote 3 "" (some "writer")))
    ∷ (
      4,
      profile_request root
          (put 4 "" (some (record { username = some (codes "anna"); email = none; bio = none }))),
    )
    ∷ (5, profile_request root (remove "|"))
    ∷ []

run_all-agrees_example :
    profiles (run_all prim story nobody).users ≡ logins (run_all prim story nobody).auth
run_all-agrees_example =
    run_all-agrees prim story nobody (tt, (tt, (refl, ((refl, refl), (tt, tt)))))
      (record { agree = refl; users_up = refl; auth_up = refl })
