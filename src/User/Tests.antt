-- ===== src/User/Tests.antt =====
-- The theorems on the user service at concrete inputs.
use micro_blog.Base.{◌≡◌, refl, codes, true, none, some, [], ◌∷◌}
use micro_blog.Shared.Events.{Bus}
use micro_blog.User.Service.{UserDb, UpdateUser, on_user_created}
use micro_blog.User.Routes.{Caller}
use micro_blog.User.Reachable.{promote, handle}
use micro_blog.User.Roles.{profile_of, IsHarmless, handle-IsHarmless}
use micro_blog.User.Profiles.{deliver, deliver-eq-first}

abbrev bus_up : Bus
bus_up = record { up = true; log = [] }

abbrev nobody : UserDb
nobody = record { users = []; bus = bus_up; is_uuid = λ id. true }

abbrev ann_and_bob : UserDb
ann_and_bob =
    on_user_created 2 "b" (codes "bob") (codes "bob@x.org") "user"
      (on_user_created 1 "a" (codes "ann") (codes "ann@x.org") "writer" nobody)

abbrev ann : Caller
ann = record { user_id = some "a"; user_role = some "writer" }

abbrev renaming : UpdateUser
renaming = record { username = some (codes "anna"); email = none; bio = none }

handle-IsHarmless_example :
    IsHarmless ann "b"
      (profile_of "b" ann_and_bob)
      (profile_of "b" (handle ann (promote 5 "b" (some "admin")) ann_and_bob))
handle-IsHarmless_example =
    handle-IsHarmless ann (promote 5 "b" (some "admin")) ann_and_bob "b" refl

deliver-eq-first_example :
    deliver "b" (codes "bob") (codes "bob@x.org") "user" (3 ∷ 4 ∷ 9 ∷ []) nobody
    ≡ on_user_created 3 "b" (codes "bob") (codes "bob@x.org") "user" nobody
deliver-eq-first_example =
    deliver-eq-first "b" (codes "bob") (codes "bob@x.org") "user" 3 (4 ∷ 9 ∷ []) nobody
