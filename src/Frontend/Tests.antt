-- ===== src/Frontend/Tests.antt =====
-- The theorems on the texts of the frontend at concrete inputs.
use micro_blog.Base.{
  nat_eq, ◌==◌, ◌&&◌, ◌≡◌, refl, zero, suc, Text, codes, true, Option, none, some, [], ◌∷◌,
  if◌then◌else◌,
}
use micro_blog.Frontend.Session.{
  User, AuthState, Json, Browser, logged_out, is_given, set_auth, act_all, open_page, settled,
  open_page-act_all, navigate, require_auth,
}
use micro_blog.Frontend.Client.{Response, Options, api_fetch, api_fetch-session}
use micro_blog.Frontend.Links.{IsLink, IsImage, render_link, render_image, render-IsSafe}

render-IsSafe_example :
    IsLink (codes "here") (render_link (codes "javascript:alert(1)") (codes "here"))
    × IsImage (render_image (codes "javascript:alert(1)") (codes "here"))
render-IsSafe_example = render-IsSafe (codes "javascript:alert(1)") (codes "here")

abbrev ann : User
ann = record {
  id = codes "a";
  username = codes "ann";
  email = codes "ann@x.org";
  role = codes "writer";
  bio = none;
  created_at = codes "2024";
}

-- A notation for users: each text with its end marked.
abbrev put : Text → Text → Text
put [] rest = 0 ∷ rest
put (c ∷ t) rest = suc c ∷ put t rest

take_text : Text → Text × Text
take_text [] = ([], [])
take_text (zero ∷ s) = ([], s)
take_text (suc c ∷ s) = (c ∷ (take_text s).0, (take_text s).1)

take_text-put : (t rest : Text) → take_text (put t rest) ≡ (t, rest)
unfolding take_text
take_text-put [] rest = refl
take_text-put (c ∷ t) rest = rw (take_text-put t rest) refl

abbrev put_bio : Option Text → Text
put_bio none = []
put_bio (some t) = 0 ∷ put t []

abbrev take_bio : Text → Option Text
take_bio [] = none
take_bio (c ∷ s) = some (take_text s).0

take_bio_lem : (bio : Option Text) → take_bio (put_bio bio) ≡ bio
take_bio_lem none = refl
take_bio_lem (some t) = rw (take_text-put t []) refl

abbrev read : Text → AuthState
read s =
    let (token, s1) = take_text s in
    let (id, s2) = take_text s1 in
    let (username, s3) = take_text s2 in
    let (email, s4) = take_text s3 in
    let (role, s5) = take_text s4 in
    let (created_at, s6) = take_text s5 in
    record {
      user = some (record {
        id = id;
        username = username;
        email = email;
        role = role;
        bio = take_bio s6;
        created_at = created_at;
      });
      token = some token;
    }

abbrev write : Text → User → Text
write token u =
    put token
      (put u.id (put u.username (put u.email (put u.role (put u.created_at (put_bio u.bio))))))

abbrev json : Json
json = record { stringify = write; parse = λ s. some (read s) }

read-write :
    (token : Text) (u : User)
    → some (read (write token u)) ≡ some (record { user = some u; token = some token })
read-write token u =
    rw
      (
        take_text-put token (
            put u.id
              (put u.username (put u.email (put u.role (put u.created_at (put_bio u.bio)))))),
        take_text-put u.id
            (put u.username (put u.email (put u.role (put u.created_at (put_bio u.bio))))),
        take_text-put u.username (put u.email (put u.role (put u.created_at (put_bio u.bio)))),
        take_text-put u.email (put u.role (put u.created_at (put_bio u.bio))),
        take_text-put u.role (put u.created_at (put_bio u.bio)),
        take_text-put u.created_at (put_bio u.bio),
        take_bio_lem u.bio,
      )
      refl

write-is_given : (token : Text) (u : User) → is_given (some (write token u)) ≡ true
write-is_given [] u = refl
write-is_given (c ∷ t) u = refl

abbrev blank : Browser
blank = record { local = none; session = none; state = logged_out }

open_page-act_all_example :
    (open_page json (act_all json (set_auth (codes "t") ann ∷ []) (open_page json blank))).state
    ≡ settled (act_all json (set_auth (codes "t") ann ∷ []) (open_page json blank)).state
open_page-act_all_example =
    open_page-act_all json read-write write-is_given blank (set_auth (codes "t") ann ∷ [])

-- An answer of the server: the access token has expired.
abbrev refused : Response Text
refused = record {
  status = 401;
  json = some (record { value = []; error = some (codes "Invalid token"); message = none });
}

abbrev with_token : Options
with_token = record { token = some (codes "t"); body = none; headers = [] }

api_fetch-session_example :
    let expired = refused.status == 401 && is_given with_token.token in
    let b = act_all json (set_auth (codes "t") ann ∷ []) (open_page json blank) in
    let b' = (api_fetch json with_token refused b).1 in
    (b'.state ≡ (if expired then logged_out else b.state))
    × (require_auth none b'.state
        ≡ (if expired then navigate "/login" else require_auth none b.state))
    × ((open_page json b').state ≡ (if expired then logged_out else settled b.state))
api_fetch-session_example =
    api_fetch-session json read-write write-is_given blank (set_auth (codes "t") ann ∷ [])
      with_token refused none
