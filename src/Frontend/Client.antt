-- ===== src/Frontend/Client.antt =====
-- services/frontend/src/api/client.ts: the requests of the frontend, and what an answer does to the session of
-- context/AuthContext.tsx.
use micro_blog.Base.{
  ◌≡◌, refl, inl, inr, ℕ, Text, codes, text_eq, nat_eq, ◌==◌, Bool, true, not, ◌&&◌, Option, none,
  some, List, [], ◌∷◌, ◌++◌, arith, leb, or_else, Bool-cases, if◌then◌else◌,
}
use micro_blog.Frontend.Session.{
  Browser, Json, Action, log_out, act, act_all, open_page, logged_out, settled, is_given,
  require_auth, navigate, open_page-act_all, User,
}

abbrev pub Headers : Type 0
Headers = List (Text × Text)

-- `headers[name] = value`, and one entry of a spread.
abbrev pub put_header : Text → Text → Headers → Headers
put_header name value [] = (name, value) ∷ []
put_header name value ((n, v) ∷ rest) =
    if n == name then (name, value) ∷ rest else (n, v) ∷ put_header name value rest

-- `{ ...headers, ...more }`
abbrev pub spread : Headers → Headers → Headers
spread headers [] = headers
spread headers ((n, v) ∷ more) = spread (put_header n v headers) more

-- `options`: the token, the body where it is a string, and the headers.
pub record Options : Type 0 where
  pub token : Option Text
  pub body : Option Text
  pub headers : Headers

abbrev pub authorization : Option Text → Headers
authorization token =
    if is_given token
    then put_header (codes "Authorization") (codes "Bearer " ++ or_else token []) []
    else []

unfoldable pub request_headers : Options → Headers
request_headers options =
    spread
      (if is_given options.body
        then put_header (codes "Content-Type") (codes "application/json")
            (authorization options.token)
        else authorization options.token)
      options.headers

-- What `resp.json()` gives, with its fields `error` and `message`.
pub record Payload (A : Type 0) : Type 0 where
  pub value : A
  pub error : Option Text
  pub message : Option Text

-- `data` is missing where the body is no JSON.
pub record Response (A : Type 0) : Type 0 where
  pub status : ℕ
  pub json : Option (Payload A)

pub data Answer (A : Type 0) : Type 0 where
  value : Option A → Answer A
  api_error : (status : ℕ) (message : Text) → Answer A

abbrev pub is_ok : ℕ → Bool
is_ok status = leb 200 status && leb status 299

-- `a || b`
abbrev pub or_given : Option Text → Text → Text
or_given a b = if is_given a then or_else a [] else b

abbrev pub error_message : {A : Type 0} → Option (Payload A) → Text
error_message none = codes "Request failed"
error_message (some p) = or_given p.error (or_given p.message (codes "Request failed"))

abbrev pub upload_message : {A : Type 0} → Option (Payload A) → Text
upload_message none = codes "Upload failed"
upload_message (some p) = or_given p.error (codes "Upload failed")

abbrev pub payload_value : {A : Type 0} → Option (Payload A) → Option A
payload_value none = none
payload_value (some p) = some p.value

module _ (json : Json) where
  -- `window.dispatchEvent(new Event('auth:expired'))`, which the provider listens to.
  abbrev pub expire : Bool → Browser → Browser
  expire expired b = if expired then act json log_out b else b

module _ {A : Type 0} where
  -- `resp.status === 401 && token`
  abbrev pub is_expired : Options → Response A → Bool
  is_expired options resp = resp.status == 401 && is_given options.token

  -- `apiUpload`; the session stays whatever the answer is.
  unfoldable pub api_upload : Response A → Browser → Answer A × Browser
  api_upload resp b =
      if not (is_ok resp.status)
      then (api_error resp.status (upload_message resp.json), b)
      else (value (payload_value resp.json), b)

  -- `apiFetch`, with the answer of the server.
  unfoldable pub api_fetch : Json → Options → Response A → Browser → Answer A × Browser
  api_fetch json options resp b =
      if resp.status == 204
      then (value none, b)
      else if not (is_ok resp.status)
      then (
        api_error resp.status (error_message resp.json),
        expire json (is_expired options resp) b,
      )
      else (value (payload_value resp.json), b)

  api_fetch-browser :
      (json : Json) (options : Options) (resp : Response A) (b : Browser)
      → (api_fetch json options resp b).1 ≡ expire json (is_expired options resp) b
  unfolding api_fetch
  api_fetch-browser json options resp b = elim (Bool-cases (is_expired options resp)) [
    | inl y ↦ rw y (ground arith)
    | inr n ↦ rw n (ground arith)
  ]

module _ (json : Json) where
  act_all-append :
      (before after : List Action) (b : Browser)
      → act_all json (before ++ after) b ≡ act_all json after (act_all json before b)
  unfolding act_all
  act_all-append [] after b = refl
  act_all-append (a ∷ before) after b = act_all-append before after (act json a b)

module _ (json : Json)
    (sound : (token : Text) (user : User)
      → json.parse (json.stringify token user)
        ≡ some (record { user = some user; token = some token }))
    (filled : (token : Text) (user : User) → is_given (some (json.stringify token user)) ≡ true)
    {A : Type 0} where
  -- A request with a token that is answered with 401 ends the session: the page is logged out, the pages for
  -- users lead to the login, and a page that is opened next is logged out too. After any other answer
  -- everything is as before, also on a page that is opened next, for a page on which anything has happened.
  -- `JSON.parse` gives back what `JSON.stringify` has written.
  pub api_fetch-session :
      (left : Browser) (actions : List Action) (options : Options) (resp : Response A)
      (roles : Option (List Text))
      → let expired = resp.status == 401 && is_given options.token in
        let b = act_all json actions (open_page json left) in
        let b' = (api_fetch json options resp b).1 in
        (b'.state ≡ (if expired then logged_out else b.state))
        × (require_auth roles b'.state
            ≡ (if expired then navigate "/login" else require_auth roles b.state))
        × ((open_page json b').state ≡ (if expired then logged_out else settled b.state))
  unfolding act_all require_auth
  api_fetch-session left actions options resp roles =
      let b = act_all json actions (open_page json left) in
      let again = open_page-act_all json sound filled left actions in
      let out = open_page-act_all json sound filled left (actions ++ log_out ∷ []) in
      let appended = act_all-append json actions (log_out ∷ []) (open_page json left) in
      rw (api_fetch-browser json options resp b) (elim (Bool-cases (is_expired options resp)) [
        | inl y ↦ rw y (refl, refl, rw appended at out)
        | inr n ↦ rw n (refl, refl, again)
      ])
