-- ===== src/Frontend/Session.antt =====
-- services/frontend/src/context/AuthContext.tsx and components/layout/RequireAuth.tsx: who is logged in, and
-- what of it outlives the page.
use micro_blog.Base.{
  ◌≡◌, refl, ap, ◌∙◌, inl, inr, String, Text, text_eq, ◌==◌, Bool, true, false, ◌&&◌, Option, none,
  some, List, [], ◌∷◌, any, is_some, Bool-cases, if◌then◌else◌,
}

pub record User : Type 0 where
  pub id : Text
  pub username : Text
  pub email : Text
  pub role : Text
  pub bio : Option Text
  pub created_at : Text

pub record AuthState : Type 0 where
  pub user : Option User
  pub token : Option Text

abbrev pub logged_out : AuthState
logged_out = record { user = none; token = none }

-- The entry `blog_auth` of `localStorage` and of `sessionStorage`, and the state of the provider.
pub record Browser : Type 0 where
  pub local : Option Text
  pub session : Option Text
  pub state : AuthState

-- Absent and empty are both falsy.
abbrev pub is_given : Option Text → Bool
is_given none = false
is_given (some []) = false
is_given (some (c ∷ s)) = true

-- `JSON.stringify` of a token and a user, and `JSON.parse`, which is `none` where it throws.
pub record Json : Type 0 where
  pub stringify : Text → User → Text
  pub parse : Text → Option AuthState

-- The first lines of `loadSaved`.
abbrev pub migrate : Browser → Browser
migrate b = if is_given b.local then record b { session = b.local; local = none } else b

-- `guard` of the first effect and of `RequireAuth`
abbrev pub is_logged_in : AuthState → Bool
is_logged_in s = is_given s.token && is_some s.user

-- The state that counts as logged in, and otherwise that of nobody.
abbrev pub settled : AuthState → AuthState
settled s = if is_logged_in s then s else logged_out

-- What changes the state: `login` and `setAuth`, `logout` and the event `auth:expired`, `updateUser`, and
-- a reload of the page. `register` changes nothing.
pub data Action : Type 0 where
  set_auth : (token : Text) (user : User) → Action
  log_out : Action
  update_user : (user : User) → Action
  reload : Action

module _ (json : Json) where
  abbrev pub from_saved : Browser → Option AuthState → Browser
  from_saved b none = record b { session = none; state = logged_out }
  from_saved b (some s) = record b { state = s }

  -- The rest of `loadSaved`.
  abbrev pub restore : Browser → Option Text → Browser
  restore b none = record b { state = logged_out }
  restore b (some []) = record b { state = logged_out }
  restore b (some (c ∷ s)) = from_saved b (json.parse (c ∷ s))

  abbrev pub load_saved : Browser → Browser
  load_saved b = restore (migrate b) (migrate b).session

  -- What the first effect writes.
  abbrev pub entry : AuthState → Option Text
  entry s = elim s.user [
    | none ↦ none
    | some user ↦ elim s.token [
      | none ↦ none
      | some token ↦ if is_given (some token) then some (json.stringify token user) else none
    ]
  ]

  abbrev pub persist : Browser → Browser
  persist b = record b { session = entry b.state }

  unfoldable pub act : Action → Browser → Browser
  act (set_auth token user) b =
      persist (record b { state = record { user = some user; token = some token } })
  act log_out b = persist (record b { state = logged_out })
  act (update_user user) b =
      persist (record b { state = record { user = some user; token = b.state.token } })
  act reload b = persist (load_saved b)

  unfoldable pub act_all : List Action → Browser → Browser
  unfolding act
  act_all [] b = b
  act_all (a ∷ rest) b = act_all rest (act a b)

  -- A page that opens on what an earlier one has left.
  unfoldable pub open_page : Browser → Browser
  open_page b = persist (load_saved b)

  -- The legacy entry is gone, and the session's entry tells of the state.
  record IsSaved (b : Browser) : Type 0 where
    migrated : is_given b.local ≡ false
    saved : b.session ≡ entry b.state

  migrate-local : (b : Browser) → is_given (migrate b).local ≡ false
  migrate-local b = elim (Bool-cases (is_given b.local)) [ inl y ↦ rw y refl | inr n ↦ rw n n ]

  restore-local : (b : Browser) (o : Option Text) → (restore b o).local ≡ b.local
  restore-local b none = refl
  restore-local b (some []) = refl
  restore-local b (some (c ∷ s)) = from_saved-local (json.parse (c ∷ s))
    where
      from_saved-local : (o : Option AuthState) → (from_saved b o).local ≡ b.local
      from_saved-local none = refl
      from_saved-local (some s) = refl

  load_saved-local : (b : Browser) → is_given (load_saved b).local ≡ false
  load_saved-local b = ap is_given (restore-local (migrate b) (migrate b).session) ∙ migrate-local b

  act-IsSaved : (a : Action) (b : Browser) → IsSaved b → IsSaved (act a b)
  unfolding act
  act-IsSaved (set_auth token user) b h = record { migrated = h.migrated; saved = refl }
  act-IsSaved log_out b h = record { migrated = h.migrated; saved = refl }
  act-IsSaved (update_user user) b h = record { migrated = h.migrated; saved = refl }
  act-IsSaved reload b h = record { migrated = load_saved-local b; saved = refl }

  act_all-IsSaved : (actions : List Action) (b : Browser) → IsSaved b → IsSaved (act_all actions b)
  unfolding act_all
  act_all-IsSaved [] b h = h
  act_all-IsSaved (a ∷ rest) b h = act_all-IsSaved rest (act a b) (act-IsSaved a b h)

  restore-some :
      (b : Browser) (t : Text) (x : AuthState)
      → is_given (some t) ≡ true
      → json.parse t ≡ some x
      → (restore b (some t)).state ≡ x
  restore-some b [] x g e = cc
  restore-some b (c ∷ t) x g e = rw e refl

  module _
      (sound : (token : Text) (user : User)
        → json.parse (json.stringify token user)
          ≡ some (record { user = some user; token = some token }))
      (filled : (token : Text) (user : User)
        → is_given (some (json.stringify token user)) ≡ true) where
    restore-entry :
        (b : Browser) (user : Option User) (token : Option Text)
        → (restore b (entry (record { user = user; token = token }))).state
          ≡ settled (record { user = user; token = token })
    restore-entry b none none = refl
    restore-entry b none (some []) = refl
    restore-entry b none (some (c ∷ t)) = refl
    restore-entry b (some u) none = refl
    restore-entry b (some u) (some []) = refl
    restore-entry b (some u) (some (c ∷ t)) =
        restore-some b (json.stringify (c ∷ t) u) _ (filled (c ∷ t) u) (sound (c ∷ t) u)

    load_saved-saved : (b : Browser) → IsSaved b → (load_saved b).state ≡ settled b.state
    load_saved-saved b h =
        rw (h.migrated, h.saved)
          (restore-entry (record b { session = entry b.state }) b.state.user b.state.token)

    -- Whatever an earlier page has left in the browser, and whatever happens after the page is opened: a
    -- page that is opened next is logged in as the same user with the same token exactly if this one has
    -- both, and otherwise as nobody, where `JSON.parse` gives back what `JSON.stringify` has written.
    pub open_page-act_all :
        (left : Browser) (actions : List Action)
        → (open_page (act_all actions (open_page left))).state
          ≡ settled (act_all actions (open_page left)).state
    unfolding open_page
    open_page-act_all left actions = load_saved-saved (act_all actions (open_page left)) (
        act_all-IsSaved actions (open_page left)
          (record { migrated = load_saved-local left; saved = refl }))

-- `RequireAuth`: where the page goes, or that its children are shown.
pub data Guarded : Type 0 where
  navigate : (to : String) → Guarded
  children : Guarded

-- `!roles.includes(user.role)`, where roles are given
abbrev pub has_role : Option (List Text) → User → Bool
has_role none user = true
has_role (some roles) user = any (λ role. role == user.role) roles

abbrev admit : Option (List Text) → Option User → Guarded
admit roles none = navigate "/login"
admit roles (some user) = if has_role roles user then children else navigate "/"

unfoldable pub require_auth : Option (List Text) → AuthState → Guarded
require_auth roles s = if is_given s.token then admit roles s.user else navigate "/login"
