-- ===== src/Auth/Passwords.antt =====
-- `changePassword` of services/auth/src/services/auth.ts.
use micro_blog.Base.{
  ◌≡◌, refl, sym, ap, ◌∙◌, inl, inr, ℕ, arith, String, Text, string_eq, text_eq, ◌==◌, ==_iff, Bool,
  true, false, Option, some, List, [], ◌∷◌, find, filter, Bool-cases, done, thrown, gets, final,
}
use micro_blog.Frames.{
  after_done, bind-step, bind-eq-thrown, gets_lem, require_not, require-eq-done, gets-eq-done,
  modify-eq-done,
}
use micro_blog.Sql.{update, delete}
use micro_blog.Shared.Errors.{unauthorized}
use micro_blog.Auth.Service.{
  Credential, RefreshToken, AuthDb, Primitives, Session, account_of, with_password,
  without_sessions, change_password, login,
}
use micro_blog.Auth.Steps.{demand_ok, demand-eq-done}
use micro_blog.Auth.Invariant.{IsWellFormed}
use micro_blog.Auth.Requests.{set_password, handle, handle-kept}
use micro_blog.Auth.Constraints.{IsWellFormed-IsStable}
use micro_blog.Auth.Sessions.{find_unique, login_ok}

abbrev pub credential_of : String → AuthDb → Option Credential
credential_of id s = find (λ c. c.id == id) s.credentials

abbrev pub sessions_of : String → AuthDb → List RefreshToken
sessions_of id s = filter (λ t. t.user_id == id) s.refresh_tokens

abbrev pub with_hash : (now : ℕ) → Text → Credential → Credential
with_hash now hash c = record c { password_hash = hash; updated_at = now }

-- What a change of the password has done: the user's new hash is stored, all the user's sessions are over,
-- and nothing of another user has changed.
pub record IsChanged (prim : Primitives) (now : ℕ) (id : String) (old new : Text) (s t : AuthDb)
    : Type 0 where
  pub account :
      (c : Credential) × (credential_of id s ≡ some c)
      × (prim.compare old c.password_hash ≡ true)
      × (credential_of id t ≡ some (with_hash now (prim.hash s.drawn new) c))
  pub over : sessions_of id t ≡ []
  pub others :
      (other : String)
      → (other == id) ≡ false
      → (credential_of other t ≡ credential_of other s)
        × (sessions_of other t ≡ sessions_of other s)

filter-delete_self :
    (p : RefreshToken → Bool) (ts : List RefreshToken) → filter p (delete p ts) ≡ []
filter-delete_self p [] = refl
filter-delete_self p (t ∷ ts) = elim (Bool-cases (p t)) [
  | inl y ↦ rw y (filter-delete_self p ts)
  | inr n ↦ rw (n, n) (filter-delete_self p ts)
]

filter-delete_other :
    (p q : RefreshToken → Bool) (ts : List RefreshToken)
    → ((t : RefreshToken) → q t ≡ true → p t ≡ false)
    → filter q (delete p ts) ≡ filter q ts
filter-delete_other p q [] h = refl
filter-delete_other p q (t ∷ ts) h = ground (arith, h t, filter-delete_other p q ts h)

find-update_other :
    (id other : String) (f : Credential → Credential) (cs : List Credential)
    → ((c : Credential) → (f c).id ≡ c.id)
    → (other == id) ≡ false
    → find (λ c. c.id == other) (update (λ c. c.id == id) f cs) ≡ find (λ c. c.id == other) cs
find-update_other id other f [] h n = refl
find-update_other id other f (c ∷ cs) h n = ground (
  arith,
  h c,
  ==_iff c.id id,
  ==_iff c.id other,
  ==_iff other id,
  ap (λ i. i == other) (h c),
  find-update_other id other f cs h n,
)

find-update_self :
    (id : String) (f : Credential → Credential) (cs : List Credential) {c : Credential}
    → ((c : Credential) → (f c).id ≡ c.id)
    → find (λ c. c.id == id) cs ≡ some c
    → find (λ c. c.id == id) (update (λ c. c.id == id) f cs) ≡ some (f c)
find-update_self id f [] h e = cc
find-update_self id f (d ∷ cs) {c} h e =
    ground (arith, ap (λ i. i == id) (h d), find-update_self id f cs {c = c} h)

module _ (prim : Primitives) (now : ℕ) (id : String) (old new : Text) where
  change_password-eq-done :
      (s : AuthDb) {t : AuthDb}
      → change_password prim now id old new s ≡ done tt t
      → (c : Credential) × (credential_of id s ≡ some c)
        × (prim.compare old c.password_hash ≡ true)
        × (without_sessions prim now id (with_password prim now id new s) ≡ t)
  unfolding change_password
  change_password-eq-done s {t} h = after_done (gets _) _ h λ row s1 e1 h1.
      after_done _ _ h1 λ c s2 e2 h2. after_done _ _ h2 λ _ s3 e3 h3.
        after_done _ _ h3 λ _ s4 e4 h4.
          let (f1, q1) = gets-eq-done _ s s1 e1 in
          let (f2, _, q2) = demand-eq-done row _ _ s1 s2 e2 in
          let (ok, q3) = require-eq-done _ _ s2 s3 e3 in
          let q4 = modify-eq-done _ s3 s4 e4 in
          let q5 = modify-eq-done _ s4 t h4 in
          (
            c,
            f1 ∙ f2,
            ok,
            ap (λ u. without_sessions prim now id (with_password prim now id new u)) (q1 ∙ q2 ∙ q3)
                ∙ ap (without_sessions prim now id) q4
                ∙ q5,
          )

  -- A change of the password that succeeds was asked for with the old password; it stores the hash of the new
  -- one, ends every session of the user, and changes no credential and no session of anybody else.
  pub change_password-IsChanged :
      (s : AuthDb) {t : AuthDb}
      → change_password prim now id old new s ≡ done tt t
      → IsChanged prim now id old new s t
  change_password-IsChanged s {t} h =
      let (c, found, ok, e) = change_password-eq-done s h in
      let changed : IsChanged prim now id old new s
          (without_sessions prim now id (with_password prim now id new s)) =
        record {
          account = (
            c,
            found,
            ok,
            find-update_self id (with_hash now (prim.hash s.drawn new)) s.credentials (λ c. refl)
                found,
          );
          over = filter-delete_self (λ t. t.user_id == id) s.refresh_tokens;
          others = λ other n. (
            find-update_other id other (with_hash now (prim.hash s.drawn new)) s.credentials
                (λ c. refl) n,
            filter-delete_other (λ t. t.user_id == id) (λ t. t.user_id == other) s.refresh_tokens
                (λ t y.
                  ground (arith, ==_iff t.user_id id, ==_iff t.user_id other, ==_iff other id)),
          );
        } in
      rw e at changed

-- The new password opens a session of the account, and a password that does not fit the new hash is refused
-- as invalid, after a change of the password of an active user in a well-formed state, where
-- identifiers and digests never repeat and a password fits its own hash.
pub login-change_password :
    (prim : Primitives) (now now' : ℕ) (id : String) (old new : Text) (s : AuthDb) (c : Credential)
    {t : AuthDb}
    → ((j k : ℕ) → prim.uuid j ≡ prim.uuid k → j ≡ k)
    → ((j k : ℕ) → prim.hmac (prim.secret j) ≡ prim.hmac (prim.secret k) → j ≡ k)
    → ((n : ℕ) (p : Text) → prim.compare p (prim.hash n p) ≡ true)
    → IsWellFormed prim s
    → credential_of id s ≡ some c
    → c.active ≡ true
    → change_password prim now id old new s ≡ done tt t
    → ((session : Session) × (t' : AuthDb) × (login prim now' c.email new t ≡ done session t')
        × (session.user ≡ account_of c))
      × ((p : Text)
          → prim.compare p (prim.hash s.drawn new) ≡ false
          → login prim now' c.email p t ≡ thrown (unauthorized "Invalid credentials") t)
unfolding login handle
login-change_password prim now now' id old new s c {t} fresh_id fresh_token compared well found
      active h =
    let changed = change_password-IsChanged prim now id old new s h in
    let (d, found', _, stored) = changed.account in
    let same : d ≡ c = cc (sym found' ∙ found) in
    let row = with_hash now (prim.hash s.drawn new) c in
    let here : credential_of id t ≡ some row = rw same at stored in
    let well' : IsWellFormed prim t =
      rw (ap final h) at
        (handle-kept prim _ (IsWellFormed-IsStable prim) (set_password now id old new) s well) in
    let mailed : find (λ d. d.email == c.email) t.credentials ≡ some row =
      find_unique _ _ t.credentials well'.accounts here ((==_iff c.email c.email).1 refl)
        (λ d y. ground arith) in
    (
      (
        _,
        _,
        login_ok prim fresh_id fresh_token now' c.email new t row well' mailed active
            (compared s.drawn new),
        refl,
      ),
      λ p wrong.
          bind-step _ _ t (gets_lem _ t)
          ∙ rw mailed (
              bind-step _ _ t (demand_ok row _ _ t active)
              ∙ bind-eq-thrown _ _ t (require_not _ _ t wrong)),
    )
