-- ===== src/Accounts/Registration.antt =====
-- The message of a registration, and the profile that it makes.
use micro_blog.Base.{
  ◌≡◌, refl, sym, ap, ◌∙◌, inl, inr, ℕ, ◌+◌, Text, string_eq, text_eq, ◌==◌, Bool, true, false, not,
  ◌||◌, List, [], ◌∷◌, ◌++◌, arith, any, Bool-cases, final, done, thrown, other_error, return,
}
use micro_blog.Frames.{bind-step, bind-eq-thrown, gets_lem, require_ok, require_not}
use micro_blog.Shared.Events.{
  Event, user_created, user_updated, user_deleted, post_created, post_updated, post_published,
  post_deleted, comment_created, comment_deleted, logged, send_up,
}
use micro_blog.Auth.Service.{
  Credential, AuthDb, Primitives, Account, account_of, credential_clash, insert_credential,
  new_credential, created, publish, register,
}
use micro_blog.User.Service.{User, UserDb, user_clash, profile, insert_unless, on_user_created}
use micro_blog.Accounts.{account, profiles, logins, user_receives, user_receives_all, sent}
use micro_blog.Accounts.Tables.{any-map, map-append, sent_one, sent_none}

-- A credential is added and announced, or nothing happens.
pub data IsRegistration (s : AuthDb) : AuthDb → Type 0 where
  refused : IsRegistration s s
  made :
      (row : Credential)
      → any (credential_clash row) s.credentials ≡ false
      → (row.role == "") ≡ false
      → IsRegistration s (record s {
        credentials = s.credentials ++ row ∷ [];
        bus = logged (user_created row.id row.username row.email row.role) s.bus;
        drawn = s.drawn + 1;
      })

insert_credential-clash :
    (row : Credential) (s : AuthDb)
    → any (credential_clash row) s.credentials ≡ true
    → insert_credential row s ≡ thrown other_error s
unfolding insert_credential
insert_credential-clash row s h = rw (h, insert_credential) refl

insert_credential-fits :
    (row : Credential) (s : AuthDb)
    → any (credential_clash row) s.credentials ≡ false
    → insert_credential row s
      ≡ done row (record s { credentials = s.credentials ++ row ∷ []; drawn = s.drawn + 1 })
unfolding insert_credential
insert_credential-fits row s h = rw (h, insert_credential) refl

publish_up :
    (e : Event) (s : AuthDb)
    → s.bus.up ≡ true
    → publish e s ≡ done tt (record s { bus = logged e s.bus })
unfolding publish
publish_up e s h = send_up (λ s. s.bus) (λ b s. record s { bus = b }) e s h

pub register-IsRegistration :
    (prim : Primitives) (now : ℕ) (username email password : Text) (s : AuthDb)
    → s.bus.up ≡ true
    → IsRegistration s (final (register prim now username email password s))
unfolding register return
register-IsRegistration prim now u e p s up =
    let row = new_credential prim now u e p "user" s.drawn in
    elim (Bool-cases (any (λ c. c.email == e || c.username == u) s.credentials)) [
      | inl t ↦
          rw (bind-step _ _ s (gets_lem _ s), bind-eq-thrown _ _ s (require_not _ _ s (ap not t)))
            refused
      | inr free ↦ elim (Bool-cases (any (credential_clash row) s.credentials)) [
        | inl c ↦
            rw
              (
                bind-step _ _ s (gets_lem _ s),
                bind-step _ _ s (require_ok _ _ s (ap not free)),
                bind-step _ _ s (gets_lem (λ (s : AuthDb). s.drawn) s),
                bind-eq-thrown _ _ s (insert_credential-clash row s c),
              )
              refused
        | inr c ↦
            let next : AuthDb = record s {
              credentials = s.credentials ++ row ∷ [];
              drawn = s.drawn + 1;
            } in
            rw
              (
                bind-step _ _ s (gets_lem _ s),
                bind-step _ _ s (require_ok _ _ s (ap not free)),
                bind-step _ _ s (gets_lem (λ (s : AuthDb). s.drawn) s),
                bind-step _ _ s (insert_credential-fits row s c),
                bind-step _ _ next (publish_up (created prim now row) next up),
              )
              (made row c refl)
      ]
    ]

abbrev account_clash : Account → Account → Bool
account_clash x y = x.id == y.id || x.email == y.email || x.username == y.username

any-swap :
    (x : Account) (ys : List Account)
    → any (λ y. x.id == y.id || x.username == y.username || x.email == y.email) ys
      ≡ any (account_clash x) ys
any-swap x [] = refl
any-swap x (y ∷ ys) = ground (arith, any-swap x ys)

insert_unless-fits :
    (row : User) (s : UserDb)
    → any (user_clash row) s.users ≡ false
    → insert_unless row s ≡ record s { users = s.users ++ row ∷ [] }
unfolding insert_unless
insert_unless-fits row s h = rw (h, insert_unless) refl

pub IsRegistration-agrees :
    (now : ℕ) (a a' : AuthDb) (u : UserDb)
    → profiles u ≡ logins a
    → IsRegistration a a'
    → profiles (user_receives_all now (sent a.bus a'.bus) u) ≡ logins a'
unfolding user_receives on_user_created
IsRegistration-agrees now a a' u agree refused = rw (sent_none a.bus) agree
IsRegistration-agrees now a a' u agree (made row free named) =
    let new = profile now row.id row.username row.email row.role in
    let same : account new ≡ account_of row = rw named refl in
    let fits : any (user_clash new) u.users ≡ false =
      any-map account (λ y. row.id == y.id || row.username == y.username || row.email == y.email)
        u.users
      ∙ any-swap (account_of row) (profiles u)
      ∙ ap (λ l. any (account_clash (account_of row)) l) agree
      ∙ sym (any-map account_of (account_clash (account_of row)) a.credentials)
      ∙ free in
    rw (sent_one a.bus (user_created row.id row.username row.email row.role)) (
      ap profiles (insert_unless-fits new u fits)
      ∙ map-append account u.users (new ∷ [])
      ∙ rw (agree, same) (sym (map-append account_of a.credentials (row ∷ []))))

pub IsRegistration-up : (s t : AuthDb) → IsRegistration s t → t.bus.up ≡ s.bus.up
IsRegistration-up s t refused = refl
IsRegistration-up s t (made _ _ _) = refl

-- What is received does not change the bus.
insert_unless-bus : (row : User) (s : UserDb) → (insert_unless row s).bus ≡ s.bus
unfolding insert_unless
insert_unless-bus row s = ground arith

user_receives-bus : (now : ℕ) (e : Event) (s : UserDb) → (user_receives now e s).bus ≡ s.bus
unfolding user_receives on_user_created
user_receives-bus now (user_updated _ _ _ _ _) s = refl
user_receives-bus now (user_deleted _) s = refl
user_receives-bus now (user_created id u e r) s = insert_unless-bus (profile now id u e r) s
user_receives-bus now (post_created _ _ _ _ _ _ _) s = refl
user_receives-bus now (post_updated _ _ _ _ _ _) s = refl
user_receives-bus now (post_published _ _ _ _) s = refl
user_receives-bus now (post_deleted _) s = refl
user_receives-bus now (comment_created _ _ _ _ _) s = refl
user_receives-bus now (comment_deleted _ _) s = refl

pub user_receives_all-bus :
    (now : ℕ) (es : List Event) (s : UserDb) → (user_receives_all now es s).bus ≡ s.bus
user_receives_all-bus now [] s = refl
user_receives_all-bus now (e ∷ es) s =
    user_receives_all-bus now es (user_receives now e s) ∙ user_receives-bus now e s
