-- ===== src/Accounts/Agreement.antt =====
-- The tables of the two services hold the same accounts.
use micro_blog.Base.{
  ◌≡◌, refl, sym, ap, ◌∙◌, ℕ, String, Text, string_eq, text_eq, ◌==◌, ==_iff, Bool, true, false,
  not, ◌&&◌, ◌||◌, Option, none, some, List, [], ◌∷◌, arith, find, find_sound, any, or_else, final,
  All,
}
use micro_blog.Sql.{update, delete}
use micro_blog.Shared.Events.{
  Event, Bus, user_updated, user_deleted, user_created, post_created, post_updated, post_published,
  post_deleted, comment_created, comment_deleted,
}
use micro_blog.Auth.Service.{Credential, AuthDb, Primitives, Account, account_of, register}
use micro_blog.Auth.Subscribers.{
  given, given_role, synced, update_credential, on_user_updated, on_user_deleted,
}
use micro_blog.User.Service.{User, UserDb}
use micro_blog.User.Reachable.{handle}
use micro_blog.Accounts.{
  account, profiles, logins, auth_receives, auth_receives_all, sent, System, Action,
  profile_request, registration, run, run_all,
}
use micro_blog.Accounts.Tables.{
  any-map, map-update, map-delete, find-map, find_of_map, sent_one, sent_none,
}
use micro_blog.Accounts.Steps.{IsStep, idle, rewritten, removed, IsParsed, handle-IsStep}
use micro_blog.Accounts.Registration.{
  register-IsRegistration, IsRegistration-agrees, IsRegistration-up, user_receives_all-bus,
}

abbrev has_id : String → Account → Bool
has_id id x = x.id == id

-- Another account has the name or the address.
abbrev is_rival : String → Account → Account → Bool
is_rival id row x = not (x.id == id) && (x.email == row.email || x.username == row.username)

any-flip :
    (id : String) (row : Account) (xs : List Account)
    → any (λ x. not (x.id == id) && (x.username == row.username || x.email == row.email)) xs
      ≡ any (is_rival id row) xs
any-flip id row [] = refl
any-flip id row (x ∷ xs) = ground (arith, any-flip id row xs)

account_ext :
    (x y : Account)
    → x.id ≡ y.id
    → x.username ≡ y.username
    → x.email ≡ y.email
    → x.role ≡ y.role
    → x ≡ y
account_ext x y a b c d = cc

-- What the auth service does with the message of a profile that has changed.
on_user_updated-logins :
    (now : ℕ) (id : String) (username email : Option Text) (role : Option String) (s : AuthDb)
    (old row : Account)
    → given username ≡ username
    → given email ≡ email
    → given_role role ≡ role
    → find (has_id id) (logins s) ≡ some old
    → any (is_rival id row) (logins s) ≡ false
    → row.id ≡ old.id
    → row.username ≡ or_else username old.username
    → row.email ≡ or_else email old.email
    → row.role ≡ or_else role old.role
    → logins (final (on_user_updated now id username email role s))
      ≡ update (has_id id) (λ _. row) (logins s)
unfolding on_user_updated update_credential
on_user_updated-logins now id un em ro s old row gu ge gr found free e1 e2 e3 e4 =
    let (c, there, same) = find_of_map account_of (has_id id) s.credentials found in
    let new = synced now un em ro c in
    let put : account_of new ≡ row =
      account_ext (account_of new) row (ap (λ (x : Account). x.id) same ∙ sym e1)
        (ap (λ o. or_else o c.username) gu
          ∙ ap (λ (x : Account). or_else un x.username) same
          ∙ sym e2)
        (ap (λ o. or_else o c.email) ge ∙ ap (λ (x : Account). or_else em x.email) same ∙ sym e3)
        (ap (λ o. or_else o c.role) gr ∙ ap (λ (x : Account). or_else ro x.role) same ∙ sym e4) in
    let fits : any (λ d. is_rival id (account_of new) (account_of d)) s.credentials ≡ false =
      any-map account_of (is_rival id (account_of new)) s.credentials ∙ rw put free in
    rw (there, fits) (map-update account_of (has_id id) new s.credentials ∙ rw put refl)

IsStep-up : (s t : UserDb) → IsStep s t → t.bus.up ≡ s.bus.up
IsStep-up s t idle = refl
IsStep-up s t (rewritten _ _ _ _ _ _ _ _ _ _ _ _ _ _ _ _) = refl
IsStep-up s t (removed _) = refl

IsStep-agrees :
    (now : ℕ) (u u' : UserDb) (a : AuthDb)
    → profiles u ≡ logins a
    → IsStep u u'
    → profiles u' ≡ logins (auth_receives_all now (sent u.bus u'.bus) a)
unfolding auth_receives on_user_deleted
IsStep-agrees now u u' a agree idle = rw (sent_none u.bus) agree
IsStep-agrees now u u' a agree (rewritten id old row un em bio ro found free gu ge gr e1 e2 e3 e4) =
    let named : old.id ≡ id =
      (==_iff old.id id).0 (find_sound (λ (v : User). v.id == id) u.users found) in
    let there : find (has_id old.id) (logins a) ≡ some (account old) =
      ap (λ i. find (has_id i) (logins a)) named
      ∙ ap (λ l. find (has_id id) l) (sym agree)
      ∙ find-map account (has_id id) u.users found in
    let fits : any (is_rival old.id (account row)) (logins a) ≡ false =
      ap (λ i. any (is_rival i (account row)) (logins a)) named
      ∙ ap (λ l. any (is_rival id (account row)) l) (sym agree)
      ∙ sym (any-flip id (account row) (profiles u))
      ∙ sym (
          any-map account
            (λ x. not (x.id == id) && (x.username == row.username || x.email == row.email)) u.users)
      ∙ free in
    rw (sent_one u.bus (user_updated old.id un em bio ro)) (
      sym (
        on_user_updated-logins now old.id un em ro a (account old) (account row) gu ge gr there fits
          e1 e2 e3 e4
        ∙ ap (λ i. update (has_id i) (λ _. account row) (logins a)) named
        ∙ ap (λ l. update (has_id id) (λ _. account row) l) (sym agree)
        ∙ sym (map-update account (has_id id) row u.users)))
IsStep-agrees now u u' a agree (removed id) = rw (sent_one u.bus (user_deleted id)) (
    map-delete account (has_id id) u.users
    ∙ ap (delete (has_id id)) agree
    ∙ sym (map-delete account_of (has_id id) a.credentials))

-- What is received does not change the bus.
update_credential-bus :
    (id : String) (row : Option Credential) (s : AuthDb)
    → (final (update_credential id row s)).bus ≡ s.bus
unfolding update_credential
update_credential-bus id none s = refl
update_credential-bus id (some row) s = ground arith

auth_receives-bus : (now : ℕ) (e : Event) (s : AuthDb) → (auth_receives now e s).bus ≡ s.bus
unfolding auth_receives on_user_updated on_user_deleted
auth_receives-bus now (user_updated id un em bio ro) s = update_credential-bus id _ s
auth_receives-bus now (user_deleted id) s = refl
auth_receives-bus now (user_created _ _ _ _) s = refl
auth_receives-bus now (post_created _ _ _ _ _ _ _) s = refl
auth_receives-bus now (post_updated _ _ _ _ _ _) s = refl
auth_receives-bus now (post_published _ _ _ _) s = refl
auth_receives-bus now (post_deleted _) s = refl
auth_receives-bus now (comment_created _ _ _ _ _) s = refl
auth_receives-bus now (comment_deleted _ _) s = refl

auth_receives_all-bus :
    (now : ℕ) (es : List Event) (s : AuthDb) → (auth_receives_all now es s).bus ≡ s.bus
auth_receives_all-bus now [] s = refl
auth_receives_all-bus now (e ∷ es) s =
    auth_receives_all-bus now es (auth_receives now e s) ∙ auth_receives-bus now e s

-- The body of a request is what the schema lets through.
abbrev pub IsSound : Action → Type 0
IsSound (profile_request caller r) = IsParsed r
IsSound (registration username email password) = Unit

-- The two tables agree, and both services reach the bus.
pub record IsInStep (s : System) : Type 0 where
  pub agree : profiles s.users ≡ logins s.auth
  pub users_up : s.users.bus.up ≡ true
  pub auth_up : s.auth.bus.up ≡ true

run-IsInStep :
    (prim : Primitives) (now : ℕ) (a : Action) (s : System)
    → IsSound a
    → IsInStep s
    → IsInStep (run prim now a s)
unfolding run
run-IsInStep prim now (profile_request caller r) s ok h = record {
  agree = IsStep-agrees now s.users _ s.auth h.agree (handle-IsStep s.users h.users_up caller r ok);
  users_up = IsStep-up _ _ (handle-IsStep s.users h.users_up caller r ok) ∙ h.users_up;
  auth_up =
      ap (λ (b : Bus). b.up)
        (auth_receives_all-bus now (sent s.users.bus (handle caller r s.users).bus) s.auth)
      ∙ h.auth_up;
}
run-IsInStep prim now (registration u e p) s ok h = record {
  agree =
      IsRegistration-agrees now s.auth _ s.users h.agree
        (register-IsRegistration prim now u e p s.auth h.auth_up);
  users_up =
      ap (λ (b : Bus). b.up)
        (user_receives_all-bus now (sent s.auth.bus (final (register prim now u e p s.auth)).bus)
          s.users)
      ∙ h.users_up;
  auth_up =
      IsRegistration-up _ _ (register-IsRegistration prim now u e p s.auth h.auth_up) ∙ h.auth_up;
}

-- The user service and the auth service go on holding the same accounts, with the same names, addresses
-- and roles in the same order, when each request to one of them is followed by the delivery of its
-- messages to the other, both reach the bus, and no request has an empty name, address or role.
pub run_all-agrees :
    (prim : Primitives) (actions : List (ℕ × Action)) (s : System)
    → All (λ a. IsSound a.1) actions
    → IsInStep s
    → profiles (run_all prim actions s).users ≡ logins (run_all prim actions s).auth
run_all-agrees prim [] s ok h = h.agree
run_all-agrees prim (a ∷ rest) s (ok, oks) h =
    run_all-agrees prim rest (run prim a.0 a.1 s) oks (run-IsInStep prim a.0 a.1 s ok h)
