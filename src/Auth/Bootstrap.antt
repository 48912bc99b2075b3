-- ===== src/Auth/Bootstrap.antt =====
-- `bootstrapAdmin` of services/auth/src/services/auth.ts.
use micro_blog.Base.{
  ◌≡◌, refl, sym, ap, ◌∙◌, subst, inl, inr, ℕ, String, Text, string_eq, text_eq, ◌==◌, ==_iff, true,
  false, ◌||◌, Option, none, some, [], ◌∷◌, ◌++◌, find, find_sound, Bool-cases, done, gets,
}
use micro_blog.Frames.{after_done, gets-eq-done, modify-eq-done, return-eq-done}
use micro_blog.Sql.Laws.{find-append, find-append_some, find-update}
use micro_blog.Sql.Distinct.{Distinct}
use micro_blog.Auth.Service.{
  Credential, AuthDb, Primitives, credential_clash, with_admin, new_credential, create_admin,
  promote_admin, seed_admin, bootstrap_admin,
}
use micro_blog.Auth.Steps.{insert_credential-eq-done, publish-eq-done}
use micro_blog.Auth.Passwords.{credential_of}
use micro_blog.Auth.Sessions.{find_by_id}

abbrev pub of_email : Text → AuthDb → Option Credential
of_email email s = find (λ c. c.email == email) s.credentials

-- What the start of the service has done for the administrator with the address: the credential is there
-- with the role, the credentials with another address are as they were, no session is lost, and a
-- credential that was there before is promoted without a message.
pub record IsSeeded (email : Text) (s t : AuthDb) : Type 0 where
  pub admin : (c : Credential) × (of_email email t ≡ some c) × (c.role ≡ "admin")
  pub others :
      (id : String) (d : Credential)
      → credential_of id s ≡ some d
      → (d.email == email) ≡ false
      → credential_of id t ≡ some d
  pub sessions : t.refresh_tokens ≡ s.refresh_tokens
  pub silent : (c : Credential) → of_email email s ≡ some c → t.bus ≡ s.bus

module _ (prim : Primitives) (now : ℕ) (username email password : Text) where
  create_admin-IsSeeded :
      (s : AuthDb) {t : AuthDb}
      → of_email email s ≡ none
      → create_admin prim now username email password s ≡ done tt t
      → IsSeeded email s t
  unfolding create_admin
  create_admin-IsSeeded s {t} nobody h = after_done (gets _) _ h λ n s1 e1 h1.
      after_done _ _ h1 λ c s2 e2 h2.
        let (_, q1) = gets-eq-done _ s s1 e1 in
        let (_, q2) = insert_credential-eq-done _ s1 s2 e2 in
        let q3 = publish-eq-done _ s2 t h2 in
        let row = new_credential prim now username email password "admin" n in
        let rows : s.credentials ++ row ∷ [] ≡ t.credentials =
          ap (λ (u : AuthDb). u.credentials ++ row ∷ []) q1
          ∙ ap (λ (u : AuthDb). u.credentials) q2
          ∙ ap (λ (u : AuthDb). u.credentials) q3 in
        let tokens : s.refresh_tokens ≡ t.refresh_tokens =
          ap (λ (u : AuthDb). u.refresh_tokens) q1
          ∙ ap (λ (u : AuthDb). u.refresh_tokens) q2
          ∙ ap (λ (u : AuthDb). u.refresh_tokens) q3 in
        record {
          admin = (
            row,
            rw rows at (
                find-append (λ (d : Credential). d.email == email) s.credentials row nobody
                  ((==_iff email email).1 refl)),
            refl,
          );
          others = λ id d found _.
              rw rows at
                (find-append_some (λ (c : Credential). c.id == id) s.credentials row found);
          sessions = sym tokens;
          silent = λ c found. cc (nobody, found);
        }

  promoted-IsSeeded :
      (s : AuthDb) (c : Credential)
      → Distinct credential_clash s.credentials
      → of_email email s ≡ some c
      → IsSeeded email s (with_admin prim now c.id s)
  promoted-IsSeeded s c distinct found =
      let put : Credential → Credential = λ c. record c { role = "admin"; updated_at = now } in
      record {
        admin = (
          put c,
          find-update (λ (d : Credential). d.id == c.id) (λ d. d.email == email) put s.credentials
                (λ d. refl)
              ∙ rw (found, (==_iff c.id c.id).1 refl) refl,
          refl,
        );
        others = λ id d there other.
            let named : d.id ≡ id =
              (==_iff d.id id).0
                (find_sound (λ (c : Credential). c.id == id) s.credentials there) in
            let apart : (d.id == c.id) ≡ false = elim (Bool-cases (d.id == c.id)) [
              | inl y ↦
                  let key : c.id ≡ id = sym ((==_iff d.id c.id).0 y) ∙ named in
                  let mine : credential_of id s ≡ some c =
                    ap (λ i. credential_of i s) (sym key)
                    ∙ find_by_id _ s.credentials distinct found in
                  let same : d ≡ c = cc (sym there ∙ mine) in
                  let mailed : (d.email == email) ≡ true =
                    ap (λ (u : Credential). u.email == email) same
                    ∙ find_sound (λ (c : Credential). c.email == email) s.credentials found in
                  cc (other, mailed)
              | inr n ↦ n
            ] in
            find-update (λ (d : Credential). d.id == c.id) (λ d. d.id == id) put s.credentials
              (λ d. refl)
            ∙ rw (there, apart) refl;
        sessions = refl;
        silent = λ d h. refl;
      }

  the_admin :
      (s : AuthDb) (c : Credential)
      → of_email email s ≡ some c
      → (c.role == "admin") ≡ true
      → IsSeeded email s s
  the_admin s c found y = record {
    admin = (c, found, (==_iff c.role "admin").0 y);
    others = λ id d there _. there;
    sessions = refl;
    silent = λ d h. refl;
  }

  -- A start of the auth service that succeeds, with an address and a password set, leaves an administrator with
  -- that address and every other credential and every session as they were; a credential that was there
  -- before is promoted without a message.
  pub bootstrap_admin-IsSeeded :
      (s : AuthDb) {t : AuthDb}
      → Distinct credential_clash s.credentials
      → (email == [] || password == []) ≡ false
      → bootstrap_admin prim now username email password s ≡ done tt t
      → IsSeeded email s t
  unfolding bootstrap_admin
  bootstrap_admin-IsSeeded s {t} distinct set h =
      after_done (gets _) _ (rw set at h) λ found s1 e1 h1.
        let (f1, q1) = gets-eq-done _ s s1 e1 in
        seeded found f1 (ap (seed_admin prim now username email password found) q1 ∙ h1)
    where
      seeded :
          (found : Option Credential)
          → of_email email s ≡ found
          → seed_admin prim now username email password found s ≡ done tt t
          → IsSeeded email s t
      seeded none f h = create_admin-IsSeeded s f h
      seeded (some c) f h = elim (Bool-cases (c.role == "admin")) [
        | inl y ↦
            let same : s ≡ t = (return-eq-done _ s t (rw (y, promote_admin) at h)).1 in
            subst (λ u. IsSeeded email s u) same (the_admin s c f y)
        | inr n ↦
            let same = modify-eq-done _ s t (rw (n, promote_admin) at h) in
            rw same at (promoted-IsSeeded s c distinct f)
      ]
