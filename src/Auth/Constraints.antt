-- ===== src/Auth/Constraints.antt =====
-- The constraints of the tables of the auth service, after each of its statements.
use micro_blog.Base.{
  ◌≡◌, refl, ap, ◌∙◌, inl, inr, ℕ, arith, String, Text, string_eq, text_eq, ◌==◌, ==_iff, Bool,
  true, false, not, ◌&&◌, ◌||◌, Option, some, List, [], ◌∷◌, find, find_sound, any, filter, All,
  All-imp, Bool-cases, Option-cases, final,
}
use micro_blog.Frames.{Keeps}
use micro_blog.Sql.{update, delete}
use micro_blog.Sql.Distinct.{Distinct-filter, Distinct-update}
use micro_blog.Sql.Replace.{Distinct-replace}
use micro_blog.Shared.Events.{Bus}
use micro_blog.Auth.Service.{
  Credential, RefreshToken, AuthDb, Primitives, credential_clash, token_clash, with_password,
  with_admin, new_credential,
}
use micro_blog.Auth.Subscribers.{synced, update_credential, on_user_updated, on_user_deleted}
use micro_blog.Auth.Requests.{Request, handle_all, IsStable, handle_all-kept}
use micro_blog.Auth.Invariant.{
  is_user, IsWellFormed, IsIssued-suc, credential_clash_comm, insert_credential-IsWellFormed,
  issue_token-IsWellFormed,
}

-- Which users there are.
any-update :
    (q p : Credential → Bool) (f : Credential → Credential) (cs : List Credential)
    → ((c : Credential) → p c ≡ true → q (f c) ≡ q c)
    → any q (update p f cs) ≡ any q cs
any-update q p f [] h = refl
any-update q p f (c ∷ cs) h = ground (arith, h c, any-update q p f cs h)

any-delete :
    (q p : Credential → Bool) (cs : List Credential)
    → ((c : Credential) → q c ≡ true → p c ≡ false)
    → any q cs ≡ true
    → any q (delete p cs) ≡ true
any-delete q p [] h k = cc
any-delete q p (c ∷ cs) h k = ground (arith, h c, any-delete q p cs h)

All-filter_imp :
    (P Q : RefreshToken → Type 0) (p : RefreshToken → Bool) (ts : List RefreshToken)
    → ((t : RefreshToken) → P t → p t ≡ true → Q t)
    → All P ts
    → All Q (filter p ts)
All-filter_imp P Q p [] h a = tt
All-filter_imp P Q p (t ∷ ts) h (x, a) = elim (Bool-cases (p t)) [
  | inl e ↦ rw e (h t x e, All-filter_imp P Q p ts h a)
  | inr e ↦ rw e (All-filter_imp P Q p ts h a)
]

owned-update :
    (p : Credential → Bool) (f : Credential → Credential) (cs : List Credential)
    (ts : List RefreshToken)
    → ((c : Credential) → p c ≡ true → (f c).id ≡ c.id)
    → All (λ t. any (is_user t.user_id) cs ≡ true) ts
    → All (λ t. any (is_user t.user_id) (update p f cs) ≡ true) ts
owned-update p f cs ts h a =
    All-imp _ _
      (λ t e. any-update (is_user t.user_id) p f cs (λ c k. ap (λ i. i == t.user_id) (h c k)) ∙ e)
      ts a

abbrev pub empty : Bus → AuthDb
empty b = record { credentials = []; refresh_tokens = []; bus = b; drawn = 0 }

module _ (prim : Primitives) where
  with_password-IsWellFormed :
      (now : ℕ) (user_id : String) (new : Text) (s : AuthDb)
      → IsWellFormed prim s
      → IsWellFormed prim (with_password prim now user_id new s)
  with_password-IsWellFormed now user_id new s h = record {
    accounts = Distinct-update credential_clash _ _ (λ c d. (refl, refl)) s.credentials h.accounts;
    sessions = h.sessions;
    owned = owned-update _ _ s.credentials s.refresh_tokens (λ c k. refl) h.owned;
    known = All-imp _ _ (IsIssued-suc prim s.drawn) s.refresh_tokens h.known;
  }

  with_admin-IsWellFormed :
      (now : ℕ) (id : String) (s : AuthDb)
      → IsWellFormed prim s
      → IsWellFormed prim (with_admin prim now id s)
  with_admin-IsWellFormed now id s h = record {
    accounts = Distinct-update credential_clash _ _ (λ c d. (refl, refl)) s.credentials h.accounts;
    sessions = h.sessions;
    owned = owned-update _ _ s.credentials s.refresh_tokens (λ c k. refl) h.owned;
    known = h.known;
  }

  pub ended-IsWellFormed :
      (p : RefreshToken → Bool) (s : AuthDb)
      → IsWellFormed prim s
      → IsWellFormed prim (record s { refresh_tokens = delete p s.refresh_tokens })
  ended-IsWellFormed p s h = record {
    accounts = h.accounts;
    sessions = Distinct-filter token_clash _ s.refresh_tokens h.sessions;
    owned = All-filter_imp _ _ _ s.refresh_tokens (λ t e _. e) h.owned;
    known = All-filter_imp _ _ _ s.refresh_tokens (λ t e _. e) h.known;
  }

  on_user_deleted-IsWellFormed :
      (user_id : String) (s : AuthDb)
      → IsWellFormed prim s
      → IsWellFormed prim (on_user_deleted user_id s)
  unfolding on_user_deleted
  on_user_deleted-IsWellFormed user_id s h = record {
    accounts = Distinct-filter credential_clash _ s.credentials h.accounts;
    sessions = Distinct-filter token_clash _ s.refresh_tokens h.sessions;
    owned =
        All-filter_imp _ _ _ s.refresh_tokens
          (λ t e k.
            any-delete (is_user t.user_id) _ s.credentials
              (λ c l.
                ground
                  (arith, ==_iff c.id t.user_id, ==_iff c.id user_id, ==_iff t.user_id user_id))
              e)
          h.owned;
    known = All-filter_imp _ _ _ s.refresh_tokens (λ t e _. e) h.known;
  }

  update_credential-IsWellFormed :
      (id : String) (row : Credential)
      → row.id ≡ id
      → Keeps (IsWellFormed prim) (update_credential id (some row))
  unfolding update_credential
  update_credential-IsWellFormed id row named = record {
    at = λ s h.
        let rival : Credential → Bool =
          λ d. not (d.id == id) && (d.email == row.email || d.username == row.username) in
        elim (Bool-cases (any rival s.credentials)) [
          | inl e ↦ rw (e, update_credential, final) h
          | inr e ↦
              rw (e, update_credential, final)
                (record {
                  accounts =
                      Distinct-replace (λ c. c.id == id) row credential_clash rival
                        (λ x y k l.
                          ground (arith, ==_iff x.id id, ==_iff y.id id, ==_iff x.id y.id))
                        (λ x k r. ground (
                          arith,
                          ==_iff x.id id,
                          credential_clash_comm x row,
                          ==_iff row.id x.id,
                          ==_iff row.username x.username,
                          ==_iff x.username row.username,
                          ==_iff row.email x.email,
                          ==_iff x.email row.email,
                        ))
                        s.credentials e h.accounts;
                  sessions = h.sessions;
                  owned =
                      owned-update (λ c. c.id == id) (λ c. row) s.credentials s.refresh_tokens
                        (λ c k. ground (arith, ==_iff c.id id)) h.owned;
                  known = h.known;
                })
        ];
  }

  on_user_updated-IsWellFormed :
      (now : ℕ) (user_id : String) (username email : Option Text) (role : Option String)
      → Keeps (IsWellFormed prim) (on_user_updated now user_id username email role)
  unfolding on_user_updated
  on_user_updated-IsWellFormed now id u e r = record {
    at = λ s h. elim (Option-cases (find (λ c. c.id == id) s.credentials)) [
      | inl n ↦ rw (n, on_user_updated, update_credential, final) h
      | inr (c, f) ↦
          rw (f, on_user_updated)
            ((update_credential-IsWellFormed id (synced now u e r c) (
                ground (
                  arith,
                  find_sound (λ (d : Credential). d.id == id) s.credentials {x = c},
                  ==_iff c.id id,
                ))).at
              s h)
    ];
  }

  pub IsWellFormed-IsStable : IsStable prim (IsWellFormed prim)
  IsWellFormed-IsStable = record {
    account = λ now u e p role n.
        insert_credential-IsWellFormed prim (new_credential prim now u e p role n);
    session = issue_token-IsWellFormed prim;
    password = with_password-IsWellFormed;
    ended = ended-IsWellFormed;
    admin = with_admin-IsWellFormed;
    synced = on_user_updated-IsWellFormed;
    removed = on_user_deleted-IsWellFormed;
    bus = λ b s h. record {
      accounts = h.accounts;
      sessions = h.sessions;
      owned = h.owned;
      known = h.known;
    };
  }

  -- In every state that the auth service reaches from empty tables, no two credentials have the same identifier,
  -- address or name, no two refresh tokens have the same identifier or digest, and each refresh token
  -- belongs to a user who has a credential.
  pub handle_all-IsWellFormed :
      (b : Bus) (rs : List Request) → IsWellFormed prim (handle_all prim rs (empty b))
  handle_all-IsWellFormed b rs =
      handle_all-kept prim (IsWellFormed prim) IsWellFormed-IsStable rs (empty b)
        (record { accounts = tt; sessions = tt; owned = tt; known = tt })
