-- ===== src/Auth/Rotation.antt =====
-- Refresh tokens: `refresh` of services/auth/src/services/auth.ts takes the old one away.
use micro_blog.Base.{
  ◌≡◌, refl, sym, ap, ◌∙◌, inl, inr, ℕ, arith, String, Text, string_eq, text_eq, ◌==◌, ==_iff, Bool,
  true, false, not, ◌&&◌, ◌||◌, Option, none, some, List, [], ◌∷◌, find, find_sound, find-All, any,
  Bool-cases, final, done, thrown, gets,
}
use micro_blog.Frames.{
  Keeps, after_done, bind-step, bind-eq-thrown, gets_lem, return-eq-done, gets-eq-done,
  modify-eq-done,
}
use micro_blog.Sql.{delete}
use micro_blog.Sql.Laws.{any-append}
use micro_blog.Sql.Distinct.{Distinct}
use micro_blog.Shared.Errors.{unauthorized}
use micro_blog.Shared.Events.{Bus}
use micro_blog.Auth.Service.{
  Credential, RefreshToken, AuthDb, Primitives, token_clash, demand, insert_credential,
  new_credential, issue_token, new_token, is_valid_token, Renewal, refresh,
}
use micro_blog.Auth.Steps.{demand-eq-done}
use micro_blog.Auth.Subscribers.{update_credential, synced_of, on_user_updated, on_user_deleted}
use micro_blog.Auth.Requests.{Request, handle_all, IsStable, handle_all-kept}
use micro_blog.Auth.Invariant.{IsDrawn, IsDrawn-suc, issue_token-cases}
use micro_blog.Auth.Constraints.{empty, handle_all-IsWellFormed}

abbrev has_digest : String → RefreshToken → Bool
has_digest digest t = t.token == digest

-- No row has the digest, and it is an old one.
record IsGone (prim : Primitives) (digest : String) (s : AuthDb) : Type 0 where
  absent : any (has_digest digest) s.refresh_tokens ≡ false
  old : IsDrawn prim s.drawn digest

any-delete :
    (q p : RefreshToken → Bool) (ts : List RefreshToken)
    → any q ts ≡ false
    → any q (delete p ts) ≡ false
any-delete q p [] h = refl
any-delete q p (t ∷ ts) h = ground (arith, any-delete q p ts)

module _ (prim : Primitives) (digest : String)
    (injective : (j k : ℕ) → prim.hmac (prim.secret j) ≡ prim.hmac (prim.secret k) → j ≡ k) where
  fresh_digest : (n : ℕ) → IsDrawn prim n digest → (prim.hmac (prim.secret n) == digest) ≡ false
  fresh_digest n (k, lt, e) = elim (Bool-cases (prim.hmac (prim.secret n) == digest)) [
    | inl y ↦
        let same : k ≡ n =
          injective k n (e ∙ sym ((==_iff (prim.hmac (prim.secret n)) digest).0 y)) in
        absurd (omega (arith, same, lt))
    | inr y ↦ y
  ]

  issue_token-IsGone :
      (now : ℕ) (user_id : String) → Keeps (IsGone prim digest) (issue_token prim now user_id)
  issue_token-IsGone now user_id = record {
    at = λ s h. elim (issue_token-cases prim now user_id s) [
      | inl e ↦ rw e h
      | inr (e, u, c) ↦ rw e (record {
        absent =
            any-append (has_digest digest) s.refresh_tokens (new_token prim now user_id s.drawn)
              h.absent (fresh_digest s.drawn h.old);
        old = IsDrawn-suc prim s.drawn digest h.old;
      })
    ];
  }

  insert_credential-IsGone : (row : Credential) → Keeps (IsGone prim digest) (insert_credential row)
  unfolding insert_credential
  insert_credential-IsGone row = record {
    at = λ s h. ground (arith, h, IsDrawn-suc prim s.drawn digest h.old);
  }

  update_credential-IsGone :
      (id : String) (row : Option Credential)
      → Keeps (IsGone prim digest) (update_credential id row)
  unfolding update_credential
  update_credential-IsGone id none = record { at = λ s h. h }
  update_credential-IsGone id (some row) = record {
    at = λ s h.
        elim (Bool-cases (
          any (λ d. not (d.id == id) && (d.email == row.email || d.username == row.username))
            s.credentials)) [
              | inl e ↦ rw (e, update_credential, final) h
              | inr e ↦ rw (e, update_credential, final) (record { absent = h.absent; old = h.old })
            ];
  }

  on_user_updated-IsGone :
      (now : ℕ) (user_id : String) (username email : Option Text) (role : Option String)
      → Keeps (IsGone prim digest) (on_user_updated now user_id username email role)
  unfolding on_user_updated
  on_user_updated-IsGone now id u e r = record {
    at = λ s h.
        (update_credential-IsGone id
            (synced_of now u e r (find (λ c. c.id == id) s.credentials))).at
          s h;
  }

  IsGone-IsStable : IsStable prim (IsGone prim digest)
  unfolding on_user_deleted
  IsGone-IsStable = record {
    account = λ now u e p role n. insert_credential-IsGone (new_credential prim now u e p role n);
    session = issue_token-IsGone;
    password =
        λ now id new s h. record { absent = h.absent; old = IsDrawn-suc prim s.drawn digest h.old };
    ended = λ p s h. record { absent = any-delete _ p s.refresh_tokens h.absent; old = h.old };
    admin = λ now id s h. record { absent = h.absent; old = h.old };
    synced = on_user_updated-IsGone;
    removed = λ id s h. record { absent = any-delete _ _ s.refresh_tokens h.absent; old = h.old };
    bus = λ b s h. record { absent = h.absent; old = h.old };
  }

-- At most one row has a digest.
any-clash_of_digest :
    (t : RefreshToken) (ts : List RefreshToken)
    → any (token_clash t) ts ≡ false
    → any (has_digest t.token) ts ≡ false
any-clash_of_digest t [] h = refl
any-clash_of_digest t (u ∷ ts) h =
    ground (arith, any-clash_of_digest t ts, ==_iff t.token u.token, ==_iff u.token t.token)

no_clash-find :
    (p : RefreshToken → Bool) (x : RefreshToken) (ts : List RefreshToken) {t : RefreshToken}
    → any (token_clash x) ts ≡ false
    → find p ts ≡ some t
    → (x.token == t.token) ≡ false
no_clash-find p x [] h e = cc
no_clash-find p x (y ∷ ts) {t} h e = ground (arith, no_clash-find p x ts {t = t})

others-absent :
    (p : RefreshToken → Bool) (ts : List RefreshToken) {t : RefreshToken}
    → Distinct token_clash ts
    → find p ts ≡ some t
    → any (has_digest t.token) (delete (λ u. u.id == t.id) ts) ≡ false
others-absent p [] d e = cc
others-absent p (x ∷ ts) {t} (c, d) e = elim (Bool-cases (p x)) [
  | inl y ↦
      let same : x ≡ t = cc (rw y at e) in
      let named : (x.id == t.id) ≡ true =
        (==_iff x.id t.id).1 (ap (λ (u : RefreshToken). u.id) same) in
      let rest : any (has_digest x.token) (delete (λ u. u.id == x.id) ts) ≡ false =
        any-delete _ _ ts (any-clash_of_digest x ts c) in
      rw named (rw same at rest)
  | inr n ↦ ground (arith, no_clash-find p x ts {t = t} c, others-absent p ts {t = t} d)
]

module _ (prim : Primitives) (now : ℕ) (raw : String) where
  -- What a successful run has found and done.
  refresh-eq-done :
      (s : AuthDb) {v : Renewal} {t : AuthDb}
      → refresh prim now raw s ≡ done v t
      → (row : RefreshToken) × (user_id : String) × (find
            (is_valid_token prim now raw)
            s.refresh_tokens
          ≡ some row)
        × (t
            ≡ final (
                issue_token prim now user_id
                  (record s { refresh_tokens = delete (λ u. u.id == row.id) s.refresh_tokens })))
  unfolding refresh
  refresh-eq-done s {v} {t} h = after_done (gets _) _ h λ found s1 e1 h1.
      after_done _ _ h1 λ row s2 e2 h2. after_done _ _ h2 λ user s3 e3 h3.
        after_done _ _ h3 λ c s4 e4 h4. after_done _ _ h4 λ _ s5 e5 h5.
          after_done _ _ h5 λ tok s6 e6 h6.
            let (f1, q1) = gets-eq-done _ s s1 e1 in
            let (f2, _, q2) = demand-eq-done found _ _ s1 s2 e2 in
            let (_, q3) = gets-eq-done _ s2 s3 e3 in
            let (_, _, q4) = demand-eq-done user _ _ s3 s4 e4 in
            let q5 = modify-eq-done _ s4 s5 e5 in
            let (_, q6) = return-eq-done _ s6 t h6 in
            let same : s4 ≡ s = sym (q1 ∙ q2 ∙ q3 ∙ q4) in
            let left : s5
                ≡ record s { refresh_tokens = delete (λ u. u.id == row.id) s.refresh_tokens } =
              sym (rw same at q5) in
            (
              row,
              c.id,
              f1 ∙ f2,
              sym q6 ∙ ap final (sym e6) ∙ ap (λ u. final (issue_token prim now c.id u)) left,
            )

  refresh-unauthorized :
      (s : AuthDb)
      → any (has_digest (prim.hmac raw)) s.refresh_tokens ≡ false
      → refresh prim now raw s ≡ thrown (unauthorized "Invalid or expired refresh token") s
  unfolding refresh demand
  refresh-unauthorized s h =
      let none_found : find (is_valid_token prim now raw) s.refresh_tokens ≡ none =
        not_found_of s.refresh_tokens h in
      bind-step _ _ s (gets_lem _ s)
      ∙ bind-eq-thrown _ _ s (
          ap (λ f. demand f (λ t. true) (unauthorized "Invalid or expired refresh token") s)
            none_found)
    where
      not_found_of :
          (ts : List RefreshToken)
          → any (has_digest (prim.hmac raw)) ts ≡ false
          → find (is_valid_token prim now raw) ts ≡ none
      not_found_of [] h = refl
      not_found_of (t ∷ ts) h = ground (arith, not_found_of ts)

-- A refresh token is good for one renewal: once it has been renewed in a state that the service reaches, it
-- is refused as invalid after whatever the service does next, when no two refresh tokens that the service
-- draws have the same digest.
pub refresh_again :
    (prim : Primitives) (b : Bus) (earlier later : List Request) (now now' : ℕ) (raw : String)
    {v : Renewal} {t : AuthDb}
    → ((j k : ℕ) → prim.hmac (prim.secret j) ≡ prim.hmac (prim.secret k) → j ≡ k)
    → refresh prim now raw (handle_all prim earlier (empty b)) ≡ done v t
    → refresh prim now' raw (handle_all prim later t)
      ≡ thrown (unauthorized "Invalid or expired refresh token") (handle_all prim later t)
refresh_again prim b earlier later now now' raw {v} {t} injective h =
    let before = handle_all prim earlier (empty b) in
    let well = handle_all-IsWellFormed prim b earlier in
    let (row, user_id, found, e) = refresh-eq-done prim now raw before h in
    let digest : row.token ≡ prim.hmac raw = ground (
      arith,
      find_sound (is_valid_token prim now raw) before.refresh_tokens {x = row},
      ==_iff row.token (prim.hmac raw),
    ) in
    let gone : IsGone prim row.token
        (record before { refresh_tokens = delete (λ u. u.id == row.id) before.refresh_tokens }) =
      record {
        absent = others-absent _ before.refresh_tokens well.sessions found;
        old = let (k, lt, i, d) = find-All _ _ before.refresh_tokens well.known found in (k, lt, d);
      } in
    let after = (issue_token-IsGone prim row.token injective now user_id).at _ gone in
    let last : IsGone prim row.token (handle_all prim later t) =
      handle_all-kept prim _ (IsGone-IsStable prim row.token injective) later t
        (rw (sym e) at after) in
    refresh-unauthorized prim now' raw (handle_all prim later t) (rw digest at last.absent)
