-- ===== src/Auth/Requests.antt =====
-- What the auth service does in one go, and how a property of its state is shown to be kept by all of it.
use micro_blog.Base.{
  inl, inr, ℕ, String, Text, string_eq, text_eq, ◌==◌, Bool, Option, none, some, List, [], ◌∷◌,
  Bool-cases, final, Failure,
}
use micro_blog.Frames.{
  Keeps, Keeps-either, Keeps-bind, Keeps-return, Keeps-require, Keeps-gets, Keeps-modify,
}
use micro_blog.Sql.{delete}
use micro_blog.Shared.Events.{Event, Bus}
use micro_blog.Auth.Service.{
  Credential, RefreshToken, AuthDb, Primitives, publish, demand, insert_credential, new_credential,
  register, issue_token, login, refresh, with_password, change_password, with_admin, seed_admin,
  bootstrap_admin,
}
use micro_blog.Auth.Subscribers.{on_user_updated, on_user_deleted}

pub data Request : Type 0 where
  register_user : (now : ℕ) (username email password : Text) → Request
  log_in : (now : ℕ) (email password : Text) → Request
  renew : (now : ℕ) (raw : String) → Request
  set_password : (now : ℕ) (user_id : String) (old new : Text) → Request
  bootstrap : (now : ℕ) (username email password : Text) → Request
  user_updated :
      (now : ℕ) (user_id : String) (username email : Option Text) (role : Option String) → Request
  user_deleted : (user_id : String) → Request
  connection : (b : Bus) → Request

module _ (prim : Primitives) where
  unfoldable pub handle : Request → AuthDb → AuthDb
  handle (register_user now u e p) s = final (register prim now u e p s)
  handle (log_in now e p) s = final (login prim now e p s)
  handle (renew now raw) s = final (refresh prim now raw s)
  handle (set_password now id old new) s = final (change_password prim now id old new s)
  handle (bootstrap now u e p) s = final (bootstrap_admin prim now u e p s)
  handle (user_updated now id u e r) s = final (on_user_updated now id u e r s)
  handle (user_deleted id) s = on_user_deleted id s
  handle (connection b) s = record s { bus = b }

  unfoldable pub handle_all : List Request → AuthDb → AuthDb
  unfolding handle
  handle_all [] s = s
  handle_all (r ∷ rs) s = handle_all rs (handle r s)

  -- A property that every statement of the service keeps.
  pub record IsStable (P : AuthDb → Type 0) : Type 1 where
    pub account :
        (now : ℕ) (username email password : Text) (role : String) (n : ℕ)
        → Keeps P (insert_credential (new_credential prim now username email password role n))
    pub session : (now : ℕ) (user_id : String) → Keeps P (issue_token prim now user_id)
    pub password :
        (now : ℕ) (user_id : String) (new : Text) (s : AuthDb)
        → P s
        → P (with_password prim now user_id new s)
    pub ended :
        (p : RefreshToken → Bool) (s : AuthDb)
        → P s
        → P (record s { refresh_tokens = delete p s.refresh_tokens })
    pub admin : (now : ℕ) (id : String) (s : AuthDb) → P s → P (with_admin prim now id s)
    pub synced :
        (now : ℕ) (user_id : String) (username email : Option Text) (role : Option String)
        → Keeps P (on_user_updated now user_id username email role)
    pub removed : (user_id : String) (s : AuthDb) → P s → P (on_user_deleted user_id s)
    pub bus : (b : Bus) (s : AuthDb) → P s → P (record s { bus = b })

  module _ (P : AuthDb → Type 0) (stable : IsStable P) where
    publish-kept : (e : Event) → Keeps P (publish e)
    unfolding publish
    publish-kept e = record {
      at = λ s h. elim (Bool-cases s.bus.up) [
        | inl u ↦ rw (u, publish, final) (stable.bus _ s h)
        | inr u ↦ rw (u, publish, final) h
      ];
    }

    demand-kept :
        {A : Type 0} (a : Option A) (ok : A → Bool) (e : Failure) → Keeps P (demand a ok e)
    unfolding demand
    demand-kept none ok e = record { at = λ s h. h }
    demand-kept (some a) ok e = record {
      at = λ s h. elim (Bool-cases (ok a)) [ inl y ↦ rw (y, final) h | inr y ↦ rw (y, final) h ];
    }

    register-kept :
        (now : ℕ) (username email password : Text)
        → Keeps P (register prim now username email password)
    unfolding register
    register-kept now u e p = Keeps-bind _ _ (Keeps-gets _) λ taken.
        Keeps-bind _ _ (Keeps-require _ _) λ _. Keeps-bind _ _ (Keeps-gets _) λ n.
          Keeps-bind _ _ (stable.account now u e p "user" n)
            λ c. Keeps-bind _ _ (publish-kept _) λ _. Keeps-return _

    login-kept : (now : ℕ) (email password : Text) → Keeps P (login prim now email password)
    unfolding login
    login-kept now e p = Keeps-bind _ _ (Keeps-gets _) λ row.
        Keeps-bind _ _ (demand-kept row _ _) λ c.
          Keeps-bind _ _ (Keeps-require _ _)
            λ _. Keeps-bind _ _ (stable.session now c.id) λ t. Keeps-return _

    refresh-kept : (now : ℕ) (raw : String) → Keeps P (refresh prim now raw)
    unfolding refresh
    refresh-kept now raw = Keeps-bind _ _ (Keeps-gets _) λ found.
        Keeps-bind _ _ (demand-kept found _ _) λ row. Keeps-bind _ _ (Keeps-gets _) λ user.
          Keeps-bind _ _ (demand-kept user _ _) λ c.
            Keeps-bind _ _ (Keeps-modify _ (stable.ended (λ t. t.id == row.id)))
              λ _. Keeps-bind _ _ (stable.session now c.id) λ t. Keeps-return _

    change_password-kept :
        (now : ℕ) (user_id : String) (old new : Text)
        → Keeps P (change_password prim now user_id old new)
    unfolding change_password
    change_password-kept now id old new = Keeps-bind _ _ (Keeps-gets _) λ row.
        Keeps-bind _ _ (demand-kept row _ _) λ c. Keeps-bind _ _ (Keeps-require _ _) λ _.
          Keeps-bind _ _ (Keeps-modify _ (stable.password now id new))
            λ _. Keeps-modify _ (stable.ended (λ t. t.user_id == id))

    bootstrap_admin-kept :
        (now : ℕ) (username email password : Text)
        → Keeps P (bootstrap_admin prim now username email password)
    unfolding bootstrap_admin
    bootstrap_admin-kept now u e p =
        Keeps-either _ _ _ (Keeps-return _)
          (Keeps-bind _ _ (Keeps-gets _) λ existing. seeded existing)
      where
        seeded : (c : Option Credential) → Keeps P (seed_admin prim now u e p c)
        seeded none =
            Keeps-bind _ _ (Keeps-gets _)
              λ n. Keeps-bind _ _ (stable.account now u e p "admin" n) λ c. publish-kept _
        seeded (some c) =
            Keeps-either _ _ _ (Keeps-return _) (Keeps-modify _ (stable.admin now c.id))

    pub handle-kept : (r : Request) (s : AuthDb) → P s → P (handle r s)
    unfolding handle
    handle-kept (register_user now u e p) s h = (register-kept now u e p).at s h
    handle-kept (log_in now e p) s h = (login-kept now e p).at s h
    handle-kept (renew now raw) s h = (refresh-kept now raw).at s h
    handle-kept (set_password now id old new) s h = (change_password-kept now id old new).at s h
    handle-kept (bootstrap now u e p) s h = (bootstrap_admin-kept now u e p).at s h
    handle-kept (user_updated now id u e r) s h = (stable.synced now id u e r).at s h
    handle-kept (user_deleted id) s h = stable.removed id s h
    handle-kept (connection b) s h = stable.bus b s h

    pub handle_all-kept : (rs : List Request) (s : AuthDb) → P s → P (handle_all rs s)
    unfolding handle_all
    handle_all-kept [] s h = h
    handle_all-kept (r ∷ rs) s h = handle_all-kept rs _ (handle-kept r s h)
