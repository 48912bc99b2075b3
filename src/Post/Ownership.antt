-- ===== src/Post/Ownership.antt =====
-- Whose requests change a post: the routes of services/post/src/routes/posts.ts.
use micro_blog.Base.{
  ◌≡◌, sym, ap, ◌∙◌, inl, inr, ℕ, String, Text, string_eq, text_eq, ◌==◌, ==_iff, Bool, true, false,
  not, ◌&&◌, ◌||◌, Option, none, some, arith, find, is_value, truthy, or_else, Bool-cases, final,
  thrown, Failure, Exec, return, ◌>>=◌,
}
use micro_blog.Frames.{Keeps, bind_kept, Keeps-return, bind-eq-thrown, Run-cases}
use micro_blog.Shared.Errors.{Reply, sent}
use micro_blog.Shared.Requests.{parsed}
use micro_blog.Post.Store.{Post, PostDb}
use micro_blog.Post.Service.{
  CreatePost, UpdatePost, PostView, may_write, found, create_post, authorized_post, update_post,
  delete_post,
}
use micro_blog.Post.Access.{authorized_post-eq-done}
use micro_blog.Post.Untouched.{On, authorized_post-On}
use micro_blog.Post.Routes.{Caller, post_route, put_route, delete_route}
use micro_blog.Post.Others.{Is, create_post-Is, update_post-other, delete_post-other}

-- A request that writes.
pub data Change : Type 0 where
  create : (now : ℕ) (body : Option CreatePost) → Change
  edit : (now : ℕ) (id : String) (body : Option UpdatePost) → Change
  remove : (id : String) → Change

module _ (uuid : ℕ → String) (unicode : ℕ → Text) where
  unfoldable pub change : Caller → Change → PostDb → PostDb
  change caller (create now body) s = final (post_route uuid unicode now caller body s)
  change caller (edit now id body) s = final (put_route uuid unicode now caller id body s)
  change caller (remove id) s = final (delete_route caller id s)

-- A caller who may not write, or is neither the author nor an admin.
abbrev pub is_foreign : Caller → Post → Bool
is_foreign caller p = not (
    may_write caller.user_role
    && (is_value caller.user_id p.author_id || is_value caller.user_role "admin"))

-- The check that stops a foreign caller.
authorized_post_foreign :
    (id author_id : String) (user_role : Option String) (p : Post) (s : PostDb)
    → find (λ q. q.id == id) s.posts ≡ some p
    → (may_write user_role && (p.author_id == author_id || is_value user_role "admin")) ≡ false
    → (e : Failure) × (t : PostDb) × (authorized_post id author_id user_role s ≡ thrown e t)
authorized_post_foreign id author_id user_role p s found foreign =
    elim (Run-cases (authorized_post id author_id user_role s)) [
      | inl (q, t, e) ↦
          let ok = (authorized_post-eq-done id author_id user_role s t q e).1 in
          let same : q ≡ p = cc (sym ok.in_table ∙ found) in
          let own : (p.author_id == author_id || is_value user_role "admin") ≡ true =
            rw same at ok.own in
          absurd (ground (arith, ok.writer, own, foreign))
      | inr r ↦ r
    ]

-- The route asks whether the headers are foreign, and the operation whether the author is.
author_or_admin :
    (user_id user_role : Option String) (p : Post)
    → truthy user_id ≡ true
    → is_foreign (record { user_id = user_id; user_role = user_role }) p ≡ true
    → (may_write user_role && (p.author_id == or_else user_id "" || is_value user_role "admin"))
      ≡ false
author_or_admin none user_role p y h = cc
author_or_admin (some a) user_role p y h =
    ground (arith, ==_iff p.author_id a, ==_iff a p.author_id)

module _ (uuid : ℕ → String) (unicode : ℕ → Text) (id : String) (p : Post) where
  -- A first step that throws, where it keeps the posts.
  stopped :
      {A B : Type 0} (m : Exec PostDb A) (f : A → Exec PostDb B) (s : PostDb)
      → Keeps (On (Is id p)) m
      → Is id p s.posts
      → (e : Failure) × (t : PostDb) × (m s ≡ thrown e t)
      → Is id p (final ((m >>= f) s)).posts
  stopped m f s k h (e, t, stop) = rw (bind-eq-thrown m f s stop) (rw stop at (k.at s h))

  update_post-kept :
      (now : ℕ) (target a : String) (body : UpdatePost) (user_role : Option String) (s : PostDb)
      → Is id p s.posts
      → (may_write user_role && (p.author_id == a || is_value user_role "admin")) ≡ false
      → Is id p (final (update_post uuid unicode now target a body user_role s)).posts
  unfolding update_post
  update_post-kept now target a body user_role s h foreign = elim (Bool-cases (target == id)) [
    | inr n ↦ (update_post-other uuid unicode now id p target a body user_role n).at s h
    | inl y ↦
        let same : id ≡ target = sym ((==_iff target id).0 y) in
        stopped (authorized_post target a user_role) _ s
          (authorized_post-On (Is id p) target a user_role) h
          (authorized_post_foreign target a user_role p s
            (ap (λ i. find (λ q. q.id == i) s.posts) (sym same) ∙ h) foreign)
  ]

  delete_post-kept :
      (target a : String) (user_role : Option String) (s : PostDb)
      → Is id p s.posts
      → (may_write user_role && (p.author_id == a || is_value user_role "admin")) ≡ false
      → Is id p (final (delete_post target a user_role s)).posts
  unfolding delete_post
  delete_post-kept target a user_role s h foreign = elim (Bool-cases (target == id)) [
    | inr n ↦ (delete_post-other uuid unicode 0 id p target a user_role n).at s h
    | inl y ↦
        let same : id ≡ target = sym ((==_iff target id).0 y) in
        stopped (authorized_post target a user_role) _ s
          (authorized_post-On (Is id p) target a user_role) h
          (authorized_post_foreign target a user_role p s
            (ap (λ i. find (λ q. q.id == i) s.posts) (sym same) ∙ h) foreign)
  ]

  create-kept :
      (now : ℕ) (user_id user_role : Option String) (body : Option CreatePost) (s : PostDb)
      → Is id p s.posts
      → Is id p
          (final (
            post_route uuid unicode now
              (record { user_id = user_id; user_role = user_role })
              body
              s)).posts
  unfolding post_route parsed return ◌>>=◌
  create-kept now user_id user_role body s h = elim (Bool-cases (truthy user_id)) [
    | inr n ↦ rw n h
    | inl y ↦ elim (Bool-cases (may_write user_role)) [
      | inr n ↦ rw (y, n) h
      | inl w ↦ rw (y, w) (allowed body)
    ]
  ]
    where
      allowed :
          (b : Option CreatePost)
          → Is id p
              (final (
                (parsed b >>= λ b. create_post uuid unicode now (or_else user_id "") b >>= λ post.
                return (sent 201 post))
                  s)).posts
      allowed none = h
      allowed (some b) =
          bind_kept {Next = Reply PostView} {P = On (Is id p)}
            (create_post uuid unicode now (or_else user_id "") b) _ s
            ((create_post-Is uuid unicode now id p (or_else user_id "") b).at s h)
            λ v. Keeps-return _

  module _ (user_id user_role : Option String) (s : PostDb) (h : Is id p s.posts)
      (foreign : is_foreign (record { user_id = user_id; user_role = user_role }) p ≡ true) where
    foreign_author :
        truthy user_id ≡ true
        → (may_write user_role && (p.author_id == or_else user_id "" || is_value user_role "admin"))
          ≡ false
    foreign_author y = author_or_admin user_id user_role p y foreign

    edit-kept :
        (now : ℕ) (target : String) (body : Option UpdatePost)
        → Is id p
            (final (
              put_route uuid unicode now
                (record { user_id = user_id; user_role = user_role })
                target
                body
                s)).posts
    unfolding put_route parsed return ◌>>=◌
    edit-kept now target body = elim (Bool-cases (truthy user_id)) [
      | inr n ↦ rw n h
      | inl y ↦ rw y (signed y body)
    ]
      where
        signed :
            truthy user_id ≡ true
            → (b : Option UpdatePost)
            → Is id p
                (final (
                  (parsed b >>= λ b.
                  update_post uuid unicode now target (or_else user_id "") b user_role >>= λ post.
                  return (sent 200 post))
                    s)).posts
        signed y none = h
        signed y (some b) =
            bind_kept {Next = Reply PostView} {P = On (Is id p)}
              (update_post uuid unicode now target (or_else user_id "") b user_role) _ s
              (update_post-kept now target (or_else user_id "") b user_role s h (foreign_author y))
              λ v. Keeps-return _

    remove-kept :
        (target : String)
        → Is id p
            (final
              (delete_route (record { user_id = user_id; user_role = user_role }) target s)).posts
    unfolding delete_route return
    remove-kept target = elim (Bool-cases (truthy user_id)) [
      | inr n ↦ rw n h
      | inl y ↦ rw y (
          bind_kept {Next = Reply PostView} {P = On (Is id p)}
            (delete_post target (or_else user_id "") user_role) _ s
            (delete_post-kept target (or_else user_id "") user_role s h (foreign_author y))
            λ v. Keeps-return _)
    ]

  -- Whatever a request to write posts says, it leaves every post as it is that is not the caller's own, unless
  -- the caller is an admin; and a caller who is neither writer nor admin changes no post at all.
  pub change-kept :
      (caller : Caller) (c : Change) (s : PostDb)
      → find (λ q. q.id == id) s.posts ≡ some p
      → is_foreign caller p ≡ true
      → find (λ q. q.id == id) (change uuid unicode caller c s).posts ≡ some p
  unfolding change
  change-kept caller (create now body) s h foreign =
      create-kept now caller.user_id caller.user_role body s h
  change-kept caller (edit now target body) s h foreign =
      edit-kept caller.user_id caller.user_role s h foreign now target body
  change-kept caller (remove target) s h foreign =
      remove-kept caller.user_id caller.user_role s h foreign target
