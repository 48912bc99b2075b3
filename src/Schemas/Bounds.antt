-- ===== src/Schemas/Bounds.antt =====
-- What holds of a body that a schema of services/shared/src/schemas.ts has let through.
use micro_blog.Base.{
  ◌≡◌, refl, sym, ap, ◌∙◌, ◌⊎◌, inl, inr, ℕ, ◌≤◌, String, Text, codes, string_eq, text_eq, nat_eq,
  ◌==◌, ==_iff, Bool, true, false, Option, none, some, List, [], ◌∷◌, length, leb, arith, All, any,
  Bool-cases, Option-cases,
}
use micro_blog.User.Service.{UpdateUser}
use micro_blog.User.Reachable.{put, promote}
use micro_blog.Post.Service.{CreatePost}
use micro_blog.Accounts.Steps.{is_filled, IsParsed}
use micro_blog.Schemas.{
  Value, Values, text, array, other, nil, cons, Object, field, string, optional, default,
  is_between, is_username, one_of, enum, tag_list, tags, ◌then_field◌, update_user_schema,
  update_role_schema, create_post_schema,
}

-- A field that is let through, and the rest of the schema.
after_field :
    {A B C : Type 0} (o : Option A) (f : A → Option B) {b : B}
    → (o then_field f) ≡ some b
    → ((a : A) → o ≡ some a → f a ≡ some b → C)
    → C
after_field none f h k = cc
after_field (some a) f h k = k a refl h

between_lem :
    (least most : ℕ) (t : Text)
    → is_between least most t ≡ true
    → (least ≤ length t) × (length t ≤ most)
between_lem least most t h = (ground arith, ground arith)

string-eq-some :
    (ok : Text → Bool) (v : Option Value) {t : Text} → string ok v ≡ some t → ok t ≡ true
string-eq-some ok none h = cc
string-eq-some ok (some (text t)) {t = u} h = elim (Bool-cases (ok t)) [
  | inl y ↦ let same : t ≡ u = cc (rw y at h) in ap ok (sym same) ∙ y
  | inr n ↦ cc (rw n at h)
]
string-eq-some ok (some (array vs)) h = cc
string-eq-some ok (some other) h = cc

optional-string :
    (ok : Text → Bool) (v : Option Value) {t : Text}
    → optional (string ok) v ≡ some (some t)
    → ok t ≡ true
optional-string ok none h = cc
optional-string ok (some v) {t} h = elim (Option-cases (string ok (some v))) [
  | inl n ↦ cc (rw (n, optional) at h)
  | inr (u, e) ↦
      let same : u ≡ t = cc (rw (e, optional) at h) in
      string-eq-some ok (some v) (e ∙ ap (λ x. some x) same)
]

optional-string_filled :
    (ok : Text → Bool)
    → ok [] ≡ false
    → (v : Option Value) {o : Option Text} → optional (string ok) v ≡ some o
    → is_filled o ≡ true
optional-string_filled ok e v {o = none} h = refl
optional-string_filled ok e v {o = some []} h = cc (optional-string ok v h, e)
optional-string_filled ok e v {o = some (c ∷ t)} h = refl

-- A body of PUT /users/:id that the schema lets through has no empty name and no empty address.
pub update_user_schema-IsParsed :
    (is_email : Text → Bool) (now : ℕ) (id : String) (o : Object)
    → is_email [] ≡ false
    → IsParsed (put now id (update_user_schema is_email o))
unfolding update_user_schema
update_user_schema-IsParsed is_email now id o e =
    elim (Option-cases (update_user_schema is_email o)) [
      | inl n ↦ rw n tt
      | inr (b, h) ↦ rw h (body b h)
    ]
  where
    body :
        (b : UpdateUser)
        → update_user_schema is_email o ≡ some b
        → (is_filled b.username ≡ true) × (is_filled b.email ≡ true)
    body b h = after_field (optional (string is_username) (field "username" o)) _ h λ u e1 h1.
        after_field (optional (string is_email) (field "email" o)) _ h1 λ m e2 h2.
          after_field (optional (string (λ t. leb (length t) 500)) (field "bio" o)) _ h2 λ i e3 h3.
            let name : u ≡ b.username = cc h3 in
            let address : m ≡ b.email = cc h3 in
            (
              ap is_filled (sym name)
                  ∙ optional-string_filled is_username refl (field "username" o) e1,
              ap is_filled (sym address) ∙ optional-string_filled is_email e (field "email" o) e2,
            )

-- What a name of `z.enum` is.
one_of-eq-some :
    (names : List String) (t : Text) {s : String}
    → one_of names t ≡ some s
    → any (λ n. n == s) names ≡ true
one_of-eq-some [] t h = cc
one_of-eq-some (n ∷ names) t {s} h = elim (Bool-cases (t == codes n)) [
  | inl y ↦ let same : n ≡ s = cc (rw y at h) in ground (arith, (==_iff n s).1 same)
  | inr k ↦ ground (arith, one_of-eq-some names t {s = s} (rw k at h))
]

enum-eq-some :
    (names : List String) (v : Option Value) {s : String}
    → enum names v ≡ some s
    → any (λ n. n == s) names ≡ true
enum-eq-some names none h = cc
enum-eq-some names (some (text t)) h = one_of-eq-some names t h
enum-eq-some names (some (array vs)) h = cc
enum-eq-some names (some other) h = cc

role_filled :
    (r : String) → any (λ n. n == r) ("user" ∷ "writer" ∷ "admin" ∷ []) ≡ true → (r == "") ≡ false
role_filled r h = elim (Bool-cases ("user" == r)) [
  | inl y ↦ rw (sym ((==_iff "user" r).0 y)) refl
  | inr a ↦ elim (Bool-cases ("writer" == r)) [
    | inl y ↦ rw (sym ((==_iff "writer" r).0 y)) refl
    | inr b ↦ elim (Bool-cases ("admin" == r)) [
      | inl y ↦ rw (sym ((==_iff "admin" r).0 y)) refl
      | inr c ↦ cc (rw (a, b, c) at h)
    ]
  ]
]

-- A body of PUT /users/:id/role that the schema lets through has no empty role.
pub update_role_schema-IsParsed :
    (now : ℕ) (id : String) (o : Object) → IsParsed (promote now id (update_role_schema o))
unfolding update_role_schema
update_role_schema-IsParsed now id o =
    elim (Option-cases (enum ("user" ∷ "writer" ∷ "admin" ∷ []) (field "role" o))) [
      | inl n ↦ rw (n, update_role_schema) tt
      | inr (r, h) ↦
          let known = enum-eq-some ("user" ∷ "writer" ∷ "admin" ∷ []) (field "role" o) h in
          rw (h, update_role_schema) (role_filled r known)
    ]

-- The lengths of tags and how many there are.
tag_list-short :
    (vs : Values) {ts : List Text} → tag_list vs ≡ some ts → All (λ t. length t ≤ 50) ts
tag_list-short nil {ts} h = let same : ◌≡◌ {A = List Text} [] ts = cc h in rw (sym same) tt
tag_list-short (cons (array ws) vs) h = cc
tag_list-short (cons other vs) h = cc
tag_list-short (cons (text t) vs) {ts} h = elim (Option-cases (tag_list vs)) [
  | inl n ↦ cc (rw (n, tag_list) at h)
  | inr (us, e) ↦ elim (Bool-cases (leb (length t) 50)) [
    | inr n ↦ cc (rw (e, n, tag_list) at h)
    | inl y ↦
        let same : t ∷ us ≡ ts = cc (rw (e, y, tag_list) at h) in
        rw (sym same) (ground arith, tag_list-short vs e)
  ]
]

tags-eq-some :
    (v : Option Value) {ts : List Text}
    → tags v ≡ some ts
    → (length ts ≤ 10) × All (λ t. length t ≤ 50) ts
tags-eq-some none h = cc
tags-eq-some (some (text t)) h = cc
tags-eq-some (some other) h = cc
tags-eq-some (some (array vs)) {ts} h = elim (Option-cases (tag_list vs)) [
  | inl n ↦ cc (rw (n, tags) at h)
  | inr (us, e) ↦ elim (Bool-cases (leb (length us) 10)) [
    | inr n ↦ cc (rw (e, n, tags) at h)
    | inl y ↦
        let same : us ≡ ts = cc (rw (e, y, tags) at h) in
        let few : length us ≤ 10 = ground arith in
        (rw same at few, rw same at (tag_list-short vs e))
  ]
]

default-eq-some :
    {A : Type 0} (a : A) (schema : Option Value → Option A) (v : Option Value) {b : A}
    → default a schema v ≡ some b
    → (a ≡ b) ⊎ (schema v ≡ some b)
default-eq-some a schema none h = inl (cc h)
default-eq-some a schema (some v) h = inr h

-- A body of POST /posts that the schema lets through.
pub record IsBounded (b : CreatePost) : Type 0 where
  pub title : (1 ≤ length b.title) × (length b.title ≤ 200)
  pub content : 1 ≤ length b.content
  pub tags : (length b.tags ≤ 10) × All (λ t. length t ≤ 50) b.tags
  pub status : any (λ n. n == b.status) ("draft" ∷ "published" ∷ []) ≡ true

-- A body of POST /posts that the schema lets through has a title of 1 to 200 code units, some content, at
-- most ten tags of at most 50 code units each, and the status of a draft or of a published post.
pub create_post_schema-IsBounded :
    (o : Object) (b : CreatePost) → create_post_schema o ≡ some b → IsBounded b
unfolding create_post_schema
create_post_schema-IsBounded o b h =
    after_field (string (is_between 1 200) (field "title" o)) _ h λ t e1 h1.
      after_field (string (λ t. leb 1 (length t)) (field "content" o)) _ h1 λ c e2 h2.
        after_field (default [] tags (field "tags" o)) _ h2 λ ts e3 h3.
          after_field (default "draft" (enum ("draft" ∷ "published" ∷ [])) (field "status" o)) _ h3
            λ st e4 h4.
              let filled : leb 1 (length c) ≡ true =
                string-eq-some (λ t. leb 1 (length t)) (field "content" o) e2 in
              let bounded : IsBounded (record { title = t; content = c; tags = ts; status = st }) =
                record {
                  title =
                      between_lem 1 200 t (string-eq-some (is_between 1 200) (field "title" o) e1);
                  content = ground arith;
                  tags = tagged ts (default-eq-some [] tags (field "tags" o) e3);
                  status = known st (
                      default-eq-some "draft" (enum ("draft" ∷ "published" ∷ [])) (field "status" o)
                        e4);
                } in
              let same : record { title = t; content = c; tags = ts; status = st } ≡ b = cc h4 in
              rw same at bounded
  where
    tagged :
        (ts : List Text)
        → ([] ≡ ts) ⊎ (tags (field "tags" o) ≡ some ts)
        → (length ts ≤ 10) × All (λ t. length t ≤ 50) ts
    tagged ts (inl e) = rw (sym e) (ground arith, tt)
    tagged ts (inr e) = tags-eq-some (field "tags" o) e

    known :
        (s : String)
        → ("draft" ≡ s) ⊎ (enum ("draft" ∷ "published" ∷ []) (field "status" o) ≡ some s)
        → any (λ n. n == s) ("draft" ∷ "published" ∷ []) ≡ true
    known s (inl e) = rw (sym e) refl
    known s (inr e) = enum-eq-some ("draft" ∷ "published" ∷ []) (field "status" o) e
