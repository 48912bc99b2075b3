-- ===== src/Schemas.antt =====
-- services/shared/src/schemas.ts: what the schemas let through. A request's body is an object of JSON; a
-- schema takes the fields that it names and drops the others.
pub mod Bounds
use micro_blog.Base.{
  ℕ, String, Text, codes, string_eq, text_eq, nat_eq, ◌==◌, Bool, true, false, ◌&&◌, ◌||◌, Option,
  none, some, List, [], ◌∷◌, length, leb, if◌then◌else◌,
}
use micro_blog.User.Service.{UpdateUser}
use micro_blog.Post.Service.{CreatePost, UpdatePost}
use micro_blog.Auth.Routes.{Registration, Credentials, PasswordChange}
use micro_blog.Comment.Routes.{Pagination}

-- A value of JSON, as far as the schemas look into it.
mutual
  pub data Value : Type 0 where
    text : (t : Text) → Value
    array : (vs : Values) → Value
    other : Value

  pub data Values : Type 0 where
    nil : Values
    cons : (v : Value) (vs : Values) → Values

abbrev pub Object : Type 0
Object = List (String × Value)

abbrev pub field : String → Object → Option Value
field name [] = none
field name ((n, v) ∷ rest) = if n == name then some v else field name rest

-- `z.string()` with the tests that follow it, on a field that must be there
abbrev pub string : (Text → Bool) → Option Value → Option Text
string ok none = none
string ok (some (text t)) = if ok t then some t else none
string ok (some (array vs)) = none
string ok (some other) = none

-- `.optional()`
abbrev pub optional : {A : Type 0} → (Option Value → Option A) → Option Value → Option (Option A)
optional schema none = some none
optional schema (some v) = elim (schema (some v)) [ none ↦ none | some a ↦ some (some a) ]

-- `.default(a)`
abbrev pub default : {A : Type 0} → A → (Option Value → Option A) → Option Value → Option A
default a schema none = some a
default a schema (some v) = schema (some v)

-- `.min(least).max(most)`
abbrev pub is_between : (least most : ℕ) → Text → Bool
is_between least most t = leb least (length t) && leb (length t) most

-- `[a-zA-Z0-9_-]`, and the whole text in it
abbrev pub is_name_unit : ℕ → Bool
is_name_unit c =
    (leb 97 c && leb c 122)
    || (leb 65 c && leb c 90)
    || (leb 48 c && leb c 57)
    || c == 95
    || c == 45

abbrev pub is_name : Text → Bool
is_name [] = true
is_name (c ∷ t) = is_name_unit c && is_name t

abbrev pub is_username : Text → Bool
is_username t = is_between 3 50 t && is_name t

-- `z.enum`
abbrev pub one_of : List String → Text → Option String
one_of [] t = none
one_of (s ∷ rest) t = if t == codes s then some s else one_of rest t

abbrev pub enum : List String → Option Value → Option String
enum names none = none
enum names (some (text t)) = one_of names t
enum names (some (array vs)) = none
enum names (some other) = none

-- `z.array(z.string().max(50)).max(10)`
abbrev pub tag_list : Values → Option (List Text)
tag_list nil = some []
tag_list (cons (text t) vs) = elim (tag_list vs) [
  | none ↦ none
  | some ts ↦ if leb (length t) 50 then some (t ∷ ts) else none
]
tag_list (cons (array ws) vs) = none
tag_list (cons other vs) = none

abbrev pub at_most_ten : Option (List Text) → Option (List Text)
at_most_ten none = none
at_most_ten (some ts) = if leb (length ts) 10 then some ts else none

abbrev pub tags : Option Value → Option (List Text)
tags none = none
tags (some (array vs)) = at_most_ten (tag_list vs)
tags (some (text t)) = none
tags (some other) = none

-- Fields are checked one by one; where one is refused, the object is.
infixl 5 ◌then_field◌
abbrev pub ◌then_field◌ : {A B : Type 0} → Option A → (A → Option B) → Option B
◌then_field◌ none rest = none
◌then_field◌ (some a) rest = rest a

-- `is_email` stands for the pattern of `z.string().email()`.
module _ (is_email : Text → Bool) where
  unfoldable pub register_schema : Object → Option Registration
  register_schema o = string is_username (field "username" o) then_field λ username.
      string is_email (field "email" o) then_field λ email.
      string (is_between 8 128) (field "password" o) then_field λ password.
      some (record { username = username; email = email; password = password })

  unfoldable pub login_schema : Object → Option Credentials
  login_schema o = string is_email (field "email" o) then_field λ email.
      string (λ t. true) (field "password" o) then_field λ password.
      some (record { email = email; password = password })

  unfoldable pub update_user_schema : Object → Option UpdateUser
  update_user_schema o = optional (string is_username) (field "username" o) then_field λ username.
      optional (string is_email) (field "email" o) then_field λ email.
      optional (string (λ t. leb (length t) 500)) (field "bio" o) then_field λ bio.
      some (record { username = username; email = email; bio = bio })

unfoldable pub change_password_schema : Object → Option PasswordChange
change_password_schema o =
    string (λ t. true) (field "current_password" o) then_field λ current_password.
    string (is_between 8 128) (field "new_password" o) then_field λ new_password.
    some (record { current_password = current_password; new_password = new_password })

unfoldable pub update_role_schema : Object → Option String
update_role_schema o = enum ("user" ∷ "writer" ∷ "admin" ∷ []) (field "role" o)

unfoldable pub create_post_schema : Object → Option CreatePost
create_post_schema o = string (is_between 1 200) (field "title" o) then_field λ title.
    string (λ t. leb 1 (length t)) (field "content" o) then_field λ content.
    default [] tags (field "tags" o) then_field λ tags.
    default "draft" (enum ("draft" ∷ "published" ∷ [])) (field "status" o) then_field λ status.
    some (record { title = title; content = content; tags = tags; status = status })

unfoldable pub update_post_schema : Object → Option UpdatePost
update_post_schema o = optional (string (is_between 1 200)) (field "title" o) then_field λ title.
    optional (string (λ t. leb 1 (length t))) (field "content" o) then_field λ content.
    optional tags (field "tags" o) then_field λ tags.
    optional (enum ("draft" ∷ "published" ∷ "archived" ∷ [])) (field "status" o)
    then_field λ status.
        some (record { title = title; content = content; tags = tags; status = status })

-- `z.coerce.number().int().min(1)`; `to_number` is `Number` where that is a natural number.
abbrev pub counted : (to_number : Text → Option ℕ) → (ℕ → Bool) → ℕ → Option Text → Option ℕ
counted to_number ok default none = some default
counted to_number ok default (some t) = elim (to_number t) [
  | none ↦ none
  | some n ↦ if leb 1 n && ok n then some n else none
]

-- The query of a listing
unfoldable pub pagination_schema :
    (to_number : Text → Option ℕ) → (page limit : Option Text) → Option Pagination
pagination_schema to_number page limit = counted to_number (λ n. true) 1 page then_field λ page.
    counted to_number (λ n. leb n 100) 20 limit then_field λ limit.
    some (record { page = page; limit = limit })
