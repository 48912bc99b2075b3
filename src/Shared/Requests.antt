-- ===== src/Shared/Requests.antt =====
-- What the routes of every service begin with: the check of the caller's header and of the body. A body
-- or a query arrives as the schema passes it on, and as `none` where the schema refuses it.
use micro_blog.Base.{
  String, Option, none, some, truthy, or_else, if◌then◌else◌, Exec, done, thrown, zod_error, return,
}
use micro_blog.Frames.{Keeps}
use micro_blog.Shared.Errors.{Reply, refused}

module _ {S A : Type 0} where
  -- `schema.parse(x)`
  unfoldable pub parsed : Option A → Exec S A
  parsed none s = thrown zod_error s
  parsed (some a) s = done a s

  -- `if (!userId) return reply.status(401).send({ error: message })`
  abbrev pub signed_in :
      (message : String) → Option String → (String → Exec S (Reply A)) → Exec S (Reply A)
  signed_in message user_id handler =
      if truthy user_id then handler (or_else user_id "") else return (refused 401 message)

pub Keeps-parsed : {S A : Type 0} {P : S → Type 0} (body : Option A) → Keeps P (parsed body)
unfolding parsed
Keeps-parsed none = record { at = λ s h. h }
Keeps-parsed (some a) = record { at = λ s h. h }
