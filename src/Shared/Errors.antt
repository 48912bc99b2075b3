-- ===== src/Shared/Errors.antt =====
-- services/shared/src/errors.ts: each error class with its status, and the error handler that every
-- service installs (for instance services/post/src/index.ts).
use Prim.Native.String
use micro_blog.Base.{ℕ, String, Failure, app_error, zod_error, other_error, Run, done, thrown}

abbrev pub not_found : String → Failure
not_found resource = app_error 404 (String.◌++◌ resource " not found")

abbrev pub unauthorized : String → Failure
unauthorized message = app_error 401 message

abbrev pub forbidden : String → Failure
forbidden message = app_error 403 message

abbrev pub conflict : String → Failure
conflict message = app_error 409 message

abbrev pub validation : String → Failure
validation message = app_error 400 message

-- What a route sends: a status with the body of the route, with `{ error: message }`, or with no body.
pub data Reply {ℓ} (A : Type ℓ) : Type ℓ where
  sent : (status : ℕ) → A → Reply A
  refused : (status : ℕ) (message : String) → Reply A
  no_content : Reply A

-- `app.setErrorHandler`
abbrev pub error_reply {ℓ} : {A : Type ℓ} → Failure → Reply A
error_reply (app_error code message) = refused code message
error_reply zod_error = refused 400 "Validation failed"
error_reply other_error = refused 500 "Internal server error"

-- A request to its end: the reply, and the state that the handler leaves.
abbrev pub respond {ℓ} : {S A : Type ℓ} → Run S (Reply A) → Reply A × S
respond (done r s) = (r, s)
respond (thrown e s) = (error_reply e, s)

abbrev pub status {ℓ} : {A : Type ℓ} → Reply A → ℕ
status (sent code a) = code
status (refused code message) = code
status no_content = 204
