-- ===== src/Lib.antt =====
-- The services of the micro-blog, modelled and verified.
--
-- The program is a set of Fastify services, each with its own PostgreSQL database, that tell each
-- other of changes by messages on NATS JetStream. A request goes through a schema (zod), an operation
-- of the service, statements on its tables (drizzle) and messages to the bus, and an error that is
-- thrown anywhere becomes the reply of the shared error handler.
--
-- Files and what they model:
--   Base.antt, Base/      Boolean tests, lists, texts as lists of UTF-16 code units, and the effect of
--                         a handler: Exec S A takes the state to `done a s` or to `thrown e s`. The
--                         state after a throw is kept, since no service uses a transaction.
--   Frames.antt           what a handler keeps, branch by branch, and its steps one by one.
--   Sql.antt, Sql/        the statements that the services use on a table (a list of rows): UPDATE,
--                         DELETE, COUNT, INSERT with a key that must be new, ORDER BY … DESC, LIMIT
--                         and OFFSET; uniqueness of keys, sorting and pagination.
--   Shared/Errors.antt    services/shared/src/errors.ts
--   Shared/Events.antt    services/shared/src/events.ts and subjects.ts, and the bus behind the nats.ts of
--                         each service: publishing appends to the log where the connection is up, and throws otherwise.
--   Post.antt, Post/      services/post/src: Post/Slug.antt has slugify, Post/Store.antt the tables
--                         and their helpers (ensureUniquSlug, ensureTags, getPostTags), and
--                         Post/Service.antt the operations (listPosts, getPostById, getPostBySlug,
--                         createPost, updatePost, deletePost and the archiving on user.deleted);
--                         Post/Listing.antt has the query of GET /posts, and
--                         Post/Routes.antt the routes.
--   Comment.antt, Comment/ services/comment/src: Comment/Service.antt has the operations of
--                         services/comment.ts and the two subscribers, Comment/Routes.antt the
--                         routes, and Comment/Reachable.antt the states that they lead to together.
--   Captcha.antt, Captcha/ services/captcha/src: Captcha/Store.antt has captcha.ts without the image,
--                         Captcha/Glyphs.antt its bitmaps, Captcha/Routes.antt the routes, and
--                         Captcha/Life.antt and Captcha/CleanUp.antt the sequences of requests and
--                         clean-ups.
--   Samples.antt          sample data of the tests.
--   Notification.antt, Notification/ services/notification/src: Notification/Service.antt has the
--                         operations of services/notification.ts, the routes that write and the
--                         subscribers.
--   User.antt, User/      services/user/src: User/Service.antt has the operations of services/user.ts and
--                         the subscriber, User/Routes.antt the routes, User/Reachable.antt the states.
--   Auth.antt, Auth/      services/auth/src: Auth/Service.antt has the operations of services/auth.ts,
--                         Auth/Subscribers.antt the two subscribers, Auth/Captcha.antt the check of
--                         captcha tokens, Auth/Routes.antt the routes, and Auth/Requests.antt what
--                         the service does in one go.
--   Accounts.antt, Accounts/ the auth service and the user service together, with the messages that
--                         each sends to the other.
--   Shared/Requests.antt  what every route begins with: the caller's header and the body.
--   Frontend.antt, Frontend/ services/frontend/src: Frontend/Escape.antt has lib/escapeHtml.ts,
--                         Frontend/Links.antt lib/markdown.ts, Frontend/Excerpt.antt lib/renderExcerpt.tsx
--                         and lib/stripMarkdown.ts, Frontend/Session.antt context/AuthContext.tsx
--                         with components/layout/RequireAuth.tsx, Frontend/Client.antt api/client.ts,
--                         Frontend/Toasts.antt context/ToastContext.tsx, Frontend/Threads.antt,
--                         Frontend/Buttons.antt and Frontend/Posting.antt the comments, the buttons
--                         and the box for comments of pages/PostPage.tsx,
--                         Frontend/Editor.antt with Frontend/Fields.antt the form of
--                         pages/ComposePage.tsx and pages/EditPage.tsx, and Frontend/SignUp.antt
--                         pages/RegisterPage.tsx with the two services behind it.
--   Schemas.antt, Schemas/ services/shared/src/schemas.ts
--
-- What is taken as it comes, as a parameter: the lower case of a code unit outside ASCII
-- (`unicode`), the bytes of a text (`utf8`), the tokens that are signed (`sign`), the identifiers
-- and random numbers that are drawn, bcrypt, HMAC and the secrets (`Primitives` in
-- Auth/Service.antt), the decoding of a captcha token (`decode`), JSON in the browser (`Json`),
-- the patterns of addresses and identifiers (`is_email`, `is_uuid`), `Number` (`to_number`), `marked` and `DOMPurify`,
-- and the clock, which stands still during a request.
--
-- Bounds and fuel: numbers are natural numbers (times in milliseconds, counters and page numbers;
-- none of them comes near 2^53). The loop of ensureUniquSlug runs on fuel, one round more than there
-- are rows: the candidates differ, so that each row can take one of them only. The comments of a page are
-- drawn on fuel, one level more than identifiers were drawn: a reply has a later identifier than
-- the comment that it answers.
--
-- Identifiers and orders: a column of type `uuid` takes only some texts (`is_uuid` of the database). The comment
-- service and the user service refuse the others as PostgreSQL does; in the post service and the notification
-- service an identifier in a path is taken to be a UUID, and for one that is not, the program answers 500
-- where the model answers as for an identifier that no row has, with nothing changed in both. The identifier of a
-- caller in the post service is a UUID too: the gateway takes it from a token of the auth service. The order of the
-- tags of a post, which no query asks for, is a function of the database (`order`). Lower case is taken code unit
-- by code unit, without the rules of JavaScript for the final sigma and for characters outside the
-- Basic Multilingual Plane.
--
-- Not modelled: the start-up of the services, their configuration, the transport (Fastify, NATS,
-- the database connection), the lengths of columns, the markup and styles of the frontend and its
-- pages but for what is named above, the Rust services and the deployment files. A request runs
-- alone: two requests are not
-- interleaved.
mod Base
mod Frames
mod Samples
pub mod Sql
pub mod Shared
pub mod Post
pub mod Comment
pub mod Captcha
pub mod Notification
pub mod User
pub mod Auth
pub mod Accounts
pub mod Schemas
pub mod Frontend
