-- ===== src/Lib.antt =====
-- FFgif: a service that turns videos into GIFs, keeps them for their owners and shares them. This
-- library models the services of internal/app with the SQL statements, cache entries and queue
-- messages that they produce, the handlers and the middleware in
-- front of them, and the workers behind the queues.
--
-- The parts, and the files that model them. A Go method `GetByEmail` is `get_by_email` here, in
-- the module of its receiver.
--
-- - World: what is outside the process. World/State holds the tables (migrations), the entries of
--   Redis, the published messages, the objects in storage, the clock and the sources of random
--   values; World/Entities the structs of internal/domain and internal/port/queue; World/Errors the
--   sentinel errors and errors.Is; World/Monad a call as a function from the world to a result and
--   a world, with a transaction as in internal/infra/postgres/transaction_manager.go.
--   World/ThirdParty is the record of the third-party functions that the code calls: uuid, sha256,
--   bcrypt, jwt, presigned URLs and the format of times. It is a parameter of everything else; what
--   a theorem needs of these functions it names as a hypothesis.
-- - Auth: internal/app/auth (Auth/Service) over internal/infra/postgres/auth_repo.go (Auth/Users,
--   Auth/Verifiers, Auth/Reseters), with pkg/token, pkg/password and pkg/jwt (Pkg) and
--   internal/infra/redis/cache/cache.go (Cache).
-- - User: internal/app/user (User/Service) over internal/infra/postgres/user_repo.go
--   (User/Profiles) and quota_repo.go (User/Quotas).
-- - Conversion: internal/app/media/convert.go and conversion_status.go (Conversion/Service) and
--   run_conversion.go (Conversion/Run) over internal/infra/postgres/job_repo.go (Conversion/Jobs).
--   The video processor is a parameter.
-- - Friend: internal/app/friend/service.go (Friend/Service) over
--   internal/infra/postgres/friend_repo.go (Friend/Repo). Friend/Spec says what
--   each call does for two users, and Friend/Race lets the two halves of two requests take turns.
-- - Gif: the methods of internal/app/media on stored GIFs (Gif/Service) over
--   internal/infra/postgres/gif_repo.go (Gif/Repo) and internal/infra/minio/storage_repo.go
--   (Storage).
-- - Share: internal/app/share (Share/Service) over internal/infra/postgres/share_repo.go
--   (Share/Repo).
-- - Uploads: the methods of internal/app/media on uploads (Uploads/Service) over the table
--   last_upload (Uploads/LastVideos); Uploads/Keys is about the keys.
-- - Workers: internal/worker. Workers/Handle has the handler of each worker, from a decoded
--   delivery to what Workers/Delivery calls its settlement; Workers/Emails and Workers/Saves the
--   loops of two of them; Workers/Journey and Workers/Converted are about an upload and a
--   conversion on their way; Workers/Pool is the loop `Run` of a worker with its goroutines, as a
--   relation on states; Workers/Topology holds the queues of internal/infra/rabbitmq/setup.go. Mailer is internal/infra/mailer.
-- - Ffmpeg: internal/infra/ffmpeg (Ffmpeg/Commands, Ffmpeg/Processor) and internal/port/processor
--   (Ffmpeg/Probe). It can stand for the processor of Conversion and Uploads.
-- - Handlers: internal/transport/http/handlers, one file for a service, the media handlers in
--   Handlers/Gifs and Handlers/Uploads. A handler takes the claims in the context, the values of the
--   path and the query, and the decoded body; its answer is a Response of Http/Response.
-- - RateLimit: the Lua script of internal/infra/redis/rate_limiter/rate_limiter.go
--   (RateLimit/Bucket) and internal/transport/http/middleware/rate_limiter.go
--   (RateLimit/Middleware).
-- - Http: internal/transport/http/middleware/auth.go (Http/Auth), manager.go (Http/Manager), the
--   other middleware with the chain of server.go (Http/Chain), and the tables of routes
--   (Http/Routes), on handlers of any kind.
-- - Configuration: config/config.go, its records and, in Configuration/Load, loadConfig with what
--   viper finds for a key as a parameter.
-- - Seed: cmd/bootstrap/cmd/seed.go, one file for each table or pair of tables, and Seed/Batches for
--   the loops that insert. What is drawn at random is a parameter.
-- - Bootstrap: the commands of cmd/bootstrap/cmd but the seed (Bootstrap/Commands) and the set-ups
--   they call, internal/infra/minio/minio.go (Bootstrap/Storage), migration.go and connection.go of
--   internal/infra/postgres (Bootstrap/Database) and internal/infra/rabbitmq/setup.go
--   (Bootstrap/Queues). Each is a script of calls (Bootstrap/Script), and what the services answer
--   is a parameter; Bootstrap/Literal is how PostgreSQL reads a statement that is put together here.
-- - Base holds texts, tables, integers and tests on numbers; Tests applies the theorems to small
--   worlds.
--
-- Every call to PostgreSQL, Redis, RabbitMQ and MinIO counts up the number of calls, and a schedule
-- in the world says which of them fail; a theorem that says "under any outage" holds for every
-- schedule. A statement of SQL is one step. The clock does not move within a call, but for the
-- waits of the retries of an upload. Times are nanoseconds, in the rate limiter milliseconds; tokens of the
-- rate limiter are thousandths, where the script computes in floating point. Uuids are numbers. No
-- fuel is used: every loop is a structural recursion.
--
-- Not modelled: the decoding of JSON and the tags of the validator, which are parameters of the
-- handlers, and the messages for people in the answers; the mux of net/http and the handler of static
-- files; the steps within a handler of a worker, which in Workers/Pool are one; the
-- wiring of cmd/ffgif and cmd/worker; methods that nothing calls, such as Upgrade of a user and the
-- sender for Mailtrap; the settings of connections; a broken
-- .env file. Sums in quotas are taken to fit their columns, and page times limit
-- to fit 64 bits.
pub mod Base
pub mod World
pub mod Friend
pub mod Pkg
pub mod Cache
pub mod RateLimit
pub mod Storage
pub mod Auth
pub mod User
pub mod Http
pub mod Gif
pub mod Conversion
pub mod Uploads
pub mod Mailer
pub mod Workers
pub mod Handlers
pub mod Ffmpeg
pub mod Configuration
pub mod Seed
pub mod Bootstrap
pub mod Share
pub mod Tests
