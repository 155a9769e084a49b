-- ===== src/World.antt =====
-- What all the services work on: the errors (pkg/apperr and the `errors.New` values of
-- internal/domain and internal/port), the rows of the tables (internal/domain), the state outside
-- the process, and the monad of a call.
pub mod Mails
mod Errors
mod Entities
mod State
mod Monad
mod ThirdParty
mod Sql
pub mod Keeps
pub use Errors.*
pub use Entities.*
pub use State.*
unfoldable pub use Monad.*
pub use ThirdParty.*
unfoldable pub use Sql.*
