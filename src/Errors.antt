-- ===== src/Errors.antt =====
-- src/error.rs: the crate's `Error`, how libssh2's return codes become one, and the monad of a call
-- that may fail. `SessionInner::rc` and `SessionInner::last_error` of src/session.rs stand in
-- Errors/Session.
pub mod Messages
pub mod Session
pub mod Bind
pub mod Laws
pub mod Display
pub mod DisplayLaws
mod Tests
mod Monad
unfoldable pub use Monad.*
