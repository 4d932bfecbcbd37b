-- ===== src/Sys.antt =====
-- libssh2-sys/lib.rs: the constants that the crate compares with or hands to libssh2, by their names
-- there without LIBSSH2_.
mod Disconnect
mod HostKeys
mod Methods
mod ErrorCodes
mod SftpErrors
mod KnownHosts
mod SftpFlags
mod Channels
pub use Disconnect.*
pub use HostKeys.*
pub use Methods.*
pub use ErrorCodes.*
pub use SftpErrors.*
pub use KnownHosts.*
pub use SftpFlags.*
pub use Channels.*
