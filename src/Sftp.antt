-- ===== src/Sftp.antt =====
-- src/sftp.rs: the SFTP subsystem, its files, and their metadata.
pub mod Stat
pub mod StatLaws
pub mod AttributeLaws
pub mod OpenType
pub mod OpenFlags
pub mod RenameFlags
pub mod Raw
pub mod Handles
pub mod Abstract
pub mod Views
pub mod Refinement
pub mod Counted
pub mod Lifetime
pub mod Shutdown
pub mod Blocking
pub mod Mode
pub mod Closing
pub mod OpenHandles
pub mod Buffers
pub mod BufferLaws
pub mod Requests
pub mod RequestLaws
pub mod PathLaws
pub mod Listing
pub mod ListingLaws
pub mod Links
pub mod Seek
pub mod SeekLaws
mod ObjectTests
mod Tests
mod ListingTests
mod HandleTests
