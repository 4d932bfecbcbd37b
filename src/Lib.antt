-- ===== src/Lib.antt =====
-- A model of ssh2-rs, the safe Rust interface to the C library libssh2, with proofs about it.
--
-- The crate wraps handles of libssh2 (a session, channels, an SFTP subsystem and its files, agents,
-- collections of known hosts, listeners). Every call locks the session's mutex, hands the arguments
-- to libssh2, and turns the code that comes back into a `Result`. libssh2 itself is not part of the
-- repository: each component takes it as a record of functions, `Api S`, over a state `S` of which
-- nothing is known. What a theorem needs of it is a hypothesis that states documented behaviour.
--
-- Which file models which part:
--   * Sys: the constants of libssh2-sys/lib.rs, by their names there. Init: `init` of
--     libssh2-sys/lib.rs and of src/lib.rs.
--   * Errors: src/error.rs (`Error`, `from_errno`, `last_error_raw`, `from_session_error_raw`,
--     `make_error_message`), and `SessionInner::rc` and `last_error` of src/session.rs. Errors/Monad
--     has `Call S A`, a function from a state to a `Result` and a state: it carries the state also
--     out of an error or a panic, as libssh2 keeps what was done to it.
--   * Paths: src/util.rs, and `mkpath` of src/sftp.rs. Paths/Arguments describes what refuses a string
--     that is handed to C, and Paths/Slices what libssh2 sees of one that goes over with a length.
--   * Codes: the enums of src/lib.rs with their numbers, and the matches that read numbers back in
--     src/session.rs and src/knownhosts.rs.
--   * Pty: `PtyModes` and the opcodes of src/lib.rs. Pty/Decode has a reader of the encoding that is
--     written from RFC 4254, and Pty/Setters programs of all the setters.
--   * Channel: src/channel.rs; Channel/Requests has the calls that do not touch the read limit.
--     Channel/Limit, Channel/Streams and Channel/Memory are about reading and about what libssh2
--     allocates, and Channel/RequestLaws about the requests.
--   * Sftp: src/sftp.rs. Sftp/Handles has the life of the subsystem and of its files (`Sftp`, `File`,
--     `SftpInnerDropWrapper`), Sftp/Requests the calls on paths and files, Sftp/Seek `Seek for File`,
--     Sftp/Buffers `readlink_op` and `File::readdir`, Sftp/Listing `Sftp::readdir`, Sftp/Links
--     `readlink` and `realpath`, Sftp/Stat `FileStat` and `FileType`. Sftp/Abstract has the subsystem
--     without counts and pointers, as a relation between what is there before and after a call, and
--     Sftp/OpenHandles is about the handles of the files.
--   * Walk: the loops over a collection that src/knownhosts.rs and src/agent.rs share.
--   * KnownHosts and Agent: src/knownhosts.rs and src/agent.rs. KnownHosts/Bag has collections of
--     hosts without their order, a quotient of lists, and KnownHosts/Programs the programs of lists,
--     additions and removals, and what a bag allows them.
--   * Session: src/session.rs, and `Listener` of src/listener.rs. Session/Open has what a session
--     opens, Session/Auth the authentications by key and by host, Session/Prompt the
--     keyboard-interactive callback, Session/Keyboard the call of libssh2 that takes it, and
--     Session/Inner the rest of `SessionInner`. Session/OpenLaws and Session/AuthLaws describe all the
--     calls of Session/Open and Session/Auth at once.
--   * Locks: the mutexes of a session and of its channels' read limits, in the order in which the
--     calls take and free them; Locks/Work counts what they have left to do, and Locks/Progress is
--     about threads that take turns.
--   * Build: libssh2-sys/build.rs. Build/Strings has the operations of Rust's `str` that it uses,
--     Build/Settings what the C compiler is told, and Build/Texts the texts that are read and written;
--     Build/Compilations follows a whole run of the script.
--   * Objects: who keeps the session and the pointers made from it, over all of src/: the counted
--     references of `Session`, `Channel`, `Stream`, `Listener`, `Agent`, `KnownHosts`, `Sftp` and
--     `File`, and the calls of libssh2 that their drops make. Objects/Monitor is an automaton for
--     the order in which libssh2 accepts such calls, written from its documentation. Objects/Subsystem
--     reads the calls of Sftp/Handles as calls of this model, and Objects/SubsystemTrace whole
--     programs of them.
--
-- A function of the model has the name of the Rust function; helpers by clauses beside it are its
-- branches. A shared object is its state: a stream's channel, the counted references to an SFTP
-- subsystem (`World`), with a name for every open file.
--
-- Choices. A c_int has 32 bits; usize, isize and c_ulong have 64 (a 64-bit Unix); conversions wrap as
-- `as` does. A subtraction below 0 and an i64 addition that overflows panic, as with the checks for
-- overflow on. Strings, paths and buffers are lists of bytes. A call is one step, under the mutex:
-- threads interleave whole calls, which is any order of steps; the drops that do not lock it are
-- steps as well. A loop whose end is up to libssh2 takes fuel, and gives `none` where the fuel runs
-- out; that a given fuel is enough is part of the theorem. One more round than there are items is
-- enough for a walk, and two rounds for a line of known hosts. The build script has no loops but over
-- lists and texts.
--
-- Not modelled: libssh2 and its bindings; in Objects, what libssh2 answers to a call that frees an
-- object; the derived formatting; the tests. What libssh2 does with the keyboard-interactive
-- callback is a tree of the requests that it makes, which is finite.
-- `Path::join`, equality of paths, lossy conversion from UTF-8, `malloc`, the modes of the crate
-- `libc`, what `init` calls of the system, and the crates, the disk and the environment of the build
-- script are parameters.

pub mod Base
pub mod Sys
pub mod Errors
pub mod Pty
pub mod Paths
pub mod Codes
pub mod Walk
pub mod Channel
pub mod Sftp
pub mod KnownHosts
pub mod Agent
pub mod Session
pub mod Objects
pub mod Init
pub mod Locks
pub mod Build
