-- ===== src/Locks.antt =====
-- The mutexes of src/: one around the `SessionInner` of a session, and one around the read limit of
-- each of its channels. A call takes and frees them in a fixed order; threads take turns between any
-- two of these.
pub mod Laws
pub mod Work
pub mod Progress
mod Tests
use ssh2_rs.Base.{ℕ, ◌≡◌, ◌≢◌, Bool, true, false, Option, none, some, List, [], ◌∷◌, ◌++◌, All}

-- What a thread does with a mutex; a channel's read limit is named by the channel.
pub data Act : Type 0 where
  take_session free_session : Act
  take_limit free_limit : ℕ → Act

-- `let sess = self.sess.lock()` for the length of a call, in `Channel::lock`, `Sftp::lock`,
-- `File::lock`, `Session::inner` and the calls of `Listener`, `Agent` and `KnownHosts`.
abbrev pub session_acts : List Act
session_acts = take_session ∷ free_session ∷ []

-- `Stream::lock`: the fields of `LockedStream` are dropped in the order in which they are declared,
-- `sess` before `read_limit`.
abbrev pub stream_acts : ℕ → List Act
stream_acts channel = take_session ∷ take_limit channel ∷ free_session ∷ free_limit channel ∷ []

-- `Channel::eof`: the guard of the limit is a temporary of the last expression, which is dropped
-- after the local `locked`.
abbrev pub eof_acts : ℕ → List Act
eof_acts channel = take_session ∷ take_limit channel ∷ free_session ∷ free_limit channel ∷ []

-- `Session::scp_recv`, which calls `Channel::limit_read` while it holds the session.
abbrev pub scp_recv_acts : ℕ → List Act
scp_recv_acts channel = take_session ∷ take_limit channel ∷ free_limit channel ∷ free_session ∷ []

-- `Drop for SftpInnerDropWrapper`, if the reference that goes is the last one.
abbrev pub release_acts : Bool → List Act
release_acts true = session_acts
release_acts false = []

-- `File::close`: the guard is freed before `self.inner` is.
abbrev pub close_acts : Bool → List Act
close_acts last = session_acts ++ release_acts last

-- `Drop for File`: the guard is a local of the block, `file_inner` is bound outside of it.
abbrev pub drop_file_acts : Bool → List Act
drop_file_acts last = session_acts ++ release_acts last

-- `Seek for File` with `SeekFrom::Current` or `SeekFrom::End`, which lock twice.
abbrev pub seek_acts : List Act
seek_acts = session_acts ++ session_acts

-- `Session::userauth_keyboard_interactive`: the prompter runs while the session is held. It is code of
-- the user of the crate, with whatever it locks and frees by calls of its own.
abbrev pub interaction_acts : List Act → List Act
interaction_acts prompter = take_session ∷ (prompter ++ (free_session ∷ []))

-- The calls of the crate by what they lock; `interacts` with what its prompter does. `unlocked` are those that
-- lock nothing: the drops of `ChannelInner` and `Agent`, `KnownHosts::check_port_`, and the
-- constructors.
pub data Call : Type 0 where
  unlocked locks_session seeks : Call
  streams tests_eof receives : ℕ → Call
  closes_file drops_file drops_sftp : Bool → Call
  interacts : List Act → Call

unfoldable pub acts_of : Call → List Act
acts_of unlocked = []
acts_of locks_session = session_acts
acts_of seeks = seek_acts
acts_of (streams channel) = stream_acts channel
acts_of (tests_eof channel) = eof_acts channel
acts_of (receives channel) = scp_recv_acts channel
acts_of (closes_file last) = close_acts last
acts_of (drops_file last) = drop_file_acts last
acts_of (drops_sftp last) = release_acts last
acts_of (interacts prompter) = interaction_acts prompter

-- What a thread does in the calls that it makes one after the other.
unfoldable pub acts_of_all : List Call → List Act
unfolding acts_of
acts_of_all [] = []
acts_of_all (c ∷ calls) = acts_of c ++ acts_of_all calls

-- The prompters of these calls lock nothing: they leave the session and what was made from it alone.
abbrev pub Quiet : Call → Type 0
Quiet (interacts prompter) = prompter ≡ []
Quiet _ = Unit

-- Whether a thread holds the session, the limit that it holds, and what it has still to do.
pub record Thread : Type 0 where
  pub session : Bool
  pub limit : Option ℕ
  pub rest : List Act

abbrev pub begin : List Call → Thread
begin calls = record { session = false; limit = none; rest = acts_of_all calls }

-- A thread after its next act.
abbrev pub acted : Act → List Act → Thread → Thread
acted take_session rest t = record t { session = true; rest = rest }
acted free_session rest t = record t { session = false; rest = rest }
acted (take_limit c) rest t = record t { limit = some c; rest = rest }
acted (free_limit c) rest t = record t { limit = none; rest = rest }

-- A mutex can be taken if no thread holds it, the thread itself included.
abbrev pub Free : Act → List Thread → Type 0
Free take_session threads = All (λ t. t.session ≡ false) threads
Free (take_limit c) threads = All (λ t. t.limit ≢ some c) threads
Free free_session threads = Unit
Free (free_limit c) threads = Unit

-- One thread of all of them does its next act.
pub data Step (before : List Thread) (t : Thread) (after : List Thread)
    : List Thread → List Thread → Type 0 where
  acts :
      {a : Act} {rest : List Act}
      → t.rest ≡ a ∷ rest
      → Free a (before ++ (t ∷ after))
      → Step before t after (before ++ (t ∷ after)) (before ++ (acted a rest t ∷ after))

pub data Reach (start : List Thread) : List Thread → Type 0 where
  here : Reach start start
  later :
      {ts ts' : List Thread} {before after : List Thread} {t : Thread}
      → Reach start ts
      → Step before t after ts ts'
      → Reach start ts'
