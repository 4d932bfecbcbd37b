-- ===== src/Errors/Monad.antt =====
-- The `Error` struct with its constructors, and calls that return `Result<_, Error>` on a session.
use ssh2_rs.Base.{Option, none, some, String, ◌^◌, ◌-◌, if◌then◌else◌}
use ssh2_rs.Base.Int.{ℤ, pos, negsuc, ◌==ℤ◌}
use ssh2_rs.Base.Text.{Bytes, has_nul}
use ssh2_rs.Sys.{error_channel_eof_sent, error_eagain, error_timeout, error_inval}
use ssh2_rs.Errors.Messages.{errno_message}

-- `Cow<'static, str>`.
pub data Message : Type 0 where
  borrowed : String → Message
  owned : Bytes → Message

pub record Error : Type 0 where
  pub code : ℤ
  pub msg : Message

-- `Error::new`.
abbrev pub new : ℤ → String → Error
new code msg = record { code = code; msg = borrowed msg }

-- `Error::eof`.
unfoldable pub eof : Error
eof = new error_channel_eof_sent "end of file"

-- `Error::unknown`: the code is the least c_int.
unfoldable pub unknown : Error
unknown = new (negsuc (2 ^ 31 - 1)) "no other error listed"

-- `Error::from_errno`.
unfoldable pub from_errno : ℤ → Error
from_errno code = new code (errno_message code)

-- `From<NulError> for Error`.
unfoldable pub nul_error : Error
nul_error = new error_inval "provided data contained a nul byte and could not be used as as string"

-- `Result<A, Error>`, or a panic.
pub data Result (A : Type 0) : Type 0 where
  ok : A → Result A
  err : Error → Result A
  panic : Result A

-- `Error::rc`, for a call whose only success is 0.
unfoldable pub strict_rc : ℤ → Result (Unit {0})
unfolding from_errno
strict_rc rc = if rc ==ℤ pos 0 then ok tt else err (from_errno rc)

-- The kinds of `io::Error` that the crate makes.
pub data ErrorKind : Type 0 where
  would_block timed_out other : ErrorKind

-- `From<Error> for io::Error`: the kind; the message is kept.
unfoldable pub error_kind : Error → ErrorKind
error_kind e =
    if e.code ==ℤ error_eagain
    then would_block
    else if e.code ==ℤ error_timeout
    then timed_out
    else other

-- A call: it may change the state of libssh2, also when it fails.
abbrev pub Call : Type 0 → Type 0 → Type 0
Call S A = S → Result A × S

module _ {S : Type 0} where
  abbrev pub pure : {A : Type 0} → A → Call S A
  pure a s = (ok a, s)

  abbrev pub fail : {A : Type 0} → Error → Call S A
  fail e s = (err e, s)

  abbrev pub abort : {A : Type 0} → Call S A
  abort s = (panic, s)

  -- A call of libssh2 that gives back a value.
  abbrev pub raw : {A : Type 0} → (S → A × S) → Call S A
  raw f s = let (a, s') = f s in (ok a, s')

  -- A value that was computed without the session, such as a checked path.
  abbrev pub lift : {A : Type 0} → Result A → Call S A
  lift r s = (r, s)

  infixl 5 ◌>>=◌ ◌>>◌
  abbrev pub ◌>>=◌ : {A B : Type 0} → Call S A → (A → Call S B) → Call S B
  ◌>>=◌ m f s =
      let (r, s') = m s in elim r [ ok a ↦ f a s' | err e ↦ (err e, s') | panic ↦ (panic, s') ]

  abbrev pub ◌>>◌ : {B : Type 0} → Call S (Unit {0}) → Call S B → Call S B
  m >> k = m >>= λ _. k

  -- `option.unwrap()`, `option.expect(...)`.
  abbrev pub unwrap : {A : Type 0} → Option A → Call S A
  unwrap none = abort
  unwrap (some a) = pure a

  -- `option.ok_or_else(|| e)?`.
  abbrev pub ok_or : {A : Type 0} → Option A → Error → Call S A
  ok_or none e = fail e
  ok_or (some a) e = pure a

-- `CString::new(bytes)`, its error turned into the crate's.
unfoldable pub c_string : Bytes → Result Bytes
unfolding nul_error
c_string b = if has_nul b then err nul_error else ok b
