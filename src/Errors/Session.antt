-- ===== src/Errors/Session.antt =====
-- src/error.rs, `last_error_raw`, `from_session_error_raw` and `make_error_message`, and
-- src/session.rs, `SessionInner::rc`.
use ssh2_rs.Base.{Option, none, some, if◌then◌else◌}
use ssh2_rs.Base.Int.{ℤ, pos, is_nonneg, ◌==ℤ◌}
use ssh2_rs.Base.Text.{Bytes, from_utf8}
use ssh2_rs.Errors.Monad.{Message, borrowed, owned, Error, from_errno, ok, err, Call}

-- What the crate asks of a libssh2 session: the code of its last error, 0 for none, with the
-- message, a null pointer as `none`; and its blocking flag. Asking changes nothing.
pub record Session (S : Type 0) : Type 0 where
  pub last_error : S → ℤ × Option Bytes
  pub get_blocking : S → ℤ
  pub set_blocking : ℤ → S → S

-- `make_error_message`.
unfoldable pub make_error_message : Option Bytes → Message
unfolding from_utf8
make_error_message none = borrowed "<failed to fetch the error message>"
make_error_message (some msg) = elim (from_utf8 msg) [
  | none ↦ borrowed "<failed to fetch the error message>"
  | some text ↦ owned text
]

module _ {S : Type 0} (session : Session S) where
  -- `Error::last_error_raw`, which is also `SessionInner::last_error` and `Error::last_error`.
  unfoldable pub last_error_raw : S → Option Error
  unfolding make_error_message
  last_error_raw s =
      let (rc, msg) = session.last_error s in
      if rc ==ℤ pos 0 then none else some (record { code = rc; msg = make_error_message msg })

  -- `Error::from_session_error_raw`, and `Error::from_session_error`.
  unfoldable pub from_session_error_raw : ℤ → S → Error
  unfolding make_error_message from_errno
  from_session_error_raw rc s =
      let (res, msg) = session.last_error s in
      if res ==ℤ rc then record { code = rc; msg = make_error_message msg } else from_errno rc

  -- `SessionInner::rc`.
  unfoldable pub rc : ℤ → Call S (Unit {0})
  rc n s = (if is_nonneg n then ok tt else err (from_session_error_raw n s), s)
