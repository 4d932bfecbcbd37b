-- ===== src/Session/Inner.antt =====
-- src/session.rs: `SessionInner` beside `rc`, the blocking mode and the stream of a `Session`, and
-- what `ScpFileStat` reads from a mode.
use ssh2_rs.Base.{ℕ, Bool, Option, none, some, bit_and, ◌==◌}
use ssh2_rs.Base.Int.{ℤ, is_set, as_u32}
use ssh2_rs.Errors.{Error, Result, ok, panic}
use ssh2_rs.Errors.Session.{Session, last_error_raw}
use ssh2_rs.Session.{flag_of}
use ssh2_rs.Session.Open.{ScpFileStat, mode}

module _ {S : Type 0} (session : Session S) where
  -- `SessionInner::last_error`.
  unfoldable pub last_error : S → Option Error
  unfolding last_error_raw
  last_error s = last_error_raw session s

  -- `SessionInner::set_blocking`, and `Session::set_blocking`.
  unfoldable pub set_blocking : Bool → S → S
  set_blocking blocking s = session.set_blocking (flag_of blocking) s

  -- `SessionInner::is_blocking`, and `Session::is_blocking`.
  unfoldable pub is_blocking : S → Bool
  is_blocking s = is_set (session.get_blocking s)

-- `Drop for SessionInner`: what `libssh2_session_free` answers is ignored.
unfoldable pub drop : {S : Type 0} → (S → ℤ × S) → S → S
drop session_free s = (session_free s).1

-- `AsRawFd` and `AsRawSocket`, for the stream of the session by its descriptor.
unfoldable pub as_raw_fd : Option ℕ → Result ℕ
as_raw_fd none = panic
as_raw_fd (some fd) = ok fd

-- The constants of the crate `libc`.
pub record Modes : Type 0 where
  pub s_ifmt : ℕ
  pub s_ifdir : ℕ
  pub s_ifreg : ℕ

module _ (libc : Modes) where
  abbrev pub is : ScpFileStat → ℕ → Bool
  is f kind = bit_and (as_u32 (mode f)) libc.s_ifmt == kind

  unfoldable pub is_dir : ScpFileStat → Bool
  unfolding mode
  is_dir f = is f libc.s_ifdir

  unfoldable pub is_file : ScpFileStat → Bool
  unfolding mode
  is_file f = is f libc.s_ifreg
