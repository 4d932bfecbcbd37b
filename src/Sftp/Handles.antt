-- ===== src/Sftp/Handles.antt =====
-- src/sftp.rs: who holds the SFTP subsystem, and when it is shut down. `Sftp` and every open `File`
-- hold a counted reference (`Arc`) to one `SftpInnerDropWrapper`, which is shut down when it is
-- dropped with the last of them, or early by `Sftp::shutdown`.
use ssh2_rs.Base.{
  ℕ, suc, ◌-◌, Bool, true, false, Option, none, some, List, [], ◌∷◌, ◌==◌, if◌then◌else◌,
}
use ssh2_rs.Base.Int.{ℤ, pos, is_set}
use ssh2_rs.Base.Text.{Bytes}
use ssh2_rs.Sys.{error_bad_use}
use ssh2_rs.Errors.{
  Error, unknown, from_errno, strict_rc, Result, ok, err, panic, Call, pure, fail, abort, lift,
  ◌>>=◌,
}
use ssh2_rs.Errors.Session.{rc, last_error_raw}
use ssh2_rs.Paths.{path2bytes}
use ssh2_rs.Paths.Slices.{c_slice}
use ssh2_rs.Sftp.Raw.{Api}

-- One SFTP subsystem: whether `Sftp::inner` is still there, how many references to the wrapper
-- there are, the raw pointer in the wrapper, and the raw handle of each `File` whose `inner` is
-- there, by a name for the object.
pub record World (S : Type 0) : Type 0 where
  pub held : Bool
  pub strong : ℕ
  pub wrapped : Option ℕ
  pub files : List (ℕ × ℕ)
  pub lib : S

-- `Sftp::from_raw_opt`.
unfoldable pub from_raw_opt : {S : Type 0} → Option ℕ → Option Error → S → Result (World S)
from_raw_opt none none s = err unknown
from_raw_opt none (some e) s = err e
from_raw_opt (some p) e s =
    ok (record { held = true; strong = 1; wrapped = some p; files = []; lib = s })

abbrev pub find : ℕ → List (ℕ × ℕ) → Option ℕ
find name [] = none
find name ((n, h) ∷ files) = if n == name then some h else find name files

abbrev pub remove : ℕ → List (ℕ × ℕ) → List (ℕ × ℕ)
remove name [] = []
remove name ((n, h) ∷ files) = if n == name then files else (n, h) ∷ remove name files

module _ {S : Type 0} (api : Api S) where
  abbrev pub on_lib : {A : Type 0} → (S → A × S) → Call (World S) A
  on_lib f w = let (a, s) = f w.lib in (ok a, record w { lib = s })

  -- `locked.sess.rc(n)`.
  abbrev pub sess_rc : ℤ → Call (World S) (Unit {0})
  sess_rc n w = let (r, s) = rc api.session n w.lib in (r, record w { lib = s })

  -- `locked.sess.rc(call)`.
  abbrev pub checked : (S → ℤ × S) → Call (World S) (Unit {0})
  checked f = on_lib f >>= sess_rc

  -- `Error::from_errno(LIBSSH2_ERROR_BAD_USE)`.
  abbrev pub bad_use : {A : Type 0} → Call (World S) A
  bad_use = fail (from_errno error_bad_use)

  unfoldable pub locked : Bool → Option ℕ → Call (World S) ℕ
  locked false wrapped = bad_use
  locked true none = abort
  locked true (some sftp) = pure sftp

  -- `Sftp::lock`: the raw pointer of the subsystem.
  unfoldable pub lock : Call (World S) ℕ
  unfolding locked
  lock w = locked w.held w.wrapped w

  unfoldable pub locked_file : Option ℕ → Option ℕ → Call (World S) ℕ
  locked_file none wrapped = bad_use
  locked_file (some h) none = abort
  locked_file (some h) (some sftp) = pure h

  -- `File::lock`: the raw handle of a file.
  unfoldable pub lock_file : ℕ → Call (World S) ℕ
  unfolding locked_file
  lock_file name w = locked_file (find name w.files) w.wrapped w

  -- `Drop for SftpInnerDropWrapper`: shut down while blocking, and restore the blocking mode.
  unfoldable pub shut_down_blocking : ℕ → S → S
  shut_down_blocking sftp s =
      let was = if is_set (api.session.get_blocking s) then pos 1 else pos 0 in
      let s' = api.session.set_blocking (pos 1) s in
      api.session.set_blocking was (api.shutdown sftp s').1

  unfoldable pub drop_wrapper : Option ℕ → World S → World S
  unfolding shut_down_blocking
  drop_wrapper none w = w
  drop_wrapper (some sftp) w = record w { wrapped = none; lib = shut_down_blocking sftp w.lib }

  -- One reference less; the last one drops the wrapper.
  unfoldable pub release : World S → World S
  unfolding drop_wrapper
  release w =
      if w.strong == 1
      then drop_wrapper w.wrapped (record w { strong = 0 })
      else record w { strong = w.strong - 1 }

  unfoldable pub opened : ℕ → Option ℕ → Call (World S) (Unit {0})
  opened name none w = elim (last_error_raw api.session w.lib) [
    | none ↦ (err unknown, w)
    | some e ↦ (err e, w)
  ]
  opened name (some h) w = elim w.held [
    | true ↦ (ok tt, record w { files = (name, h) ∷ w.files; strong = suc w.strong })
    | false ↦ (panic, w)
  ]

  abbrev pub open_locked : ℕ → Bytes → ℕ → ℤ → ℤ → ℕ → Call (World S) (Unit {0})
  open_locked name filename flags mode open_type sftp = do
    ret ← on_lib (api.open_ex sftp (c_slice filename) flags mode open_type)
    opened name ret

  -- `Sftp::open_mode`: the file object that it makes is `name`.
  unfoldable pub open_mode : ℕ → Bytes → ℕ → ℤ → ℤ → Call (World S) (Unit {0})
  open_mode name path flags mode open_type = do
    filename ← lift (path2bytes path)
    sftp ← lock
    open_locked name filename flags mode open_type sftp

  unfoldable pub try_unwrap : Bool → Option ℕ → Call (World S) (Unit {0})
  try_unwrap false wrapped w = (err (from_errno error_bad_use), record w { held = true })
  try_unwrap true none w = (panic, record w { strong = 0 })
  try_unwrap true (some sftp) w =
      checked (api.shutdown sftp) (record w { strong = 0; wrapped = none })

  unfoldable pub taken : Bool → Call (World S) (Unit {0})
  unfolding try_unwrap
  taken false w = (err (from_errno error_bad_use), w)
  taken true w = try_unwrap (w.strong == 1) w.wrapped (record w { held = false })

  -- `Sftp::shutdown`: `Arc::try_unwrap` succeeds for the only reference.
  unfoldable pub shutdown : Call (World S) (Unit {0})
  unfolding taken rc
  shutdown w = taken w.held w

  -- `self.inner = None` of a file.
  abbrev pub forget : ℕ → World S → World S
  forget name w = release (record w { files = remove name w.files })

  unfoldable pub closed : ℕ → Result (Unit {0}) → Call (World S) (Unit {0})
  closed name (ok u) w = (ok tt, forget name w)
  closed name (err e) w = (err e, w)
  closed name panic w = (panic, w)

  abbrev pub close_locked : ℕ → ℕ → Call (World S) (Unit {0})
  close_locked name h = do n ← on_lib (api.close_handle h); closed name (strict_rc n)

  -- `File::close`: only the code 0 closes the file.
  unfoldable pub close : ℕ → Call (World S) (Unit {0})
  close name = do h ← lock_file name; close_locked name h

  -- The body of `Drop for File`: close while blocking, and restore the blocking mode.
  unfoldable pub close_blocking : ℕ → S → S
  close_blocking h s =
      let was = if is_set (api.session.get_blocking s) then pos 1 else pos 0 in
      let s' = api.session.set_blocking (pos 1) s in
      api.session.set_blocking was (api.close_handle h s').1

  unfoldable pub dropped : ℕ → Option ℕ → Option ℕ → Call (World S) (Unit {0})
  dropped name none wrapped w = (ok tt, w)
  dropped name (some h) none w = (panic, w)
  dropped name (some h) (some sftp) w =
      (ok tt, forget name (record w { lib = close_blocking h w.lib }))

  -- `Drop for File`.
  unfoldable pub drop_file : ℕ → Call (World S) (Unit {0})
  drop_file name w = dropped name (find name w.files) w.wrapped w

  unfoldable pub dropped_sftp : Bool → World S → World S
  dropped_sftp false w = w
  dropped_sftp true w = release (record w { held = false })

  -- What happens to the references when an `Sftp` goes out of scope.
  unfoldable pub drop_sftp : Call (World S) (Unit {0})
  drop_sftp w = (ok tt, dropped_sftp w.held w)

  -- A call that only needs the subsystem or a file to be there, such as `Sftp::mkdir`.
  unfoldable pub use_sftp : (ℕ → S → ℤ × S) → Call (World S) (Unit {0})
  use_sftp f = do sftp ← lock; checked (f sftp)

  unfoldable pub use_file : ℕ → (ℕ → S → ℤ × S) → Call (World S) (Unit {0})
  use_file name f = do h ← lock_file name; checked (f h)

-- What a program may do with the subsystem and its files, in any order.
pub data Op (S : Type 0) : Type 0 where
  opens : ℕ → Bytes → ℕ → ℤ → ℤ → Op S
  closes drops : ℕ → Op S
  shuts_down drops_sftp : Op S
  uses : (ℕ → S → ℤ × S) → Op S
  uses_file : ℕ → (ℕ → S → ℤ × S) → Op S

module _ {S : Type 0} (api : Api S) where
  unfoldable pub step : Op S → Call (World S) (Unit {0})
  step (opens name path flags mode open_type) = open_mode api name path flags mode open_type
  step (closes name) = close api name
  step (drops name) = drop_file api name
  step shuts_down = shutdown api
  step drops_sftp = drop_sftp api
  step (uses f) = use_sftp api f
  step (uses_file name f) = use_file api name f
