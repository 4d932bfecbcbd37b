-- ===== src/Sftp/Buffers.antt =====
-- src/sftp.rs, `readlink_op` and `File::readdir`: libssh2 writes a name into a buffer, and the code
-- tries again with a larger one where it says BUFFER_TOO_SMALL. Such a loop takes fuel, and `none`
-- means that the fuel ran out.
use ssh2_rs.Base.{ℕ, zero, suc, ◌*◌, Option, none, some, leb, take, if◌then◌else◌}
use ssh2_rs.Base.Int.{ℤ, pos, negsuc, ◌==ℤ◌}
use ssh2_rs.Paths.{mkpath}
use ssh2_rs.Base.Text.{Bytes}
use ssh2_rs.Paths.Slices.{c_slice}
use ssh2_rs.Sys.{error_buffer_too_small, error_file}
use ssh2_rs.Errors.{new, Result, ok, err}
use ssh2_rs.Errors.Session.{from_session_error_raw}
use ssh2_rs.Sftp.Raw.{Api}
use ssh2_rs.Sftp.Stat.{Attributes, FileStat, from_raw}

-- `Vec::reserve(additional)` of a vector of length 0: nothing happens if the capacity is enough,
-- and else it at least doubles.
unfoldable pub reserve : ℕ → ℕ → ℕ
reserve cap additional =
    if leb additional cap then cap else if leb (2 * cap) additional then additional else 2 * cap

-- Both loops begin with `Vec::with_capacity(128)`.
abbrev pub initial_capacity : ℕ
initial_capacity = 128

module _ {S : Type 0} (api : Api S) where
  -- The loop of `readlink_op`; `op` is READLINK or REALPATH.
  unfoldable pub readlink_loop : ℕ → ℕ → Bytes → ℤ → ℕ → S → Option ((ℤ × Bytes) × S)
  unfolding reserve
  readlink_loop zero sftp path op cap s = none
  readlink_loop (suc fuel) sftp path op cap s =
      let ((rc, buffer), s') = api.symlink_ex sftp (c_slice path) cap op s in
      let again = readlink_loop fuel sftp path op (reserve cap cap) s' in
      if rc ==ℤ error_buffer_too_small then again else some ((rc, buffer), s')

  -- What follows the loop: `ret.set_len(rc as usize)`, and `mkpath`.
  unfoldable pub readlink_result : (ℤ × Bytes) × S → Result Bytes × S
  readlink_result ((negsuc k, buffer), s) =
      (err (from_session_error_raw api.session (negsuc k) s), s)
  readlink_result ((pos n, buffer), s) = (ok (mkpath (take n buffer)), s)

  -- `Sftp::readlink_op`, once the path is checked and the session locked.
  unfoldable pub readlink_op : ℕ → ℕ → Bytes → ℤ → S → Option (Result Bytes × S)
  unfolding readlink_loop readlink_result
  readlink_op fuel sftp path op s = elim (readlink_loop fuel sftp path op initial_capacity s) [
    | none ↦ none
    | some o ↦ some (readlink_result o)
  ]

  -- The loop of `File::readdir`.
  unfoldable pub readdir_loop : ℕ → ℕ → ℕ → S → Option ((ℤ × Bytes × Attributes) × S)
  unfolding reserve
  readdir_loop zero handle cap s = none
  readdir_loop (suc fuel) handle cap s =
      let ((rc, buffer, stat), s') = api.readdir_ex handle cap s in
      let again = readdir_loop fuel handle (reserve cap cap) s' in
      if rc ==ℤ error_buffer_too_small then again else some ((rc, buffer, stat), s')

  unfoldable pub readdir_result : (ℤ × Bytes × Attributes) × S → Result (Bytes × FileStat) × S
  readdir_result ((negsuc k, buffer, stat), s) =
      (err (from_session_error_raw api.session (negsuc k) s), s)
  readdir_result ((pos zero, buffer, stat), s) = (err (new error_file "no more files"), s)
  readdir_result ((pos (suc n), buffer, stat), s) =
      (ok (mkpath (take (suc n) buffer), from_raw stat), s)

  -- `File::readdir`, once the session is locked.
  unfoldable pub readdir : ℕ → ℕ → S → Option (Result (Bytes × FileStat) × S)
  unfolding readdir_loop readdir_result
  readdir fuel handle s = elim (readdir_loop fuel handle initial_capacity s) [
    | none ↦ none
    | some o ↦ some (readdir_result o)
  ]
