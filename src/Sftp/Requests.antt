-- ===== src/Sftp/Requests.antt =====
-- src/sftp.rs: the calls of `Sftp` on a path, and those of `File` but for `seek` and `readdir`.
use ssh2_rs.Base.{ℕ, bit_or, Option, none, some, List}
use ssh2_rs.Sftp.OpenType.{OpenType, code}
use ssh2_rs.Sys.{sftp_stat, sftp_lstat, sftp_setstat}
use ssh2_rs.Base.Int.{ℤ, pos, negsuc, as_c_int, as_u64}
use ssh2_rs.Base.Text.{Bytes}
use ssh2_rs.Errors.{ok, err, Call, pure, lift, ◌>>=◌, ◌>>◌}
use ssh2_rs.Errors.Session.{from_session_error_raw}
use ssh2_rs.Paths.{path2bytes}
use ssh2_rs.Paths.Slices.{c_slice}
use ssh2_rs.Sftp.OpenFlags as OpenFlags
use ssh2_rs.Sftp.RenameFlags as RenameFlags
use ssh2_rs.Sftp.Raw.{Api}
use ssh2_rs.Sftp.Stat.{Attributes, FileStat, from_raw, raw}
use ssh2_rs.Sftp.Handles.{World, on_lib, sess_rc, checked, lock, lock_file, open_mode}

-- `mem::zeroed()`.
abbrev pub zeroed : Attributes
zeroed = record { flags = 0; filesize = 0; uid = 0; gid = 0; permissions = 0; atime = 0; mtime = 0 }

-- `unwrap_or` of the flags of a rename.
abbrev pub or_all : Option ℕ → ℕ
or_all none = bit_or (bit_or RenameFlags.atomic RenameFlags.overwrite) RenameFlags.native
or_all (some flags) = flags

module _ {S : Type 0} (api : Api S) where
  -- `Sftp::open`, `Sftp::create` and `Sftp::opendir`; `OpenType::File` is 0 and `OpenType::Dir` 1.
  unfoldable pub open_file : ℕ → Bytes → Call (World S) (Unit {0})
  open_file name filename =
      open_mode api name filename OpenFlags.read (pos 0o644) (code OpenType.file)

  unfoldable pub create : ℕ → Bytes → Call (World S) (Unit {0})
  create name filename =
      open_mode api name filename (bit_or OpenFlags.write OpenFlags.truncate) (pos 0o644)
        (code OpenType.file)

  unfoldable pub opendir : ℕ → Bytes → Call (World S) (Unit {0})
  opendir name dirname = open_mode api name dirname OpenFlags.read (pos 0) (code OpenType.dir)

  -- A call that answers with attributes.
  abbrev pub attributes : (S → (ℤ × Attributes) × S) → Call (World S) FileStat
  attributes f = do (n, ret) ← on_lib api f; sess_rc api n; pure (from_raw ret)

  abbrev code_of : (S → (ℤ × Attributes) × S) → S → ℤ × S
  code_of f s = let ((n, ret), s') = f s in (n, s')

  unfoldable pub mkdir : Bytes → ℤ → Call (World S) (Unit {0})
  mkdir filename mode = do
    path ← lift (path2bytes filename)
    sftp ← lock api
    checked api (api.mkdir_ex sftp (c_slice path) mode)

  unfoldable pub rmdir : Bytes → Call (World S) (Unit {0})
  rmdir filename = do
    path ← lift (path2bytes filename)
    sftp ← lock api
    checked api (api.rmdir_ex sftp (c_slice path))

  -- LIBSSH2_SFTP_STAT is 0, LSTAT 1 and SETSTAT 2.
  unfoldable pub stat : Bytes → Call (World S) FileStat
  stat filename = do
    path ← lift (path2bytes filename)
    sftp ← lock api
    attributes (api.stat_ex sftp (c_slice path) sftp_stat zeroed)

  unfoldable pub lstat : Bytes → Call (World S) FileStat
  lstat filename = do
    path ← lift (path2bytes filename)
    sftp ← lock api
    attributes (api.stat_ex sftp (c_slice path) sftp_lstat zeroed)

  unfoldable pub setstat : Bytes → FileStat → Call (World S) (Unit {0})
  setstat filename st = do
    path ← lift (path2bytes filename)
    sftp ← lock api
    checked api (code_of (api.stat_ex sftp (c_slice path) sftp_setstat (raw st)))

  unfoldable pub symlink : Bytes → Bytes → Call (World S) (Unit {0})
  symlink path target = do
    p ← lift (path2bytes path)
    t ← lift (path2bytes target)
    sftp ← lock api
    checked api (api.symlink sftp (c_slice p) (c_slice t))

  unfoldable pub rename : Bytes → Bytes → Option ℕ → Call (World S) (Unit {0})
  rename src dst flags = do
    from ← lift (path2bytes src)
    to ← lift (path2bytes dst)
    sftp ← lock api
    checked api (api.rename_ex sftp (c_slice from) (c_slice to) (or_all flags))

  unfoldable pub unlink : Bytes → Call (World S) (Unit {0})
  unlink file = do
    path ← lift (path2bytes file)
    sftp ← lock api
    checked api (api.unlink_ex sftp (c_slice path))

  unfoldable pub file_setstat : ℕ → FileStat → Call (World S) (Unit {0})
  file_setstat name st = do
    h ← lock_file api name
    checked api (code_of (api.fstat_ex h (raw st) (pos 1)))

  unfoldable pub file_stat : ℕ → Call (World S) FileStat
  file_stat name = do h ← lock_file api name; attributes (api.fstat_ex h zeroed (pos 0))

  -- The numbers of LIBSSH2_SFTP_STATVFS.
  unfoldable pub statvfs : ℕ → Call (World S) (List ℕ)
  statvfs name = do
    h ← lock_file api name
    (n, ret) ← on_lib api (api.fstatvfs h)
    sess_rc api n
    pure ret

  unfoldable pub fsync : ℕ → Call (World S) (Unit {0})
  fsync name = do h ← lock_file api name; checked api (api.fsync h)

  -- A count, or an error by the sign: `rc as usize` and `rc as _`.
  unfoldable pub count : ℤ → Call (World S) ℕ
  count (pos n) w = (ok (as_u64 (pos n)), w)
  count (negsuc k) w = (err (from_session_error_raw api.session (as_c_int (negsuc k)) w.lib), w)

  abbrev pub read_locked : ℕ → ℕ → Call (World S) (ℕ × Bytes)
  read_locked len h = do
    (rc, written) ← on_lib api (api.read h len)
    n ← count rc
    pure (n, written)

  -- `Read for File`: the count, and the bytes at the start of a buffer of `len` bytes.
  unfoldable pub read : ℕ → ℕ → Call (World S) (ℕ × Bytes)
  unfolding count
  read name len = do h ← lock_file api name; read_locked len h

  abbrev pub write_locked : Bytes → ℕ → Call (World S) ℕ
  write_locked buf h = do rc ← on_lib api (api.write h buf); count rc

  -- `Write for File`.
  unfoldable pub write : ℕ → Bytes → Call (World S) ℕ
  unfolding count
  write name buf = do h ← lock_file api name; write_locked buf h

  unfoldable pub flush : ℕ → Call (World S) (Unit {0})
  flush name = pure tt
