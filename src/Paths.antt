-- ===== src/Paths.antt =====
-- src/util.rs: the bytes of a path that are handed to libssh2, and the way back of src/sftp.rs.
pub mod Laws
pub mod Arguments
pub mod Slices
mod Tests
use ssh2_rs.Base.{ℕ, Bool, Option, none, some, List, [], ◌∷◌, map, any, ◌==◌, if◌then◌else◌}
use ssh2_rs.Base.Text.{Bytes, has_nul, is_utf8}
use ssh2_rs.Sys.{error_inval}
use ssh2_rs.Errors.{Result, ok, err, panic, Error, new}

unfoldable pub check : Bytes → Result Bytes
unfolding has_nul
check b = if has_nul b then err (new error_inval "path provided contains a 0 byte") else ok b

-- On Unix: a path is its bytes.
unfoldable pub path2bytes : Bytes → Result Bytes
unfolding check
path2bytes p = check p

-- One turn of the loop that makes the separators Unix-style.
abbrev pub to_slash : ℕ → ℕ
to_slash b = if b == b'\\' then b'/' else b

-- On Windows: from `p.to_str()`, which is `none` for a path that is not unicode.
unfoldable pub path2bytes_windows : Option Bytes → Result Bytes
unfolding check
path2bytes_windows none = err (new error_inval "only unicode paths on windows may be used")
path2bytes_windows (some p) = check (if any (λ b. b == b'\\') p then map to_slash p else p)

-- `mkpath` of src/sftp.rs, on Unix: the path of the bytes that libssh2 gives.
abbrev pub mkpath : Bytes → Bytes
mkpath v = v

-- `mkpath` on Windows: `str::from_utf8(&v).unwrap()`.
unfoldable mkpath_windows : Bytes → Result Bytes
mkpath_windows v = if is_utf8 v then ok v else panic
