-- ===== src/Sftp/PathLaws.antt =====
-- The calls of `Sftp` on paths that answer with a code, src/sftp.rs.
use ssh2_rs.Base.{ℕ, ◌^◌, ◌≡◌, true, false, Option, none, some, List, [], ◌∷◌, arith, if◌then◌else◌}
use ssh2_rs.Base.Int.{ℤ, is_nonneg}
use ssh2_rs.Base.Text.{Bytes}
use ssh2_rs.Sys.{error_bad_use, sftp_stat, sftp_lstat, sftp_setstat}
use ssh2_rs.Errors.{Result, ok, err, panic, from_errno}
use ssh2_rs.Errors.Session.{from_session_error_raw, rc}
use ssh2_rs.Paths.{path2bytes, check}
use ssh2_rs.Paths.Arguments.{Argument, path, unless_refused}
use ssh2_rs.Paths.Slices.{AllBelow, lengths, slice_whole}
use ssh2_rs.Sftp.Raw.{Api}
use ssh2_rs.Sftp.Stat.{Attributes, FileStat, from_raw, raw}
use ssh2_rs.Sftp.Handles.{World, lock, locked}
use ssh2_rs.Sftp.Requests.{
  mkdir, rmdir, stat, lstat, setstat, symlink, rename, unlink, zeroed, or_all,
}

pub data Request : Type 0 where
  makes_dir : Bytes → ℤ → Request
  removes_dir stats stats_link unlinks : Bytes → Request
  sets : Bytes → FileStat → Request
  links : Bytes → Bytes → Request
  renames : Bytes → Bytes → Option ℕ → Request

-- What a request answers with, besides success.
abbrev pub answer :
    {S A : Type 0} → (A → Option FileStat) → Result A × S → Result (Option FileStat) × S
answer f (ok a, s) = (ok (f a), s)
answer f (err e, s) = (err e, s)
answer f (panic, s) = (panic, s)

-- The paths, in the order in which they are looked at.
abbrev pub paths : Request → List Argument
paths (makes_dir p mode) = path p ∷ []
paths (removes_dir p) = path p ∷ []
paths (stats p) = path p ∷ []
paths (stats_link p) = path p ∷ []
paths (unlinks p) = path p ∷ []
paths (sets p st) = path p ∷ []
paths (links p target) = path p ∷ path target ∷ []
paths (renames src dst flags) = path src ∷ path dst ∷ []

-- Their bytes.
abbrev pub texts : Request → List Bytes
texts (makes_dir p mode) = p ∷ []
texts (removes_dir p) = p ∷ []
texts (stats p) = p ∷ []
texts (stats_link p) = p ∷ []
texts (unlinks p) = p ∷ []
texts (sets p st) = p ∷ []
texts (links p target) = p ∷ target ∷ []
texts (renames src dst flags) = src ∷ dst ∷ []

-- A code, without attributes and with them.
abbrev pub code_only : {S : Type 0} → ℤ × S → (ℤ × Option FileStat) × S
code_only (n, s) = ((n, none), s)

abbrev pub without_attributes : {S : Type 0} → (ℤ × Attributes) × S → (ℤ × Option FileStat) × S
without_attributes ((n, ret), s) = ((n, none), s)

abbrev pub with_attributes : {S : Type 0} → (ℤ × Attributes) × S → (ℤ × Option FileStat) × S
with_attributes ((n, ret), s) = ((n, some (from_raw ret)), s)

module _ {S : Type 0} (api : Api S) where
  abbrev pub request : Request → World S → Result (Option FileStat) × World S
  request (makes_dir p mode) w = answer (λ _. none) (mkdir api p mode w)
  request (removes_dir p) w = answer (λ _. none) (rmdir api p w)
  request (stats p) w = answer some (stat api p w)
  request (stats_link p) w = answer some (lstat api p w)
  request (unlinks p) w = answer (λ _. none) (unlink api p w)
  request (sets p st) w = answer (λ _. none) (setstat api p st w)
  request (links p target) w = answer (λ _. none) (symlink api p target w)
  request (renames src dst flags) w = answer (λ _. none) (rename api src dst flags w)

  -- What libssh2 is asked, with the bytes of the paths as they are.
  abbrev pub asked : Request → ℕ → S → (ℤ × Option FileStat) × S
  asked (makes_dir p mode) sftp s = code_only (api.mkdir_ex sftp p mode s)
  asked (removes_dir p) sftp s = code_only (api.rmdir_ex sftp p s)
  asked (stats p) sftp s = with_attributes (api.stat_ex sftp p sftp_stat zeroed s)
  asked (stats_link p) sftp s = with_attributes (api.stat_ex sftp p sftp_lstat zeroed s)
  asked (unlinks p) sftp s = code_only (api.unlink_ex sftp p s)
  asked (sets p st) sftp s = without_attributes (api.stat_ex sftp p sftp_setstat (raw st) s)
  asked (links p target) sftp s = code_only (api.symlink sftp p target s)
  asked (renames src dst flags) sftp s = code_only (api.rename_ex sftp src dst (or_all flags) s)

  abbrev pub judged : (ℤ × Option FileStat) × S → World S → Result (Option FileStat) × World S
  judged ((n, found), s) w = (
    if is_nonneg n then ok found else err (from_session_error_raw api.session n s),
    record w { lib = s },
  )

  -- A request of a subsystem that the object has, or has no more.
  abbrev pub of_subsystem : Request → World S → Result (Option FileStat) × World S
  of_subsystem r w = elim w.held [
    | false ↦ (err (from_errno error_bad_use), w)
    | true ↦ elim w.wrapped [ none ↦ (panic, w) | some sftp ↦ judged (asked r sftp w.lib) w ]
  ]

  -- mkdir, rmdir, stat, lstat, setstat, symlink, rename and unlink, of paths shorter than 2^32 bytes,
  -- first refuse a path with a zero byte, then an object that has lost its subsystem, with BAD_USE,
  -- and change nothing in either case; otherwise they ask libssh2 once, with the paths as they are,
  -- and succeed, with the attributes that a stat got, exactly if the code is not negative; nothing but
  -- libssh2's own state changes. They panic only where the object has the subsystem and the raw
  -- pointer is gone.
  pub request_outcome :
      (r : Request) (w : World S)
      → AllBelow (2 ^ 32) (lengths (texts r))
      → request r w ≡ unless_refused (paths r) err (of_subsystem r) w
  unfolding mkdir rmdir stat lstat setstat symlink rename unlink lock locked path2bytes check rc
  request_outcome (makes_dir p mode) w (e, u) = ground (arith, slice_whole p e)
  request_outcome (removes_dir p) w (e, u) = ground (arith, slice_whole p e)
  request_outcome (stats p) w (e, u) = ground (arith, slice_whole p e)
  request_outcome (stats_link p) w (e, u) = ground (arith, slice_whole p e)
  request_outcome (unlinks p) w (e, u) = ground (arith, slice_whole p e)
  request_outcome (sets p st) w (e, u) = ground (arith, slice_whole p e)
  request_outcome (links p target) w (e, (e', u)) =
      ground (arith, slice_whole p e, slice_whole target e')
  request_outcome (renames src dst flags) w (e, (e', u)) =
      ground (arith, slice_whole src e, slice_whole dst e')
