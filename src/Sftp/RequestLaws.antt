-- ===== src/Sftp/RequestLaws.antt =====
-- Requests of src/sftp.rs whose path has a zero byte.
use ssh2_rs.Base.{ℕ, ◌≡◌, refl, true, Option, some, arith}
use ssh2_rs.Base.Int.{ℤ}
use ssh2_rs.Base.Text.{Bytes, has_nul}
use ssh2_rs.Sys.{error_inval}
use ssh2_rs.Errors.{Error, new, err}
use ssh2_rs.Paths.{path2bytes, check}
use ssh2_rs.Sftp.Raw.{Api}
use ssh2_rs.Sftp.Stat.{FileStat}
use ssh2_rs.Sftp.Handles.{World, open_mode}
use ssh2_rs.Sftp.Links.{readlink, realpath}
use ssh2_rs.Sftp.Requests.{
  open_file, create, opendir, mkdir, rmdir, stat, lstat, setstat, symlink, rename, unlink,
}

abbrev zero_byte : Error
zero_byte = new error_inval "path provided contains a 0 byte"

path2bytes-nul : (path : Bytes) → has_nul path ≡ true → path2bytes path ≡ err zero_byte
unfolding path2bytes check
path2bytes-nul path h = ground arith

module _ {S : Type 0} (api : Api S) where
  -- A path with a zero byte is refused with INVAL by open, create, opendir, mkdir, rmdir, stat,
  -- lstat, setstat, unlink, readlink and realpath of `Sftp`, and by symlink and rename if it is the
  -- first of their two paths; the state is left as it was.
  zero_byte_refused :
      (path other : Bytes) (name : ℕ) (mode : ℤ) (st : FileStat) (flags : Option ℕ) (fuel : ℕ)
      (w : World S)
      → has_nul path ≡ true
      → (open_file api name path w ≡ (err zero_byte, w))
        × (create api name path w ≡ (err zero_byte, w))
        × (opendir api name path w ≡ (err zero_byte, w))
        × (mkdir api path mode w ≡ (err zero_byte, w))
        × (rmdir api path w ≡ (err zero_byte, w))
        × (stat api path w ≡ (err zero_byte, w))
        × (lstat api path w ≡ (err zero_byte, w))
        × (setstat api path st w ≡ (err zero_byte, w))
        × (unlink api path w ≡ (err zero_byte, w))
        × (readlink api fuel path w ≡ some (err zero_byte, w))
        × (realpath api fuel path w ≡ some (err zero_byte, w))
        × (symlink api path other w ≡ (err zero_byte, w))
        × (rename api path other flags w ≡ (err zero_byte, w))
  unfolding open_file create opendir open_mode mkdir rmdir stat lstat setstat symlink rename unlink
      readlink realpath
  zero_byte_refused path other name mode st flags fuel w h =
      let e = path2bytes-nul path h in
      (
        rw e refl,
        rw e refl,
        rw e refl,
        rw e refl,
        rw e refl,
        rw e refl,
        rw e refl,
        rw e refl,
        rw e refl,
        rw e refl,
        rw e refl,
        rw e refl,
        rw e refl,
      )
