-- ===== src/Sftp/Seek.antt =====
-- src/sftp.rs, `Seek for File`. An addition of two `i64` that overflows panics, as it does where the
-- checks for overflow are on.
use ssh2_rs.Base.{ℕ, ◌^◌, Option, none, some, Bool, ltb, if◌then◌else◌}
use ssh2_rs.Base.Int.{ℤ, pos, negsuc, ◌+ℤ◌, as_i64, as_u64}
use ssh2_rs.Errors.{Error, Result, ok, err, panic}
use ssh2_rs.Sftp.Raw.{Api}
use ssh2_rs.Sftp.Stat.{FileStat}
use ssh2_rs.Sftp.Handles.{World, lock_file}
use ssh2_rs.Sftp.Requests.{file_stat}

-- `SeekFrom`.
pub data SeekFrom : Type 0 where
  start : ℕ → SeekFrom
  current end : ℤ → SeekFrom

-- The `io::Error` of a seek: a converted `Error`, one of kind `Other` around an `Error`, and one
-- that only says that the size is missing.
pub data SeekError : Type 0 where
  converted stat_failed : Error → SeekError
  no_size : SeekError

pub data Sought : Type 0 where
  at : ℕ → Sought
  failed : SeekError → Sought
  panics : Sought

abbrev pub is_i64 : ℤ → Bool
is_i64 (pos n) = ltb n (2 ^ 63)
is_i64 (negsuc k) = ltb k (2 ^ 63)

-- `(base as i64 + offset) as u64`.
unfoldable pub moved : ℕ → ℤ → Option ℕ
moved base offset =
    let sum = as_i64 base +ℤ offset in if is_i64 sum then some (as_u64 sum) else none

module _ {S : Type 0} (api : Api S) where
  unfoldable pub seek_locked : ℕ → Result ℕ → World S → Sought × World S
  seek_locked next (ok h) w = (at next, record w { lib = api.seek64 h next w.lib })
  seek_locked next (err e) w = (failed (converted e), w)
  seek_locked next panic w = (panics, w)

  -- What follows the `match`.
  unfoldable pub seek_to : ℕ → Option ℕ → World S → Sought × World S
  unfolding seek_locked
  seek_to name none w = (panics, w)
  seek_to name (some next) w = let (r, w') = lock_file api name w in seek_locked next r w'

  unfoldable pub seek_current : ℕ → ℤ → Result ℕ → World S → Sought × World S
  unfolding seek_to moved
  seek_current name offset (ok h) w =
      let (cur, s) = api.tell64 h w.lib in seek_to name (moved cur offset) (record w { lib = s })
  seek_current name offset (err e) w = (failed (converted e), w)
  seek_current name offset panic w = (panics, w)

  unfoldable pub seek_size : ℕ → ℤ → Option ℕ → World S → Sought × World S
  unfolding seek_to moved
  seek_size name offset none w = (failed no_size, w)
  seek_size name offset (some size) w = seek_to name (moved size offset) w

  unfoldable pub seek_end : ℕ → ℤ → Result FileStat → World S → Sought × World S
  unfolding seek_size
  seek_end name offset (ok s) w = seek_size name offset s.size w
  seek_end name offset (err e) w = (failed (stat_failed e), w)
  seek_end name offset panic w = (panics, w)

  unfoldable pub seek : ℕ → SeekFrom → World S → Sought × World S
  unfolding seek_to seek_current seek_end
  seek name (start next) w = seek_to name (some next) w
  seek name (current offset) w = let (r, w') = lock_file api name w in seek_current name offset r w'
  seek name (end offset) w = let (r, w') = file_stat api name w in seek_end name offset r w'
