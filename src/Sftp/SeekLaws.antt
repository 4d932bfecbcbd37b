-- ===== src/Sftp/SeekLaws.antt =====
-- Where a seek of src/sftp.rs lands.
use ssh2_rs.Base.{ℕ, suc, ◌-◌, ◌^◌, ◌<◌, ◌≡◌, some, true, arith}
use ssh2_rs.Base.Int.{ℤ, pos, negsuc, ◌+ℤ◌}
use ssh2_rs.Sftp.Raw.{Api}
use ssh2_rs.Sftp.Handles.{World, find, lock_file, locked_file}
use ssh2_rs.Sftp.Seek.{current, at, is_i64, moved, seek, seek_to, seek_current}

-- The u64 that a position becomes.
abbrev pub landing : ℤ → ℕ
landing (pos n) = n
landing (negsuc k) = 2 ^ 64 - suc k

moved_lem :
    (base : ℕ) (offset : ℤ)
    → base < 2 ^ 63
    → is_i64 (pos base +ℤ offset) ≡ true
    → moved base offset ≡ some (landing (pos base +ℤ offset))
unfolding moved ◌+ℤ◌
moved_lem base offset h fits = ground arith

module _ {S : Type 0} (api : Api S) where
  -- A seek of an open file from a current position below 2 ^ 63, by an offset with which the sum
  -- does not overflow, puts libssh2 at the sum and gives it back. A sum below 0 is not refused:
  -- the seek succeeds, that far below 2 ^ 64.
  pub seek-current_sum :
      (name h p cur : ℕ) (s : S) (offset : ℤ) (w : World S)
      → find name w.files ≡ some h
      → w.wrapped ≡ some p
      → api.tell64 h w.lib ≡ (cur, s)
      → cur < 2 ^ 63
      → is_i64 (pos cur +ℤ offset) ≡ true
      → let next = landing (pos cur +ℤ offset) in
        seek api name (current offset) w ≡ (at next, record w { lib = api.seek64 h next s })
  unfolding seek seek_to seek_current lock_file locked_file
  seek-current_sum name h p cur s offset w f there told low fits =
      ground (arith, moved_lem cur offset low fits)
