-- ===== src/Sftp/Links.antt =====
-- src/sftp.rs, `Sftp::readlink` and `Sftp::realpath`: what stands before the loop of `readlink_op`,
-- which takes fuel.
use ssh2_rs.Base.{ℕ, some}
use ssh2_rs.Base.Int.{ℤ}
use ssh2_rs.Base.Text.{Bytes}
use ssh2_rs.Sys.{sftp_readlink, sftp_realpath}
use ssh2_rs.Errors.{Result, ok, err, panic}
use ssh2_rs.Walk.{Outcome}
use ssh2_rs.Paths.{path2bytes}
use ssh2_rs.Sftp.Raw.{Api}
use ssh2_rs.Sftp.Handles.{World, lock}
use ssh2_rs.Sftp.Buffers.{readlink_op}
use ssh2_rs.Sftp.Listing.{in_world}

module _ {S : Type 0} (api : Api S) (fuel : ℕ) where
  -- With the path and the raw pointer of the subsystem, if the lock gives one.
  unfoldable pub op_locked : Bytes → ℤ → Result ℕ → World S → Outcome (World S) Bytes
  op_locked path op (ok sftp) w = in_world api w (readlink_op api fuel sftp path op w.lib)
  op_locked path op (err e) w = some (err e, w)
  op_locked path op panic w = some (panic, w)

  unfoldable pub op_at : ℤ → Result Bytes → World S → Outcome (World S) Bytes
  unfolding op_locked
  op_at op (ok path) w = let (r, w') = lock api w in op_locked path op r w'
  op_at op (err e) w = some (err e, w)
  op_at op panic w = some (panic, w)

  unfoldable pub readlink : Bytes → World S → Outcome (World S) Bytes
  unfolding op_at
  readlink path w = op_at sftp_readlink (path2bytes path) w

  unfoldable pub realpath : Bytes → World S → Outcome (World S) Bytes
  unfolding op_at
  realpath path w = op_at sftp_realpath (path2bytes path) w
