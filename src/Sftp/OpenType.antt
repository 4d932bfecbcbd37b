-- ===== src/Sftp/OpenType.antt =====
-- src/sftp.rs, `OpenType`, with the number of each.
use ssh2_rs.Base.Int.{ℤ}
use ssh2_rs.Sys.{sftp_openfile, sftp_opendir}

pub data OpenType : Type 0 where
  file dir : OpenType

abbrev pub code : OpenType → ℤ
code file = sftp_openfile
code dir = sftp_opendir
