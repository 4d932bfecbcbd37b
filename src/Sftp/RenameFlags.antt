-- ===== src/Sftp/RenameFlags.antt =====
-- src/sftp.rs, the bit set `RenameFlags`.
use ssh2_rs.Base.{ℕ}
use ssh2_rs.Sys.{rename_overwrite, rename_atomic, rename_native}

abbrev pub overwrite : ℕ
overwrite = rename_overwrite

abbrev pub atomic : ℕ
atomic = rename_atomic

abbrev pub native : ℕ
native = rename_native
