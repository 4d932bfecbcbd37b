-- ===== src/Sftp/OpenFlags.antt =====
-- src/sftp.rs, the bit set `OpenFlags`; TRUNCATE and EXCLUSIVE imply CREATE.
use ssh2_rs.Base.{ℕ, bit_or}
use ssh2_rs.Sys.{fxf_read, fxf_write, fxf_append, fxf_creat, fxf_trunc, fxf_excl}

abbrev pub read : ℕ
read = fxf_read

abbrev pub write : ℕ
write = fxf_write

abbrev pub append : ℕ
append = fxf_append

abbrev pub create : ℕ
create = fxf_creat

abbrev pub truncate : ℕ
truncate = bit_or fxf_trunc create

abbrev pub exclusive : ℕ
exclusive = bit_or fxf_excl create
