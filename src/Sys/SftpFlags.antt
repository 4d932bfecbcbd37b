-- ===== src/Sys/SftpFlags.antt =====
-- libssh2-sys/lib.rs: the flags and operations of SFTP.
use ssh2_rs.Base.{ℕ}
use ssh2_rs.Base.Int.{ℤ, pos}

abbrev pub fxf_read : ℕ
fxf_read = 0x1

abbrev pub fxf_write : ℕ
fxf_write = 0x2

abbrev pub fxf_append : ℕ
fxf_append = 0x4

abbrev pub fxf_creat : ℕ
fxf_creat = 0x8

abbrev pub fxf_trunc : ℕ
fxf_trunc = 0x10

abbrev pub fxf_excl : ℕ
fxf_excl = 0x20

abbrev pub sftp_openfile : ℤ
sftp_openfile = pos 0

abbrev pub sftp_opendir : ℤ
sftp_opendir = pos 1

abbrev pub attr_size : ℕ
attr_size = 0x1

abbrev pub attr_uidgid : ℕ
attr_uidgid = 0x2

abbrev pub attr_permissions : ℕ
attr_permissions = 0x4

abbrev pub attr_acmodtime : ℕ
attr_acmodtime = 0x8

abbrev pub sftp_stat : ℤ
sftp_stat = pos 0

abbrev pub sftp_lstat : ℤ
sftp_lstat = pos 1

abbrev pub sftp_setstat : ℤ
sftp_setstat = pos 2

abbrev pub sftp_symlink : ℤ
sftp_symlink = pos 0

abbrev pub sftp_readlink : ℤ
sftp_readlink = pos 1

abbrev pub sftp_realpath : ℤ
sftp_realpath = pos 2

abbrev pub rename_overwrite : ℕ
rename_overwrite = 0x1

abbrev pub rename_atomic : ℕ
rename_atomic = 0x2

abbrev pub rename_native : ℕ
rename_native = 0x4

abbrev pub s_ifmt : ℕ
s_ifmt = 0o170000

abbrev pub s_ifdir : ℕ
s_ifdir = 0o040000

abbrev pub s_ifreg : ℕ
s_ifreg = 0o100000

abbrev pub s_iflnk : ℕ
s_iflnk = 0o120000
