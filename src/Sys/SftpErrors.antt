-- ===== src/Sys/SftpErrors.antt =====
-- libssh2-sys/lib.rs: the status codes of SFTP.
use ssh2_rs.Base.Int.{ℤ, pos}

abbrev pub fx_eof : ℤ
fx_eof = pos 1

abbrev pub fx_no_such_file : ℤ
fx_no_such_file = pos 2

abbrev pub fx_permission_denied : ℤ
fx_permission_denied = pos 3

abbrev pub fx_failure : ℤ
fx_failure = pos 4

abbrev pub fx_bad_message : ℤ
fx_bad_message = pos 5

abbrev pub fx_no_connection : ℤ
fx_no_connection = pos 6

abbrev pub fx_connection_lost : ℤ
fx_connection_lost = pos 7

abbrev pub fx_op_unsupported : ℤ
fx_op_unsupported = pos 8

abbrev pub fx_invalid_handle : ℤ
fx_invalid_handle = pos 9

abbrev pub fx_no_such_path : ℤ
fx_no_such_path = pos 10

abbrev pub fx_file_already_exists : ℤ
fx_file_already_exists = pos 11

abbrev pub fx_write_protect : ℤ
fx_write_protect = pos 12

abbrev pub fx_no_media : ℤ
fx_no_media = pos 13

abbrev pub fx_no_space_on_filesystem : ℤ
fx_no_space_on_filesystem = pos 14

abbrev pub fx_quota_exceeded : ℤ
fx_quota_exceeded = pos 15

abbrev pub fx_unknown_principal : ℤ
fx_unknown_principal = pos 16

abbrev pub fx_lock_conflict : ℤ
fx_lock_conflict = pos 17

abbrev pub fx_dir_not_empty : ℤ
fx_dir_not_empty = pos 18

abbrev pub fx_not_a_directory : ℤ
fx_not_a_directory = pos 19

abbrev pub fx_invalid_filename : ℤ
fx_invalid_filename = pos 20

abbrev pub fx_link_loop : ℤ
fx_link_loop = pos 21
