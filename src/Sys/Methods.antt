-- ===== src/Sys/Methods.antt =====
-- libssh2-sys/lib.rs: the flags and the methods of a session.
use ssh2_rs.Base.{ℕ}
use ssh2_rs.Base.Int.{ℤ, pos}

abbrev pub flag_sigpipe : ℕ
flag_sigpipe = 1

abbrev pub flag_compress : ℕ
flag_compress = 2

abbrev pub method_kex : ℤ
method_kex = pos 0

abbrev pub method_hostkey : ℤ
method_hostkey = pos 1

abbrev pub method_crypt_cs : ℤ
method_crypt_cs = pos 2

abbrev pub method_crypt_sc : ℤ
method_crypt_sc = pos 3

abbrev pub method_mac_cs : ℤ
method_mac_cs = pos 4

abbrev pub method_mac_sc : ℤ
method_mac_sc = pos 5

abbrev pub method_comp_cs : ℤ
method_comp_cs = pos 6

abbrev pub method_comp_sc : ℤ
method_comp_sc = pos 7

abbrev pub method_lang_cs : ℤ
method_lang_cs = pos 8

abbrev pub method_lang_sc : ℤ
method_lang_sc = pos 9
