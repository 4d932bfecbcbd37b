-- ===== src/Sys/KnownHosts.antt =====
-- libssh2-sys/lib.rs: known hosts.
use ssh2_rs.Base.{ℕ, ◌*◌, ◌^◌}
use ssh2_rs.Base.Int.{ℤ, pos}

abbrev pub knownhost_file_openssh : ℤ
knownhost_file_openssh = pos 1

abbrev pub knownhost_check_match : ℤ
knownhost_check_match = pos 0

abbrev pub knownhost_check_mismatch : ℤ
knownhost_check_mismatch = pos 1

abbrev pub knownhost_check_notfound : ℤ
knownhost_check_notfound = pos 2

abbrev pub knownhost_check_failure : ℤ
knownhost_check_failure = pos 3

abbrev pub knownhost_type_plain : ℕ
knownhost_type_plain = 1

abbrev pub knownhost_keyenc_raw : ℕ
knownhost_keyenc_raw = 2 ^ 16

abbrev pub knownhost_key_rsa1 : ℕ
knownhost_key_rsa1 = 2 ^ 18

abbrev pub knownhost_key_sshrsa : ℕ
knownhost_key_sshrsa = 2 * 2 ^ 18

abbrev pub knownhost_key_sshdss : ℕ
knownhost_key_sshdss = 3 * 2 ^ 18

abbrev pub knownhost_key_ecdsa_256 : ℕ
knownhost_key_ecdsa_256 = 4 * 2 ^ 18

abbrev pub knownhost_key_ecdsa_384 : ℕ
knownhost_key_ecdsa_384 = 5 * 2 ^ 18

abbrev pub knownhost_key_ecdsa_521 : ℕ
knownhost_key_ecdsa_521 = 6 * 2 ^ 18

abbrev pub knownhost_key_ed25519 : ℕ
knownhost_key_ed25519 = 7 * 2 ^ 18

abbrev pub knownhost_key_unknown : ℕ
knownhost_key_unknown = 15 * 2 ^ 18
