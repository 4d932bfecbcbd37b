-- ===== src/Sys/HostKeys.antt =====
-- libssh2-sys/lib.rs: the types of host keys and their hashes.
use ssh2_rs.Base.Int.{ℤ, pos}

abbrev pub hostkey_type_unknown : ℤ
hostkey_type_unknown = pos 0

abbrev pub hostkey_type_rsa : ℤ
hostkey_type_rsa = pos 1

abbrev pub hostkey_type_dss : ℤ
hostkey_type_dss = pos 2

abbrev pub hostkey_type_ecdsa_256 : ℤ
hostkey_type_ecdsa_256 = pos 3

abbrev pub hostkey_type_ecdsa_384 : ℤ
hostkey_type_ecdsa_384 = pos 4

abbrev pub hostkey_type_ecdsa_521 : ℤ
hostkey_type_ecdsa_521 = pos 5

abbrev pub hostkey_type_ed25519 : ℤ
hostkey_type_ed25519 = pos 6

abbrev pub hostkey_hash_md5 : ℤ
hostkey_hash_md5 = pos 1

abbrev pub hostkey_hash_sha1 : ℤ
hostkey_hash_sha1 = pos 2

abbrev pub hostkey_hash_sha256 : ℤ
hostkey_hash_sha256 = pos 3
