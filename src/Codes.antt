-- ===== src/Codes.antt =====
-- src/lib.rs: the enums that stand for libssh2's constants, with the number of each (`as c_int`),
-- and src/session.rs, src/knownhosts.rs: the matches that read such a number back.
pub mod Laws
use ssh2_rs.Base.{ℕ, ◌+◌, ◌*◌, bit_or, if◌then◌else◌}
use ssh2_rs.Base.Int.{ℤ, pos, negsuc, ◌==ℤ◌}
use ssh2_rs.Sys.{
  knownhost_type_plain, knownhost_keyenc_raw, block_inbound, block_outbound,
  disconnect_host_not_allowed_to_connect, disconnect_protocol_error, disconnect_key_exchange_failed,
  disconnect_reserved, disconnect_mac_error, disconnect_compression_error,
  disconnect_service_not_available, disconnect_protocol_version_not_supported,
  disconnect_host_key_not_verifiable, disconnect_connection_lost, disconnect_by_application,
  disconnect_too_many_connections, disconnect_auth_cancelled_by_user,
  disconnect_no_more_auth_methods_available, disconnect_illegal_user_name, hostkey_type_unknown,
  hostkey_type_rsa, hostkey_type_dss, hostkey_type_ecdsa_256, hostkey_type_ecdsa_384,
  hostkey_type_ecdsa_521, hostkey_type_ed25519, method_kex, method_hostkey, method_crypt_cs,
  method_crypt_sc, method_mac_cs, method_mac_sc, method_comp_cs, method_comp_sc, method_lang_cs,
  method_lang_sc, hostkey_hash_md5, hostkey_hash_sha1, hostkey_hash_sha256, knownhost_file_openssh,
  knownhost_check_match, knownhost_check_mismatch, knownhost_check_notfound,
  knownhost_check_failure, knownhost_key_unknown, knownhost_key_rsa1, knownhost_key_sshrsa,
  knownhost_key_sshdss, knownhost_key_ecdsa_256, knownhost_key_ecdsa_384, knownhost_key_ecdsa_521,
  knownhost_key_ed25519, channel_extended_data_normal, channel_extended_data_merge,
  channel_extended_data_ignore,
}

pub data DisconnectCode : Type 0 where
  host_not_allowed_to_connect protocol_error key_exchange_failed reserved mac_error : DisconnectCode
  compression_error service_not_available protocol_version_not_supported : DisconnectCode
  host_key_not_verifiable connection_lost by_application too_many_connections : DisconnectCode
  auth_cancelled_by_user no_more_auth_methods_available illegal_user_name : DisconnectCode

unfoldable pub disconnect_code : DisconnectCode → ℤ
disconnect_code host_not_allowed_to_connect = disconnect_host_not_allowed_to_connect
disconnect_code protocol_error = disconnect_protocol_error
disconnect_code key_exchange_failed = disconnect_key_exchange_failed
disconnect_code reserved = disconnect_reserved
disconnect_code mac_error = disconnect_mac_error
disconnect_code compression_error = disconnect_compression_error
disconnect_code service_not_available = disconnect_service_not_available
disconnect_code protocol_version_not_supported = disconnect_protocol_version_not_supported
disconnect_code host_key_not_verifiable = disconnect_host_key_not_verifiable
disconnect_code connection_lost = disconnect_connection_lost
disconnect_code by_application = disconnect_by_application
disconnect_code too_many_connections = disconnect_too_many_connections
disconnect_code auth_cancelled_by_user = disconnect_auth_cancelled_by_user
disconnect_code no_more_auth_methods_available = disconnect_no_more_auth_methods_available
disconnect_code illegal_user_name = disconnect_illegal_user_name

pub data HostKeyType : Type 0 where
  unknown rsa dss ecdsa256 ecdsa384 ecdsa521 ed255219 : HostKeyType

unfoldable pub host_key_code : HostKeyType → ℤ
host_key_code HostKeyType.unknown = hostkey_type_unknown
host_key_code HostKeyType.rsa = hostkey_type_rsa
host_key_code HostKeyType.dss = hostkey_type_dss
host_key_code HostKeyType.ecdsa256 = hostkey_type_ecdsa_256
host_key_code HostKeyType.ecdsa384 = hostkey_type_ecdsa_384
host_key_code HostKeyType.ecdsa521 = hostkey_type_ecdsa_521
host_key_code HostKeyType.ed255219 = hostkey_type_ed25519

-- The match on `kind` in `Session::host_key`.
unfoldable pub host_key_kind : ℤ → HostKeyType
host_key_kind kind =
    if kind ==ℤ hostkey_type_rsa
    then HostKeyType.rsa
    else if kind ==ℤ hostkey_type_dss
    then HostKeyType.dss
    else if kind ==ℤ hostkey_type_ecdsa_256
    then HostKeyType.ecdsa256
    else if kind ==ℤ hostkey_type_ecdsa_384
    then HostKeyType.ecdsa384
    else if kind ==ℤ hostkey_type_ecdsa_521
    then HostKeyType.ecdsa521
    else if kind ==ℤ hostkey_type_ed25519
    then HostKeyType.ed255219
    else if kind ==ℤ hostkey_type_unknown
    then HostKeyType.unknown
    else HostKeyType.unknown

pub data MethodType : Type 0 where
  kex host_key crypt_cs crypt_sc mac_cs mac_sc comp_cs comp_sc lang_cs lang_sc : MethodType

unfoldable pub method_code : MethodType → ℤ
method_code kex = method_kex
method_code host_key = method_hostkey
method_code crypt_cs = method_crypt_cs
method_code crypt_sc = method_crypt_sc
method_code mac_cs = method_mac_cs
method_code mac_sc = method_mac_sc
method_code comp_cs = method_comp_cs
method_code comp_sc = method_comp_sc
method_code lang_cs = method_lang_cs
method_code lang_sc = method_lang_sc

-- The streams that a flush may name, and the stream of stderr.
abbrev pub flush_extended_data : ℤ
flush_extended_data = negsuc 0

abbrev pub flush_all : ℤ
flush_all = negsuc 1

abbrev pub extended_data_stderr : ℤ
extended_data_stderr = pos 1

pub data HashType : Type 0 where
  md5 sha1 sha256 : HashType

unfoldable pub hash_code : HashType → ℤ
hash_code md5 = hostkey_hash_md5
hash_code sha1 = hostkey_hash_sha1
hash_code sha256 = hostkey_hash_sha256

-- The length of the digest that `Session::host_key_hash` reads.
unfoldable pub hash_len : HashType → ℕ
hash_len md5 = 16
hash_len sha1 = 20
hash_len sha256 = 32

pub data KnownHostFileKind : Type 0 where
  open_ssh : KnownHostFileKind

unfoldable pub file_kind_code : KnownHostFileKind → ℤ
file_kind_code open_ssh = knownhost_file_openssh

pub data CheckResult : Type 0 where
  matched mismatch not_found failure : CheckResult

unfoldable pub check_code : CheckResult → ℤ
check_code matched = knownhost_check_match
check_code mismatch = knownhost_check_mismatch
check_code not_found = knownhost_check_notfound
check_code failure = knownhost_check_failure

-- The match on `rc` in `KnownHosts::check_port_`.
unfoldable pub check_result : ℤ → CheckResult
check_result rc =
    if rc ==ℤ knownhost_check_match
    then matched
    else if rc ==ℤ knownhost_check_mismatch
    then mismatch
    else if rc ==ℤ knownhost_check_notfound
    then not_found
    else failure

pub data KnownHostKeyFormat : Type 0 where
  unknown rsa1 ssh_rsa ssh_dss ecdsa256 ecdsa384 ecdsa521 ed255219 : KnownHostKeyFormat

unfoldable pub key_format_code : KnownHostKeyFormat → ℕ
key_format_code KnownHostKeyFormat.unknown = knownhost_key_unknown
key_format_code KnownHostKeyFormat.rsa1 = knownhost_key_rsa1
key_format_code KnownHostKeyFormat.ssh_rsa = knownhost_key_sshrsa
key_format_code KnownHostKeyFormat.ssh_dss = knownhost_key_sshdss
key_format_code KnownHostKeyFormat.ecdsa256 = knownhost_key_ecdsa_256
key_format_code KnownHostKeyFormat.ecdsa384 = knownhost_key_ecdsa_384
key_format_code KnownHostKeyFormat.ecdsa521 = knownhost_key_ecdsa_521
key_format_code KnownHostKeyFormat.ed255219 = knownhost_key_ed25519

-- `From<HostKeyType> for KnownHostKeyFormat`.
unfoldable pub key_format : HostKeyType → KnownHostKeyFormat
key_format HostKeyType.unknown = KnownHostKeyFormat.unknown
key_format HostKeyType.rsa = KnownHostKeyFormat.ssh_rsa
key_format HostKeyType.dss = KnownHostKeyFormat.ssh_dss
key_format HostKeyType.ecdsa256 = KnownHostKeyFormat.ecdsa256
key_format HostKeyType.ecdsa384 = KnownHostKeyFormat.ecdsa384
key_format HostKeyType.ecdsa521 = KnownHostKeyFormat.ecdsa521
key_format HostKeyType.ed255219 = KnownHostKeyFormat.ed255219

-- The flags of `KnownHosts::check_port_` and of `KnownHosts::add`.
unfoldable pub check_flags : ℕ
check_flags = bit_or knownhost_type_plain knownhost_keyenc_raw

unfoldable pub add_flags : KnownHostKeyFormat → ℕ
unfolding check_flags key_format_code
add_flags fmt = bit_or check_flags (key_format_code fmt)

pub data ExtendedData : Type 0 where
  normal merge ignore : ExtendedData

unfoldable pub extended_data_code : ExtendedData → ℤ
extended_data_code normal = channel_extended_data_normal
extended_data_code merge = channel_extended_data_merge
extended_data_code ignore = channel_extended_data_ignore

pub data BlockDirections : Type 0 where
  none inbound outbound both : BlockDirections

-- The match on `dir` in `Session::block_directions`; the third arm's test is 1 | 2.
unfoldable pub block_directions_of : ℤ → BlockDirections
block_directions_of dir =
    if dir ==ℤ block_inbound
    then inbound
    else if dir ==ℤ block_outbound
    then outbound
    else if dir ==ℤ pos (bit_or 1 2)
    then both
    else none
