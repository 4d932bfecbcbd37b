-- ===== src/Sys/Disconnect.antt =====
-- libssh2-sys/lib.rs: the reasons of a disconnect.
use ssh2_rs.Base.Int.{ℤ, pos}

abbrev pub disconnect_host_not_allowed_to_connect : ℤ
disconnect_host_not_allowed_to_connect = pos 1

abbrev pub disconnect_protocol_error : ℤ
disconnect_protocol_error = pos 2

abbrev pub disconnect_key_exchange_failed : ℤ
disconnect_key_exchange_failed = pos 3

abbrev pub disconnect_reserved : ℤ
disconnect_reserved = pos 4

abbrev pub disconnect_mac_error : ℤ
disconnect_mac_error = pos 5

abbrev pub disconnect_compression_error : ℤ
disconnect_compression_error = pos 6

abbrev pub disconnect_service_not_available : ℤ
disconnect_service_not_available = pos 7

abbrev pub disconnect_protocol_version_not_supported : ℤ
disconnect_protocol_version_not_supported = pos 8

abbrev pub disconnect_host_key_not_verifiable : ℤ
disconnect_host_key_not_verifiable = pos 9

abbrev pub disconnect_connection_lost : ℤ
disconnect_connection_lost = pos 10

abbrev pub disconnect_by_application : ℤ
disconnect_by_application = pos 11

abbrev pub disconnect_too_many_connections : ℤ
disconnect_too_many_connections = pos 12

abbrev pub disconnect_auth_cancelled_by_user : ℤ
disconnect_auth_cancelled_by_user = pos 13

abbrev pub disconnect_no_more_auth_methods_available : ℤ
disconnect_no_more_auth_methods_available = pos 14

abbrev pub disconnect_illegal_user_name : ℤ
disconnect_illegal_user_name = pos 15
