-- ===== src/Sys/ErrorCodes.antt =====
-- libssh2-sys/lib.rs: the error codes of a session.
use ssh2_rs.Base.Int.{ℤ, negsuc}

abbrev pub error_banner_recv : ℤ
error_banner_recv = negsuc 1

abbrev pub error_banner_send : ℤ
error_banner_send = negsuc 2

abbrev pub error_invalid_mac : ℤ
error_invalid_mac = negsuc 3

abbrev pub error_kex_failure : ℤ
error_kex_failure = negsuc 4

abbrev pub error_alloc : ℤ
error_alloc = negsuc 5

abbrev pub error_socket_send : ℤ
error_socket_send = negsuc 6

abbrev pub error_key_exchange_failure : ℤ
error_key_exchange_failure = negsuc 7

abbrev pub error_timeout : ℤ
error_timeout = negsuc 8

abbrev pub error_hostkey_init : ℤ
error_hostkey_init = negsuc 9

abbrev pub error_hostkey_sign : ℤ
error_hostkey_sign = negsuc 10

abbrev pub error_decrypt : ℤ
error_decrypt = negsuc 11

abbrev pub error_socket_disconnect : ℤ
error_socket_disconnect = negsuc 12

abbrev pub error_proto : ℤ
error_proto = negsuc 13

abbrev pub error_password_expired : ℤ
error_password_expired = negsuc 14

abbrev pub error_file : ℤ
error_file = negsuc 15

abbrev pub error_method_none : ℤ
error_method_none = negsuc 16

abbrev pub error_authentication_failed : ℤ
error_authentication_failed = negsuc 17

abbrev pub error_publickey_unverified : ℤ
error_publickey_unverified = negsuc 18

abbrev pub error_channel_outoforder : ℤ
error_channel_outoforder = negsuc 19

abbrev pub error_channel_failure : ℤ
error_channel_failure = negsuc 20

abbrev pub error_channel_request_denied : ℤ
error_channel_request_denied = negsuc 21

abbrev pub error_channel_unknown : ℤ
error_channel_unknown = negsuc 22

abbrev pub error_channel_window_exceeded : ℤ
error_channel_window_exceeded = negsuc 23

abbrev pub error_channel_packet_exceeded : ℤ
error_channel_packet_exceeded = negsuc 24

abbrev pub error_channel_closed : ℤ
error_channel_closed = negsuc 25

abbrev pub error_channel_eof_sent : ℤ
error_channel_eof_sent = negsuc 26

abbrev pub error_scp_protocol : ℤ
error_scp_protocol = negsuc 27

abbrev pub error_zlib : ℤ
error_zlib = negsuc 28

abbrev pub error_socket_timeout : ℤ
error_socket_timeout = negsuc 29

abbrev pub error_sftp_protocol : ℤ
error_sftp_protocol = negsuc 30

abbrev pub error_request_denied : ℤ
error_request_denied = negsuc 31

abbrev pub error_method_not_supported : ℤ
error_method_not_supported = negsuc 32

abbrev pub error_inval : ℤ
error_inval = negsuc 33

abbrev pub error_invalid_poll_type : ℤ
error_invalid_poll_type = negsuc 34

abbrev pub error_publickey_protocol : ℤ
error_publickey_protocol = negsuc 35

abbrev pub error_eagain : ℤ
error_eagain = negsuc 36

abbrev pub error_buffer_too_small : ℤ
error_buffer_too_small = negsuc 37

abbrev pub error_bad_use : ℤ
error_bad_use = negsuc 38

abbrev pub error_compress : ℤ
error_compress = negsuc 39

abbrev pub error_out_of_boundary : ℤ
error_out_of_boundary = negsuc 40

abbrev pub error_agent_protocol : ℤ
error_agent_protocol = negsuc 41

abbrev pub error_socket_recv : ℤ
error_socket_recv = negsuc 42

abbrev pub error_encrypt : ℤ
error_encrypt = negsuc 43

abbrev pub error_bad_socket : ℤ
error_bad_socket = negsuc 44

abbrev pub error_known_hosts : ℤ
error_known_hosts = negsuc 45
