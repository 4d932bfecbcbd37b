-- ===== src/Errors/Messages.antt =====
-- src/error.rs, `Error::from_errno`: the message of each error code.
use ssh2_rs.Base.{List, [], ◌∷◌, String, if◌then◌else◌}
use ssh2_rs.Base.Int.{ℤ, ◌==ℤ◌}
use ssh2_rs.Sys.{
  error_banner_recv, error_banner_send, error_invalid_mac, error_kex_failure, error_alloc,
  error_socket_send, error_key_exchange_failure, error_timeout, error_hostkey_init,
  error_hostkey_sign, error_decrypt, error_socket_disconnect, error_proto, error_password_expired,
  error_file, error_method_none, error_authentication_failed, error_publickey_unverified,
  error_channel_outoforder, error_channel_failure, error_channel_request_denied,
  error_channel_unknown, error_channel_window_exceeded, error_channel_packet_exceeded,
  error_channel_closed, error_channel_eof_sent, error_scp_protocol, error_zlib,
  error_socket_timeout, error_sftp_protocol, error_request_denied, error_method_not_supported,
  error_inval, error_invalid_poll_type, error_publickey_protocol, error_eagain,
  error_buffer_too_small, error_bad_use, error_compress, error_out_of_boundary,
  error_agent_protocol, error_socket_recv, error_encrypt, error_bad_socket, error_known_hosts,
  fx_eof, fx_no_such_file, fx_permission_denied, fx_failure, fx_bad_message, fx_no_connection,
  fx_connection_lost, fx_op_unsupported, fx_invalid_handle, fx_no_such_path, fx_file_already_exists,
  fx_write_protect, fx_no_media, fx_no_space_on_filesystem, fx_quota_exceeded, fx_unknown_principal,
  fx_lock_conflict, fx_dir_not_empty, fx_not_a_directory, fx_invalid_filename, fx_link_loop,
}

-- The arms of the `match` in order: first the LIBSSH2_ERROR_ codes, then the LIBSSH2_FX_ codes.
unfoldable pub arms : List (ℤ × String)
arms =
    (error_banner_recv, "banner recv failure")
    ∷ (error_banner_send, "banner send failure")
    ∷ (error_invalid_mac, "invalid mac")
    ∷ (error_kex_failure, "kex failure")
    ∷ (error_alloc, "alloc failure")
    ∷ (error_socket_send, "socket send faiulre")
    ∷ (error_key_exchange_failure, "key exchange failure")
    ∷ (error_timeout, "timed out")
    ∷ (error_hostkey_init, "hostkey init error")
    ∷ (error_hostkey_sign, "hostkey sign error")
    ∷ (error_decrypt, "decrypt error")
    ∷ (error_socket_disconnect, "socket disconnected")
    ∷ (error_proto, "protocol error")
    ∷ (error_password_expired, "password expired")
    ∷ (error_file, "file error")
    ∷ (error_method_none, "bad method name")
    ∷ (error_authentication_failed, "authentication failed")
    ∷ (error_publickey_unverified, "public key unverified")
    ∷ (error_channel_outoforder, "channel out of order")
    ∷ (error_channel_failure, "channel failure")
    ∷ (error_channel_request_denied, "request denied")
    ∷ (error_channel_unknown, "unknown channel error")
    ∷ (error_channel_window_exceeded, "window exceeded")
    ∷ (error_channel_packet_exceeded, "packet exceeded")
    ∷ (error_channel_closed, "closed channel")
    ∷ (error_channel_eof_sent, "eof sent")
    ∷ (error_scp_protocol, "scp protocol error")
    ∷ (error_zlib, "zlib error")
    ∷ (error_socket_timeout, "socket timeout")
    ∷ (error_sftp_protocol, "sftp protocol error")
    ∷ (error_request_denied, "request denied")
    ∷ (error_method_not_supported, "method not supported")
    ∷ (error_inval, "invalid")
    ∷ (error_invalid_poll_type, "invalid poll type")
    ∷ (error_publickey_protocol, "public key protocol error")
    ∷ (error_eagain, "operation would block")
    ∷ (error_buffer_too_small, "buffer too small")
    ∷ (error_bad_use, "bad use error")
    ∷ (error_compress, "compression error")
    ∷ (error_out_of_boundary, "out of bounds")
    ∷ (error_agent_protocol, "invalid agent protocol")
    ∷ (error_socket_recv, "error receiving on socket")
    ∷ (error_encrypt, "bad encrypt")
    ∷ (error_bad_socket, "bad socket")
    ∷ (error_known_hosts, "known hosts error")
    ∷ (fx_eof, "end of file")
    ∷ (fx_no_such_file, "no such file")
    ∷ (fx_permission_denied, "permission denied")
    ∷ (fx_failure, "failure")
    ∷ (fx_bad_message, "bad message")
    ∷ (fx_no_connection, "no connection")
    ∷ (fx_connection_lost, "connection lost")
    ∷ (fx_op_unsupported, "operation unsupported")
    ∷ (fx_invalid_handle, "invalid handle")
    ∷ (fx_no_such_path, "no such path")
    ∷ (fx_file_already_exists, "file already exists")
    ∷ (fx_write_protect, "file is write protected")
    ∷ (fx_no_media, "no media available")
    ∷ (fx_no_space_on_filesystem, "no space on filesystem")
    ∷ (fx_quota_exceeded, "quota exceeded")
    ∷ (fx_unknown_principal, "unknown principal")
    ∷ (fx_lock_conflict, "lock conflict")
    ∷ (fx_dir_not_empty, "directory not empty")
    ∷ (fx_not_a_directory, "not a directory")
    ∷ (fx_invalid_filename, "invalid filename")
    ∷ (fx_link_loop, "link loop")
    ∷ []

unfoldable pub select : ℤ → List (ℤ × String) → String
select code [] = "unknown error"
select code ((c, msg) ∷ rest) = if code ==ℤ c then msg else select code rest

-- The message of a code: that of the first arm that fits, or "unknown error".
unfoldable pub errno_message : ℤ → String
unfolding select arms
errno_message code = select code arms
