-- ===== src/Sys/Channels.antt =====
-- libssh2-sys/lib.rs: the limits of a channel, its extended data, and the directions in which a session blocks.
use ssh2_rs.Base.{ℕ, ◌*◌}
use ssh2_rs.Base.Int.{ℤ, pos}

abbrev pub channel_packet_default : ℕ
channel_packet_default = 32768

abbrev pub channel_window_default : ℕ
channel_window_default = 2 * 1024 * 1024

abbrev pub channel_extended_data_normal : ℤ
channel_extended_data_normal = pos 0

abbrev pub channel_extended_data_ignore : ℤ
channel_extended_data_ignore = pos 1

abbrev pub channel_extended_data_merge : ℤ
channel_extended_data_merge = pos 2

abbrev pub block_inbound : ℤ
block_inbound = pos 1

abbrev pub block_outbound : ℤ
block_outbound = pos 2
