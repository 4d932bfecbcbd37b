-- ===== src/Session/OpenLaws.antt =====
-- What a session opens, src/session.rs and src/listener.rs: every call that makes an object.
use ssh2_rs.Base.{ℕ, ◌%◌, ◌^◌, Option, none, some, List, [], ◌∷◌}
use ssh2_rs.Base.Int.{ℤ, as_u64, as_i64, signed32}
use ssh2_rs.Base.Text.{Bytes, bytes}
use ssh2_rs.Sys.{channel_window_default, channel_packet_default}
use ssh2_rs.Errors.{Error, unknown, Result, ok, err, panic}
use ssh2_rs.Errors.Session.{last_error_raw}
use ssh2_rs.Channel as Channel
use ssh2_rs.Channel.{ChannelInner}
use ssh2_rs.KnownHosts as KnownHosts
use ssh2_rs.Agent as Agent
use ssh2_rs.Sftp.Handles as Handles
use ssh2_rs.Sftp.Handles.{World}
use ssh2_rs.Session.Raw.{Api}
use ssh2_rs.Paths.Arguments.{Argument, text, path}
use ssh2_rs.Session.Open.{
  agent, known_hosts, sftp, channel_open, channel_session, channel_direct_tcpip,
  channel_forward_listen, accept, scp_recv, scp_send, ScpFileStat, or_local, or_none, unterminated,
  or_zero,
}

pub data Opener : Type 0 where
  makes_agent makes_known_hosts makes_sftp opens_session : Opener
  opens : Bytes → ℕ → ℕ → Option Bytes → Opener
  connects : Bytes → ℕ → Option (Bytes × ℕ) → Opener
  listens : ℕ → Option Bytes → Option ℕ → Opener
  accepts : ℕ → Opener
  receives : Bytes → Opener
  sends : Bytes → ℤ → ℕ → Option (ℕ × ℕ) → Opener

-- What the program gets: the pointer behind the object, its read limit and the bound port, where it
-- has them.
pub record Made : Type 0 where
  pub pointer : Option ℕ
  pub read_limit : Option ℕ
  pub port : Option ℕ

abbrev pub bare : ℕ → Made
bare p = record { pointer = some p; read_limit = none; port = none }

abbrev pub of_channel : ChannelInner → Made
of_channel c = record { pointer = some c.unsafe_raw; read_limit = c.read_limit; port = none }

abbrev pub of_listener : ℕ × ℕ → Made
of_listener (p, port) = record { pointer = some p; read_limit = none; port = some port }

abbrev pub of_sftp : {S : Type 0} → World S → Made
of_sftp w = record { pointer = w.wrapped; read_limit = none; port = none }

abbrev pub of_received : ChannelInner × ScpFileStat → Made
of_received (c, file) = of_channel c

abbrev pub seen : {S A : Type 0} → (A → Made) → Result A × S → Result Made × S
seen f (ok a, s) = (ok (f a), s)
seen f (err e, s) = (err e, s)
seen f (panic, s) = (panic, s)

module _ {S : Type 0} (api : Api S) where
  abbrev pub open_with : Opener → S → Result Made × S
  open_with makes_agent s = seen bare (agent api s)
  open_with makes_known_hosts s = seen bare (known_hosts api s)
  open_with makes_sftp s = seen of_sftp (sftp api s)
  open_with opens_session s = seen of_channel (channel_session api s)
  open_with (opens type window packet message) s =
      seen of_channel (channel_open api type window packet message s)
  open_with (connects host port src) s = seen of_channel (channel_direct_tcpip api host port src s)
  open_with (listens port host queue) s =
      seen of_listener (channel_forward_listen api port host queue s)
  open_with (accepts listener) s = seen of_channel (accept api listener s)
  open_with (receives file) s = seen of_received (scp_recv api file s)
  open_with (sends file mode size times) s = seen of_channel (scp_send api file mode size times s)

  -- The strings that have to be C strings, in the order in which they are looked at.
  abbrev pub arguments : Opener → List Argument
  arguments (connects host port src) = text host ∷ text (or_local src).0 ∷ []
  arguments (receives file) = path file ∷ []
  arguments (sends file mode size times) = path file ∷ []
  arguments _ = []

  -- What libssh2 is asked for: a pointer, the limit and the port that come with it.
  abbrev pub asks : Opener → S → (Option ℕ × Option ℕ × Option ℕ) × S
  asks makes_agent s = let (p, s') = api.agent_init s in ((p, none, none), s')
  asks makes_known_hosts s = let (p, s') = api.knownhost_init s in ((p, none, none), s')
  asks makes_sftp s = let (p, s') = api.sftp_init s in ((p, none, none), s')
  asks opens_session s =
      let (p, s') =
        api.channel_open_ex (bytes "session") channel_window_default channel_packet_default none
          s in
      ((p, none, none), s')
  asks (opens type window packet message) s =
      let (p, s') = api.channel_open_ex type window packet message s in ((p, none, none), s')
  asks (connects host port src) s =
      let (p, s') = api.channel_direct_tcpip_ex host port (or_local src).0 (or_local src).1 s in
      ((p, none, none), s')
  asks (listens port host queue) s =
      let ((p, bound), s') =
        api.channel_forward_listen_ex (unterminated api host s) port
          (signed32 (or_zero queue % 2 ^ 32)) s in
      ((p, none, some (as_u64 bound % 2 ^ 16)), s')
  asks (accepts listener) s =
      let (p, s') = api.channel_forward_accept listener s in ((p, none, none), s')
  asks (receives file) s =
      let ((p, stat), s') = api.scp_recv2 file s in ((p, some (as_u64 stat.st_size), none), s')
  asks (sends file mode size times) s =
      let (p, s') =
        api.scp_send64 file mode (as_i64 size) (as_i64 (or_none times).0) (as_i64 (or_none times).1)
          s in
      ((p, none, none), s')

  -- A pointer is an object; a null pointer is the session's last error, or `unknown` if there is none.
  abbrev pub object : Option ℕ → Option ℕ → Option ℕ → Option Error → Result Made
  object (some p) limit port e = ok (record { pointer = some p; read_limit = limit; port = port })
  object none limit port none = err unknown
  object none limit port (some e) = err e

  abbrev pub makes : Opener → S → Result Made × S
  makes o s =
      let ((p, limit, port), s') = asks o s in
      (object p limit port (last_error_raw api.session s'), s')

  -- The texts that go over with a length in 32 bits.
  abbrev pub texts : Opener → List Bytes
  texts (opens type window packet none) = type ∷ []
  texts (opens type window packet (some message)) = type ∷ message ∷ []
  texts _ = []
