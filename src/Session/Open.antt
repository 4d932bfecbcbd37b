-- ===== src/Session/Open.antt =====
-- What a session opens: channels, listeners, agents, collections of known hosts and SFTP
-- subsystems (src/session.rs), and `Listener` (src/listener.rs).
use ssh2_rs.Base.{ℕ, ◌%◌, ◌^◌, Option, none, some, List, [], ◌∷◌}
use ssh2_rs.Base.Int.{ℤ, as_u64, as_i64, signed32}
use ssh2_rs.Base.Text.{Bytes, bytes}
use ssh2_rs.Sys.{channel_window_default, channel_packet_default, error_inval}
use ssh2_rs.Errors.{
  Error, unknown, new, Result, ok, err, panic, Call, raw, lift, c_string, ◌>>=◌, ◌>>◌,
}
use ssh2_rs.Errors.Session.{last_error_raw}
use ssh2_rs.Paths.{path2bytes}
use ssh2_rs.Paths.Slices.{c_slice, c_slice_option, up_to_zero}
use ssh2_rs.Channel as Channel
use ssh2_rs.Channel.{ChannelInner, limit_read}
use ssh2_rs.KnownHosts as KnownHosts
use ssh2_rs.Agent as Agent
use ssh2_rs.Agent.{PublicKey, connect, list_identities, identities, userauth}
use ssh2_rs.Sftp.Handles as Handles
use ssh2_rs.Sftp.Handles.{World}
use ssh2_rs.Walk.{Outcome, and_then}
use ssh2_rs.Session.Raw.{Api, ScpStat}

-- The file that `scp_recv` announces.
pub record ScpFileStat : Type 0 where
  pub stat : ScpStat

unfoldable pub size : ScpFileStat → ℕ
size f = as_u64 f.stat.st_size

unfoldable pub mode : ScpFileStat → ℤ
mode f = signed32 (f.stat.st_mode % 2 ^ 32)

abbrev pub or_local : Option (Bytes × ℕ) → Bytes × ℕ
or_local none = (bytes "127.0.0.1", 22)
or_local (some src) = src

abbrev pub or_none : Option (ℕ × ℕ) → ℕ × ℕ
or_none none = (0, 0)
or_none (some times) = times

abbrev pub or_zero : Option ℕ → ℕ
or_zero none = 0
or_zero (some n) = n

-- `Listener::from_raw_opt`: the handle of the listener.
unfoldable pub listener_from_raw_opt : Option ℕ → Option Error → Result ℕ
listener_from_raw_opt none none = err unknown
listener_from_raw_opt none (some e) = err e
listener_from_raw_opt (some p) e = ok p

module _ {S : Type 0} (api : Api S) where
  -- A call that gives a pointer, what `last_error` says after it, and the object made of both.
  abbrev made : {A : Type 0} → (Option ℕ → Option Error → Result A) → Option ℕ → Call S A
  made from ret s = (from ret (last_error_raw api.session s), s)

  unfoldable pub agent : Call S ℕ
  unfolding last_error_raw Agent.from_raw_opt
  agent = raw api.agent_init >>= made Agent.from_raw_opt

  unfoldable pub known_hosts : Call S ℕ
  unfolding last_error_raw KnownHosts.from_raw_opt
  known_hosts = raw api.knownhost_init >>= made KnownHosts.from_raw_opt

  unfoldable pub channel_open : Bytes → ℕ → ℕ → Option Bytes → Call S ChannelInner
  unfolding last_error_raw Channel.from_raw_opt
  channel_open channel_type window_size packet_size message =
      raw (
        api.channel_open_ex (c_slice channel_type) window_size packet_size (c_slice_option message))
      >>= made Channel.from_raw_opt

  unfoldable pub channel_session : Call S ChannelInner
  unfolding channel_open
  channel_session =
      channel_open (bytes "session") channel_window_default channel_packet_default none

  unfoldable pub channel_direct_tcpip : Bytes → ℕ → Option (Bytes × ℕ) → Call S ChannelInner
  unfolding last_error_raw Channel.from_raw_opt c_string
  channel_direct_tcpip host port src = do
    h ← lift (c_string host)
    sh ← lift (c_string (or_local src).0)
    ret ← raw (api.channel_direct_tcpip_ex h port sh (or_local src).1)
    made Channel.from_raw_opt ret

  -- The port comes back with the listener.
  abbrev with_port : ℤ → Result ℕ → Result (ℕ × ℕ)
  with_port port (ok l) = ok (l, as_u64 port % 2 ^ 16)
  with_port port (err e) = err e
  with_port port panic = panic

  -- `host.map(|s| s.as_ptr())`: libssh2 reads on until there is a zero byte.
  abbrev pub unterminated : Option Bytes → S → Option Bytes
  unterminated none s = none
  unterminated (some host) s = some (up_to_zero host (api.behind host s))

  unfoldable pub channel_forward_listen : ℕ → Option Bytes → Option ℕ → Call S (ℕ × ℕ)
  unfolding last_error_raw listener_from_raw_opt
  channel_forward_listen remote_port host queue_maxsize = do
    (ret, bound_port) ← raw λ s.
        api.channel_forward_listen_ex (unterminated host s) remote_port
          (signed32 (or_zero queue_maxsize % 2 ^ 32)) s
    λ s. (with_port bound_port (listener_from_raw_opt ret (last_error_raw api.session s)), s)

  -- `Listener::accept`, and `Drop for Listener`.
  unfoldable pub accept : ℕ → Call S ChannelInner
  unfolding last_error_raw Channel.from_raw_opt
  accept listener = raw (api.channel_forward_accept listener) >>= made Channel.from_raw_opt

  unfoldable pub drop_listener : ℕ → S → S
  drop_listener listener s = (api.channel_forward_cancel listener s).1

  -- `CString::new(util::path2bytes(path)?)?`.
  abbrev pub c_path : Bytes → Call S Bytes
  c_path path = do p ← lift (path2bytes path); lift (c_string p)

  -- `from_raw_opt(...)?`, `limit_read` and the result.
  unfoldable pub limited : ScpStat → Result ChannelInner → Result (ChannelInner × ScpFileStat)
  unfolding limit_read
  limited sb (ok c) = ok (limit_read (as_u64 sb.st_size) c, record { stat = sb })
  limited sb (err e) = err e
  limited sb panic = panic

  abbrev pub receive : Bytes → Call S (ChannelInner × ScpFileStat)
  receive p s =
      let ((ret, sb), s') = api.scp_recv2 p s in
      (limited sb (Channel.from_raw_opt ret (last_error_raw api.session s')), s')

  unfoldable pub scp_recv : Bytes → Call S (ChannelInner × ScpFileStat)
  scp_recv path = c_path path >>= receive

  unfoldable pub scp_send : Bytes → ℤ → ℕ → Option (ℕ × ℕ) → Call S ChannelInner
  unfolding last_error_raw Channel.from_raw_opt path2bytes c_string
  scp_send remote_path mode size times = do
    p ← c_path remote_path
    ret ←
        raw (
          api.scp_send64 p mode (as_i64 size) (as_i64 (or_none times).0) (as_i64 (or_none times).1))
    made Channel.from_raw_opt ret

  -- `Session::sftp`.
  unfoldable pub sftp : Call S (World S)
  unfolding last_error_raw Handles.from_raw_opt
  sftp =
      raw api.sftp_init >>= λ ret s. (Handles.from_raw_opt ret (last_error_raw api.session s) s, s)

  module _ (agents : Agent.Raw.Api S) (fuel : ℕ) (username : Bytes) where
    unfoldable pub auth_first : ℕ → List PublicKey → S → Outcome S (Unit {0})
    auth_first handle [] s = some (err (new error_inval "no identities found in the ssh agent"), s)
    auth_first handle (identity ∷ more) s = userauth agents handle fuel username identity s

    -- What follows `self.agent()?`.
    unfoldable pub auth_with : ℕ → S → Outcome S (Unit {0})
    unfolding auth_first and_then
    auth_with handle s =
        and_then (some ((connect agents handle >> list_identities agents handle) s))
          (λ _ s'. and_then (identities agents handle fuel s') (auth_first handle))

    -- The agent goes out of scope.
    unfoldable pub agent_dropped : ℕ → Outcome S (Unit {0}) → Outcome S (Unit {0})
    agent_dropped handle none = none
    agent_dropped handle (some (r, s)) = some (r, Agent.drop agents handle s)

    -- `Session::userauth_agent`; each of the two walks over the keys has the fuel.
    unfoldable pub userauth_agent : S → Outcome S (Unit {0})
    unfolding auth_with agent_dropped and_then
    userauth_agent s =
        and_then (some (agent s)) (λ handle s'. agent_dropped handle (auth_with handle s'))
