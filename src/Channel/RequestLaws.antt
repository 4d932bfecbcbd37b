-- ===== src/Channel/RequestLaws.antt =====
-- The requests on a channel that answer with a code, src/channel.rs.
use ssh2_rs.Base.{ℕ, ◌^◌, ◌<◌, ◌≡◌, Option, none, some, List, [], ◌∷◌, arith, if◌then◌else◌}
use ssh2_rs.Base.Int.{ℤ, pos, is_nonneg}
use ssh2_rs.Base.Text.{Bytes, bytes}
use ssh2_rs.Codes.{ExtendedData, extended_data_code}
use ssh2_rs.Errors.{Result, ok, err}
use ssh2_rs.Errors.Session.{from_session_error_raw, rc}
use ssh2_rs.Pty.{PtyModes}
use ssh2_rs.Paths.Slices.{AllBelow, lengths, slice_whole}
use ssh2_rs.Channel.Raw.{Api}
use ssh2_rs.Channel.Requests as Requests
use ssh2_rs.Channel.Requests.{PtySize, mode_bytes, dimension, or_zero, or_size}

pub data Request : Type 0 where
  sets_env : Bytes → Bytes → Request
  wants_pty : Bytes → Option PtyModes → Option PtySize → Request
  resizes : ℕ → ℕ → Option ℕ → Option ℕ → Request
  starts : Bytes → Option Bytes → Request
  executes subsystems : Bytes → Request
  takes_extended : ExtendedData → Request
  forwards_agent starts_shell sends_eof waits_for_eof closes waits_for_close : Request

-- The texts that are handed over with their lengths.
abbrev pub texts : Request → List Bytes
texts (sets_env var val) = var ∷ val ∷ []
texts (wants_pty term modes dim) = term ∷ mode_bytes modes ∷ []
texts (starts request none) = request ∷ []
texts (starts request (some message)) = request ∷ message ∷ []
texts (executes command) = command ∷ []
texts (subsystems system) = system ∷ []
texts _ = []

-- Width and height, in characters and in pixels.
abbrev pub sizes_of : PtySize → List ℕ
sizes_of d = d.width ∷ d.height ∷ d.width_px ∷ d.height_px ∷ []

abbrev pub sizes : Request → List ℕ
sizes (wants_pty term modes dim) = sizes_of (or_size dim)
sizes (resizes width height width_px height_px) =
    width ∷ height ∷ or_zero width_px ∷ or_zero height_px ∷ []
sizes _ = []

size_whole : (n : ℕ) → n < 2 ^ 31 → dimension n ≡ pos n
size_whole n e = ground arith

module _ {S : Type 0} (api : Api S) (channel : ℕ) where
  abbrev pub request : Request → S → Result (Unit {0}) × S
  request (sets_env var val) s = Requests.setenv api channel var val s
  request (wants_pty term modes dim) s = Requests.request_pty api channel term modes dim s
  request (resizes width height width_px height_px) s =
      Requests.request_pty_size api channel width height width_px height_px s
  request (starts name message) s = Requests.process_startup api channel name message s
  request (executes command) s = Requests.exec api channel command s
  request (subsystems system) s = Requests.subsystem api channel system s
  request (takes_extended mode) s = Requests.handle_extended_data api channel mode s
  request forwards_agent s = Requests.request_auth_agent_forwarding api channel s
  request starts_shell s = Requests.shell api channel s
  request sends_eof s = Requests.send_eof api channel s
  request waits_for_eof s = Requests.wait_eof api channel s
  request closes s = Requests.close api channel s
  request waits_for_close s = Requests.wait_close api channel s

  -- What libssh2 is asked: texts and sizes as they are, 80 by 24 characters where a terminal has no
  -- size, and 0 pixels where they are not given.
  abbrev pub asked : Request → S → ℤ × S
  asked (sets_env var val) s = api.setenv_ex channel var val s
  asked (wants_pty term modes none) s =
      api.request_pty_ex channel term (mode_bytes modes) (pos 80) (pos 24) (pos 0) (pos 0) s
  asked (wants_pty term modes (some d)) s =
      api.request_pty_ex channel term (mode_bytes modes) (pos d.width) (pos d.height)
        (pos d.width_px) (pos d.height_px) s
  asked (resizes width height width_px height_px) s =
      api.request_pty_size_ex channel (pos width) (pos height) (pos (or_zero width_px))
        (pos (or_zero height_px)) s
  asked (starts name message) s = api.process_startup channel name message s
  asked (executes command) s = api.process_startup channel (bytes "exec") (some command) s
  asked (subsystems system) s = api.process_startup channel (bytes "subsystem") (some system) s
  asked (takes_extended mode) s = api.handle_extended_data2 channel (extended_data_code mode) s
  asked forwards_agent s = api.request_auth_agent channel s
  asked starts_shell s = api.process_startup channel (bytes "shell") none s
  asked sends_eof s = api.send_eof channel s
  asked waits_for_eof s = api.wait_eof channel s
  asked closes s = api.close channel s
  asked waits_for_close s = api.wait_closed channel s

  abbrev pub judged : ℤ × S → Result (Unit {0}) × S
  judged (n, s) = (if is_nonneg n then ok tt else err (from_session_error_raw api.session n s), s)

  -- A request whose texts are shorter than 2^32 bytes, the encoded modes included, and whose sizes are
  -- below 2^31, asks libssh2 once, with the texts and sizes unchanged, and succeeds exactly if the
  -- code is not negative; otherwise it gives the error of that code.
  pub request-judged :
      (r : Request) (s : S)
      → AllBelow (2 ^ 32) (lengths (texts r))
      → AllBelow (2 ^ 31) (sizes r)
      → request r s ≡ judged (asked r s)
  unfolding Requests.setenv Requests.request_pty Requests.request_pty_size Requests.process_startup
      Requests.exec Requests.subsystem Requests.handle_extended_data
      Requests.request_auth_agent_forwarding Requests.shell Requests.send_eof Requests.wait_eof
      Requests.close Requests.wait_close rc
  request-judged (sets_env var val) s (e, (e', u)) v =
      rw (slice_whole var e, slice_whole val e') (ground arith)
  request-judged (wants_pty term modes none) s (e, (e', u)) v =
      rw (slice_whole term e, slice_whole (mode_bytes modes) e') (ground arith)
  request-judged (wants_pty term modes (some d)) s (e, (e', u)) (a, (b, (c, (d', u')))) =
      rw
        (
          slice_whole term e,
          slice_whole (mode_bytes modes) e',
          size_whole d.width a,
          size_whole d.height b,
          size_whole d.width_px c,
          size_whole d.height_px d',
        )
        (ground arith)
  request-judged (resizes width height wp hp) s u (a, (b, (c, (d, u')))) =
      rw
        (
          size_whole width a,
          size_whole height b,
          size_whole (or_zero wp) c,
          size_whole (or_zero hp) d,
        )
        (ground arith)
  request-judged (starts name none) s (e, u) v = rw (slice_whole name e) (ground arith)
  request-judged (starts name (some message)) s (e, (e', u)) v =
      rw (slice_whole name e, slice_whole message e') (ground arith)
  request-judged (executes command) s (e, u) v = rw (slice_whole command e) (ground arith)
  request-judged (subsystems system) s (e, u) v = rw (slice_whole system e) (ground arith)
  request-judged _ s u v = ground arith
