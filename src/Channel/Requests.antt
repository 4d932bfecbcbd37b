-- ===== src/Channel/Requests.antt =====
-- src/channel.rs, `impl Channel`: the requests on a channel, each a call of libssh2 under the
-- session's mutex, whose return code becomes the result.
use ssh2_rs.Base.{ℕ, ◌%◌, ◌^◌, Bool, Option, none, some, [], if◌then◌else◌}
use ssh2_rs.Base.Int.{ℤ, signed32}
use ssh2_rs.Base.Text.{Bytes, bytes, from_utf8}
use ssh2_rs.Paths.Slices.{c_slice}
use ssh2_rs.Codes.{ExtendedData, extended_data_code}
use ssh2_rs.Errors.{Result, Call, pure, raw, ◌>>=◌, ◌>>◌}
use ssh2_rs.Errors.Session.{rc}
use ssh2_rs.Pty.{PtyModes, finish}
use ssh2_rs.Channel.Raw.{Api, Block}

-- `x as c_int` of a u32.
abbrev pub dimension : ℕ → ℤ
dimension x = signed32 (x % 2 ^ 32)

pub record PtySize : Type 0 where
  pub width : ℕ
  pub height : ℕ
  pub width_px : ℕ
  pub height_px : ℕ

abbrev pub default_size : PtySize
default_size = record { width = 80; height = 24; width_px = 0; height_px = 0 }

abbrev pub or_zero : Option ℕ → ℕ
or_zero none = 0
or_zero (some x) = x

abbrev pub or_size : Option PtySize → PtySize
or_size none = default_size
or_size (some d) = d

-- `mode.map(PtyModes::finish)`, or no bytes.
unfoldable pub mode_bytes : Option PtyModes → Bytes
unfolding finish
mode_bytes none = []
mode_bytes (some modes) = finish modes

pub record ExitSignal : Type 0 where
  pub exit_signal : Option Bytes
  pub error_message : Option Bytes
  pub lang_tag : Option Bytes

pub record ReadWindow : Type 0 where
  pub remaining : ℕ
  pub available : ℕ
  pub window_size_initial : ℕ

pub record WriteWindow : Type 0 where
  pub remaining : ℕ
  pub window_size_initial : ℕ

module _ {S : Type 0} (api : Api S) (channel : ℕ) where
  -- `locked.sess.rc(call(locked.raw))`.
  abbrev checked : (S → ℤ × S) → Call S (Unit {0})
  checked f = raw f >>= λ n. rc api.session n

  unfoldable pub setenv : Bytes → Bytes → Call S (Unit {0})
  unfolding rc
  setenv var val = checked (api.setenv_ex channel (c_slice var) (c_slice val))

  unfoldable pub request_pty : Bytes → Option PtyModes → Option PtySize → Call S (Unit {0})
  unfolding rc mode_bytes
  request_pty term mode dim =
      let d = or_size dim in
      checked (
        api.request_pty_ex channel (c_slice term) (c_slice (mode_bytes mode)) (dimension d.width)
          (dimension d.height) (dimension d.width_px) (dimension d.height_px))

  unfoldable pub request_pty_size : ℕ → ℕ → Option ℕ → Option ℕ → Call S (Unit {0})
  unfolding rc
  request_pty_size width height width_px height_px = checked (
      api.request_pty_size_ex channel (dimension width) (dimension height)
        (dimension (or_zero width_px)) (dimension (or_zero height_px)))

  unfoldable pub request_auth_agent_forwarding : Call S (Unit {0})
  unfolding rc
  request_auth_agent_forwarding = checked (api.request_auth_agent channel)

  -- No message is a null pointer with length 0.
  abbrev message_slice : Option Bytes → Option Bytes
  message_slice none = none
  message_slice (some m) = some (c_slice m)

  unfoldable pub process_startup : Bytes → Option Bytes → Call S (Unit {0})
  unfolding rc
  process_startup request message =
      checked (api.process_startup channel (c_slice request) (message_slice message))

  unfoldable pub exec : Bytes → Call S (Unit {0})
  unfolding process_startup
  exec command = process_startup (bytes "exec") (some command)

  unfoldable pub shell : Call S (Unit {0})
  unfolding process_startup
  shell = process_startup (bytes "shell") none

  unfoldable pub subsystem : Bytes → Call S (Unit {0})
  unfolding process_startup
  subsystem system = process_startup (bytes "subsystem") (some system)

  unfoldable pub handle_extended_data : ExtendedData → Call S (Unit {0})
  unfolding rc extended_data_code
  handle_extended_data mode = checked (api.handle_extended_data2 channel (extended_data_code mode))

  unfoldable pub exit_status : Call S ℤ
  exit_status = raw (api.get_exit_status channel)

  -- `convert`: the text of a block that libssh2 has allocated, which is freed.
  unfoldable pub convert : Option Block → Call S (Option Bytes)
  convert none s = (Result.ok none, s)
  convert (some block) s = (Result.ok (from_utf8 block.content), api.release block.address s)

  -- The three texts, if the code is not negative.
  unfoldable pub texts : ℤ → Option Block → Option Block → Option Block → Call S ExitSignal
  unfolding rc convert
  texts n sig msg lang = do
    rc api.session n
    sig_text ← convert sig
    msg_text ← convert msg
    lang_text ← convert lang
    pure (record { exit_signal = sig_text; error_message = msg_text; lang_tag = lang_text })

  unfoldable pub exit_signal : Call S ExitSignal
  unfolding texts
  exit_signal = do (n, sig, msg, lang) ← raw (api.get_exit_signal channel); texts n sig msg lang

  unfoldable pub read_window : Call S ReadWindow
  read_window = do
    (remaining, avail, init) ← raw (api.window_read_ex channel)
    pure (record {
      remaining = remaining % 2 ^ 32;
      available = avail % 2 ^ 32;
      window_size_initial = init % 2 ^ 32;
    })

  unfoldable pub write_window : Call S WriteWindow
  write_window = do
    (remaining, init) ← raw (api.window_write_ex channel)
    pure (record { remaining = remaining % 2 ^ 32; window_size_initial = init % 2 ^ 32 })

  unfoldable pub adjust_receive_window : ℕ → Bool → Call S ℕ
  unfolding rc
  adjust_receive_window adjust force = do
    (n, size) ← raw (api.receive_window_adjust2 channel adjust (if force then 1 else 0))
    rc api.session n
    pure size

  unfoldable pub send_eof : Call S (Unit {0})
  unfolding rc
  send_eof = checked (api.send_eof channel)

  unfoldable pub wait_eof : Call S (Unit {0})
  unfolding rc
  wait_eof = checked (api.wait_eof channel)

  unfoldable pub close : Call S (Unit {0})
  unfolding rc
  close = checked (api.close channel)

  unfoldable pub wait_close : Call S (Unit {0})
  unfolding rc
  wait_close = checked (api.wait_closed channel)
