-- ===== src/Channel/Tests.antt =====
-- A libssh2 that puts zero bytes into whatever buffer it is given, under a channel that may read
-- three bytes.
use ssh2_rs.Base.{All, ◌≢◌, ℕ, zero, suc, ◌+◌, ◌≡◌, refl, none, some, List, [], ◌∷◌, length, arith}
use ssh2_rs.Base.Int.{ℤ, pos}
use ssh2_rs.Base.Text.{Bytes}
use ssh2_rs.Errors.{panic}
use ssh2_rs.Errors.Session.{Session}
use ssh2_rs.Channel.{Shared}
use ssh2_rs.Channel.Raw.{Api}
use ssh2_rs.Channel.Requests.{mode_bytes}
use ssh2_rs.Channel.RequestLaws.{Request, wants_pty, request, asked, judged, request-judged}
use ssh2_rs.Channel.Limit.{ReadsWithin, read_each, handed, read_each-limit}

pub zeros : ℕ → Bytes
zeros zero = []
zeros (suc n) = 0 ∷ zeros n

length-zeros : (n : ℕ) → length (zeros n) ≡ n
unfolding zeros
length-zeros zero = refl
length-zeros (suc n) = ground (arith, length-zeros n)

abbrev pub idle_session : Session ℤ
idle_session = record {
  last_error = λ s. (pos 0, none);
  get_blocking = λ s. s;
  set_blocking = λ b s. b;
}

abbrev pub endless : Api ℤ
endless = record {
  session = idle_session;
  setenv_ex = λ p k v s. (pos 0, s);
  request_pty_ex = λ p t m w h pw ph s. (pos 0, s);
  request_pty_size_ex = λ p w h pw ph s. (pos 0, s);
  request_auth_agent = λ p s. (pos 0, s);
  process_startup = λ p r m s. (pos 0, s);
  handle_extended_data2 = λ p m s. (pos 0, s);
  get_exit_status = λ p s. (pos 0, s);
  get_exit_signal = λ p s. ((pos 0, none, none, none), s);
  release = λ a s. s;
  window_read_ex = λ p s. ((0, 0, 0), s);
  window_write_ex = λ p s. ((0, 0), s);
  receive_window_adjust2 = λ p n f s. ((pos 0, 0), s);
  eof = λ p s. (pos 0, s);
  send_eof = λ p s. (pos 0, s);
  wait_eof = λ p s. (pos 0, s);
  close = λ p s. (pos 0, s);
  wait_closed = λ p s. (pos 0, s);
  free = λ p s. (pos 0, s);
  read_ex = λ p id len s. ((pos len, zeros len), s);
  write_ex = λ p id buf s. (pos (length buf), s);
  flush_ex = λ p id s. (pos 0, s);
}

pub endless-ReadsWithin : ReadsWithin endless
endless-ReadsWithin = record {
  count = λ p id len s n e. ground (arith, length-zeros len);
  failure = λ p id len s k e. cc;
}

abbrev limited : ℕ → Shared ℤ
limited amt = record { inner = record { unsafe_raw = 9; read_limit = some amt }; lib = pos 0 }

-- Two bytes from the output and two from the error stream: only three are handed out.
abbrev pub reads : List (ℤ × ℕ)
reads = (pos 0, 2) ∷ (pos 1, 2) ∷ []

read_each-limit_example :
    let (rs, w) = read_each endless reads (limited 3) in
    All (λ r. r ≢ panic) rs
    × ((left : ℕ) × (w.inner.read_limit ≡ some left) × (length (handed rs) + left ≡ 3))
read_each-limit_example =
    read_each-limit endless endless-ReadsWithin reads 3 (limited 3) (omega arith) refl

abbrev wide_terminal : Request
wide_terminal =
    wants_pty (118 ∷ 116 ∷ []) none
      (some (record { width = 132; height = 50; width_px = 0; height_px = 0 }))

request-judged_example :
    request endless 9 wide_terminal (pos 0)
    ≡ judged endless 9 (asked endless 9 wide_terminal (pos 0))
unfolding mode_bytes
request-judged_example =
    request-judged endless 9 wide_terminal (pos 0) (omega arith, (omega arith, tt))
      (omega arith, (omega arith, (omega arith, (omega arith, tt))))
