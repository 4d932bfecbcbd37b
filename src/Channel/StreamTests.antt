-- ===== src/Channel/StreamTests.antt =====
-- A libssh2 that has bytes for stream 0 and none for the others.
use ssh2_rs.Base.{
  ℕ, zero, suc, ◌≡◌, refl, ap, some, none, List, [], ◌∷◌, ◌++◌, length, take, drop, length-take-le,
  if◌then◌else◌, arith,
}
use ssh2_rs.Base.Int.{ℤ, pos, negsuc, ◌==ℤ◌}
use ssh2_rs.Base.Text.{Bytes}
use ssh2_rs.Channel.{Shared}
use ssh2_rs.Channel.Raw.{Api, Block}
use ssh2_rs.Channel.Requests.{exit_signal}
use ssh2_rs.Channel.Memory.{Allocates, exit_signal-owned}
use ssh2_rs.Channel.Streams.{Delivers, of_stream, read_all, read_all-InOrder}

abbrev src : Bytes → ℤ → Bytes
src s id = if id ==ℤ pos 0 then s else []

abbrev after : ℤ → ℕ → Bytes → Bytes
after id len s = if id ==ℤ pos 0 then drop len s else s

abbrev pipe : Api Bytes
pipe = record {
  session = record {
    last_error = λ s. (pos 0, none);
    get_blocking = λ s. pos 0;
    set_blocking = λ b s. s;
  };
  setenv_ex = λ p k v s. (pos 0, s);
  request_pty_ex = λ p t m w h pw ph s. (pos 0, s);
  request_pty_size_ex = λ p w h pw ph s. (pos 0, s);
  request_auth_agent = λ p s. (pos 0, s);
  process_startup = λ p r m s. (pos 0, s);
  handle_extended_data2 = λ p m s. (pos 0, s);
  get_exit_status = λ p s. (pos 0, s);
  get_exit_signal = λ p s. ((pos 0, none, none, none), s);
  release = λ a s. s;
  window_read_ex = λ p s. ((0, 0, 0), s);
  window_write_ex = λ p s. ((0, 0), s);
  receive_window_adjust2 = λ p n f s. ((pos 0, 0), s);
  eof = λ p s. (pos 0, s);
  send_eof = λ p s. (pos 0, s);
  wait_eof = λ p s. (pos 0, s);
  close = λ p s. (pos 0, s);
  wait_closed = λ p s. (pos 0, s);
  free = λ p s. (pos 0, s);
  read_ex =
      λ p id len s. ((pos (length (take len (src s id))), take len (src s id)), after id len s);
  write_ex = λ p id buf s. (pos (length buf), s);
  flush_ex = λ p id s. (pos 0, s);
}

take-drop : (n : ℕ) (s : Bytes) → s ≡ take n s ++ drop n s
take-drop zero s = refl
take-drop (suc n) [] = refl
take-drop (suc n) (b ∷ s) = ap (λ l. b ∷ l) (take-drop n s)

take-empty : (n : ℕ) → take {A = ℕ} n [] ≡ []
take-empty zero = refl
take-empty (suc n) = refl

front :
    (id i : ℤ) (len : ℕ) (s : Bytes)
    → src s i ≡ (if id ==ℤ i then take len (src s id) else []) ++ src (after id len s) i
front (pos a) (pos b) len s = ground (arith, take-drop len s, take-empty len)
front (pos a) (negsuc b) len s = ground (arith, take-drop len s, take-empty len)
front (negsuc a) (pos b) len s = ground (arith, take-drop len s, take-empty len)
front (negsuc a) (negsuc b) len s = ground (arith, take-drop len s, take-empty len)

abbrev pipe-Delivers : Delivers pipe
pipe-Delivers = record {
  ahead = src;
  within = record {
    count = λ p id len s n e. ground (arith, length-take-le len (src s id));
    failure = λ p id len s k e. cc;
  };
  taken = λ p id len s n i e. front id i len s;
  failed = λ p id len s k i e. cc;
  tested = λ p s i. refl;
}

abbrev full : Shared Bytes
full = record { inner = record { unsafe_raw = 9; read_limit = some 3 }; lib = 4 ∷ 5 ∷ 6 ∷ 7 ∷ [] }

-- Two reads of stream 0 around one of stream 1.
abbrev turns : List (ℤ × ℕ)
turns = (pos 0, 2) ∷ (pos 1, 2) ∷ (pos 0, 2) ∷ []

read_all-InOrder_example :
    let (handed, w) = read_all pipe turns full in
    (4 ∷ 5 ∷ 6 ∷ 7 ∷ []) ≡ of_stream (pos 0) handed ++ w.lib
read_all-InOrder_example = read_all-InOrder pipe pipe-Delivers (pos 0) turns full (omega arith)

-- The same with an exit signal that has two texts; the state counts as addresses.
abbrev signal : Block
signal = record { address = 1; content = 84 ∷ 69 ∷ 82 ∷ 77 ∷ [] }

abbrev language : Block
language = record { address = 2; content = 255 ∷ [] }

abbrev signalled : Api (List ℕ)
signalled = record pipe {
  get_exit_signal = λ p s. ((pos 0, some signal, none, some language), 1 ∷ 2 ∷ s);
  release = λ a s. drop 1 s;
}

abbrev signalled-Allocates : Allocates signalled
signalled-Allocates = record {
  owned = λ s. s;
  texts = λ p s n sig msg lang s' e. grind arith;
  refused = λ p s k sig msg lang s' e. cc;
  release = λ address rest s e. ap (drop 1) e;
}

exit_signal-owned_example : (exit_signal signalled 9 (5 ∷ [])).1 ≡ 5 ∷ []
exit_signal-owned_example = exit_signal-owned signalled signalled-Allocates 9 (5 ∷ [])
