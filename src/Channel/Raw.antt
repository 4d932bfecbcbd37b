-- ===== src/Channel/Raw.antt =====
-- The calls of libssh2 that src/channel.rs makes, over a state `S` of libssh2 that only they see.
-- A channel is a pointer; text and buffers are the bytes that the length beside the pointer spans.
use ssh2_rs.Base.{ℕ, Option}
use ssh2_rs.Base.Int.{ℤ}
use ssh2_rs.Base.Text.{Bytes}
use ssh2_rs.Errors.Session.{Session}

-- Memory that libssh2 has allocated: its address and its bytes.
pub record Block : Type 0 where
  pub address : ℕ
  pub content : Bytes

pub record Api (S : Type 0) : Type 0 where
  pub session : Session S
  pub setenv_ex : ℕ → Bytes → Bytes → S → ℤ × S
  pub request_pty_ex : ℕ → Bytes → Bytes → ℤ → ℤ → ℤ → ℤ → S → ℤ × S
  pub request_pty_size_ex : ℕ → ℤ → ℤ → ℤ → ℤ → S → ℤ × S
  pub request_auth_agent : ℕ → S → ℤ × S
  pub process_startup : ℕ → Bytes → Option Bytes → S → ℤ × S
  pub handle_extended_data2 : ℕ → ℤ → S → ℤ × S
  pub get_exit_status : ℕ → S → ℤ × S
  pub get_exit_signal : ℕ → S → (ℤ × Option Block × Option Block × Option Block) × S
  pub release : ℕ → S → S
  pub window_read_ex : ℕ → S → (ℕ × ℕ × ℕ) × S
  pub window_write_ex : ℕ → S → (ℕ × ℕ) × S
  pub receive_window_adjust2 : ℕ → ℕ → ℕ → S → (ℤ × ℕ) × S
  pub eof : ℕ → S → ℤ × S
  pub send_eof : ℕ → S → ℤ × S
  pub wait_eof : ℕ → S → ℤ × S
  pub close : ℕ → S → ℤ × S
  pub wait_closed : ℕ → S → ℤ × S
  pub free : ℕ → S → ℤ × S
  pub read_ex : ℕ → ℤ → ℕ → S → (ℤ × Bytes) × S
  pub write_ex : ℕ → ℤ → Bytes → S → ℤ × S
  pub flush_ex : ℕ → ℤ → S → ℤ × S
