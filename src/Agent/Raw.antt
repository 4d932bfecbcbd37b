-- ===== src/Agent/Raw.antt =====
-- The calls of libssh2 that src/agent.rs makes, over a state `S` of libssh2 that only they see. The
-- agent and its keys are pointers.
use ssh2_rs.Base.{ℕ, Option}
use ssh2_rs.Base.Int.{ℤ}
use ssh2_rs.Base.Text.{Bytes}
use ssh2_rs.Errors.Session.{Session}

-- `struct libssh2_agent_publickey`: the bytes that `blob` and `blob_len` span, and the comment, a
-- null pointer as `none`.
pub record Node : Type 0 where
  pub blob : Bytes
  pub comment : Option Bytes

pub record Api (S : Type 0) : Type 0 where
  pub session : Session S
  pub connect : ℕ → S → ℤ × S
  pub disconnect : ℕ → S → ℤ × S
  pub list_identities : ℕ → S → ℤ × S
  pub get_identity : ℕ → Option ℕ → S → (ℤ × ℕ) × S
  pub node : ℕ → S → Node
  pub userauth : ℕ → Bytes → ℕ → S → ℤ × S
  pub free : ℕ → S → S
  -- `CStr::to_string_lossy` of the standard library.
  pub to_string_lossy : Bytes → Bytes
