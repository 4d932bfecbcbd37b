-- ===== src/KnownHosts/Raw.antt =====
-- The calls of libssh2 that src/knownhosts.rs makes, over a state `S` of libssh2 that only they see.
-- The collection and its nodes are pointers.
use ssh2_rs.Base.{ℕ, Option}
use ssh2_rs.Base.Int.{ℤ}
use ssh2_rs.Base.Text.{Bytes}
use ssh2_rs.Errors.Session.{Session}

-- `struct libssh2_knownhost`: its two strings, a null pointer as `none`.
pub record Node : Type 0 where
  pub name : Option Bytes
  pub key : Option Bytes

pub record Api (S : Type 0) : Type 0 where
  pub session : Session S
  pub readfile : ℕ → Bytes → ℤ → S → ℤ × S
  pub readline : ℕ → Bytes → ℤ → S → ℤ × S
  pub writefile : ℕ → Bytes → ℤ → S → ℤ × S
  pub writeline : ℕ → ℕ → ℕ → ℤ → S → (ℤ × ℕ × Bytes) × S
  pub get : ℕ → Option ℕ → S → (ℤ × ℕ) × S
  pub node : ℕ → S → Node
  pub del : ℕ → ℕ → S → ℤ × S
  pub checkp : ℕ → Bytes → ℤ → Bytes → ℕ → S → ℤ × S
  pub addc : ℕ → Bytes → Bytes → Bytes → ℕ → S → ℤ × S
  pub free : ℕ → S → S
