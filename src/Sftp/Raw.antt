-- ===== src/Sftp/Raw.antt =====
-- The calls of libssh2 that src/sftp.rs makes, over a state `S` of libssh2 that only they see. An
-- SFTP subsystem and a file handle are pointers; a path is the bytes that its length spans.
use ssh2_rs.Base.{ℕ, Option, List}
use ssh2_rs.Base.Int.{ℤ}
use ssh2_rs.Base.Text.{Bytes}
use ssh2_rs.Errors.Session.{Session}
use ssh2_rs.Sftp.Stat.{Attributes}

pub record Api (S : Type 0) : Type 0 where
  pub session : Session S
  pub open_ex : ℕ → Bytes → ℕ → ℤ → ℤ → S → Option ℕ × S
  pub close_handle : ℕ → S → ℤ × S
  pub shutdown : ℕ → S → ℤ × S
  pub mkdir_ex : ℕ → Bytes → ℤ → S → ℤ × S
  pub rmdir_ex : ℕ → Bytes → S → ℤ × S
  pub unlink_ex : ℕ → Bytes → S → ℤ × S
  pub rename_ex : ℕ → Bytes → Bytes → ℕ → S → ℤ × S
  pub stat_ex : ℕ → Bytes → ℤ → Attributes → S → (ℤ × Attributes) × S
  pub symlink : ℕ → Bytes → Bytes → S → ℤ × S
  pub symlink_ex : ℕ → Bytes → ℕ → ℤ → S → (ℤ × Bytes) × S
  pub fstat_ex : ℕ → Attributes → ℤ → S → (ℤ × Attributes) × S
  pub readdir_ex : ℕ → ℕ → S → (ℤ × Bytes × Attributes) × S
  pub fstatvfs : ℕ → S → (ℤ × List ℕ) × S
  pub fsync : ℕ → S → ℤ × S
  pub read : ℕ → ℕ → S → (ℤ × Bytes) × S
  pub write : ℕ → Bytes → S → ℤ × S
  pub tell64 : ℕ → S → ℕ × S
  pub seek64 : ℕ → ℕ → S → S
