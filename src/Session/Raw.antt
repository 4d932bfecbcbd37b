-- ===== src/Session/Raw.antt =====
-- The calls of libssh2 that src/session.rs and src/listener.rs make on a session, over a state `S`
-- of libssh2 that only they see.
use ssh2_rs.Base.{ℕ, Option, List}
use ssh2_rs.Base.Int.{ℤ}
use ssh2_rs.Base.Text.{Bytes}
use ssh2_rs.Errors.Session.{Session}

-- The fields of `libssh2_struct_stat` that the crate reads.
pub record ScpStat : Type 0 where
  pub st_size : ℤ
  pub st_mode : ℕ

pub record Api (S : Type 0) : Type 0 where
  pub session : Session S
  pub banner_set : Bytes → S → ℤ × S
  pub banner_get : S → Option Bytes
  pub flag : ℕ → ℤ → S → ℤ × S
  pub set_timeout : ℕ → S → S
  pub get_timeout : S → ℤ
  pub handshake : ℕ → S → ℤ × S
  pub userauth_password_ex : Bytes → Bytes → S → ℤ × S
  pub userauth_list : Bytes → ℕ → S → Option Bytes × S
  pub method_pref : ℤ → Bytes → S → ℤ × S
  pub methods : ℤ → S → Option Bytes
  -- The code, and the strings behind the pointer that is stored.
  pub supported_algs : ℤ → S → (ℤ × List (Option Bytes)) × S
  pub free_list : S → S
  pub hostkey : S → Option Bytes × ℤ
  pub hostkey_hash : ℤ → S → Option Bytes
  pub keepalive_config : ℤ → ℕ → S → S
  pub keepalive_send : S → (ℤ × ℤ) × S
  pub disconnect_ex : ℤ → Bytes → Bytes → S → ℤ × S
  pub block_directions : S → ℤ
  pub agent_init : S → Option ℕ × S
  pub knownhost_init : S → Option ℕ × S
  pub sftp_init : S → Option ℕ × S
  pub channel_open_ex : Bytes → ℕ → ℕ → Option Bytes → S → Option ℕ × S
  pub channel_direct_tcpip_ex : Bytes → ℕ → Bytes → ℕ → S → Option ℕ × S
  pub channel_forward_listen_ex : Option Bytes → ℕ → ℤ → S → (Option ℕ × ℤ) × S
  -- What stands in memory behind the bytes of a Rust string, up to the first zero byte.
  pub behind : Bytes → S → Bytes
  pub channel_forward_accept : ℕ → S → Option ℕ × S
  pub channel_forward_cancel : ℕ → S → ℤ × S
  pub scp_recv2 : Bytes → S → (Option ℕ × ScpStat) × S
  pub scp_send64 : Bytes → ℤ → ℤ → ℤ → ℤ → S → Option ℕ × S
