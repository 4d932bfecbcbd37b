-- ===== src/Session/Auth.antt =====
-- src/session.rs: making a session, and the authentications by public key and by host.
use ssh2_rs.Base.{ℕ, Bool, Option, none, some, length}
use ssh2_rs.Base.Int.{ℤ, is_set}
use ssh2_rs.Base.Text.{Bytes}
use ssh2_rs.Errors.{unknown, Result, ok, err, Call, pure, raw, lift, c_string, ◌>>=◌}
use ssh2_rs.Errors.Session.{Session, rc}
use ssh2_rs.Paths.{path2bytes}
use ssh2_rs.Paths.Slices.{c_slice}

-- The calls of libssh2 that are made here. A C string is its bytes, a null pointer `none`.
pub record AuthApi (S : Type 0) : Type 0 where
  pub session : Session S
  pub userauth_publickey_fromfile_ex : Bytes → Option Bytes → Bytes → Option Bytes → S → ℤ × S
  pub userauth_publickey_frommemory :
      Bytes → Option Bytes → ℕ → Bytes → ℕ → Option Bytes → S → ℤ × S
  pub userauth_hostbased_fromfile_ex :
      Bytes → Bytes → Bytes → Option Bytes → Bytes → Bytes → S → ℤ × S
  pub userauth_authenticated : S → ℤ

-- What `libssh2_session_init_ex` gives: the handle and the stream of the session.
pub record Fresh : Type 0 where
  pub handle : ℕ
  pub tcp : Option ℕ

-- `Session::new`.
unfoldable pub new : Option ℕ → Result Fresh
new none = err unknown
new (some ret) = ok (record { handle = ret; tcp = none })

abbrev pub len_of : Option Bytes → ℕ
len_of none = 0
len_of (some s) = length s

abbrev pub or_user : Bytes → Option Bytes → Bytes
or_user username none = username
or_user username (some local) = local

module _ {S : Type 0} (api : AuthApi S) where
  -- `CString::new` of a string that may be missing.
  abbrev c_option : Option Bytes → Call S (Option Bytes)
  c_option none = pure none
  c_option (some s) = lift (c_string s) >>= λ t. pure (some t)

  -- `CString::new(util::path2bytes(path)?)?`, and that of a path that may be missing.
  abbrev c_path : Bytes → Call S Bytes
  c_path path = do p ← lift (path2bytes path); lift (c_string p)

  abbrev c_path_option : Option Bytes → Call S (Option Bytes)
  c_path_option none = pure none
  c_path_option (some s) = c_path s >>= λ t. pure (some t)

  unfoldable pub userauth_pubkey_file :
      Bytes → Option Bytes → Bytes → Option Bytes → Call S (Unit {0})
  unfolding rc c_string path2bytes
  userauth_pubkey_file username pubkey privatekey passphrase = do
    pub_path ← c_path_option pubkey
    private_path ← c_path privatekey
    phrase ← c_option passphrase
    n ← raw (api.userauth_publickey_fromfile_ex (c_slice username) pub_path private_path phrase)
    rc api.session n

  unfoldable pub userauth_pubkey_memory :
      Bytes → Option Bytes → Bytes → Option Bytes → Call S (Unit {0})
  unfolding rc c_string
  userauth_pubkey_memory username pubkeydata privatekeydata passphrase = do
    pub_key ← c_option pubkeydata
    private_key ← lift (c_string privatekeydata)
    phrase ← c_option passphrase
    n ← raw (
        api.userauth_publickey_frommemory username pub_key (len_of pubkeydata) private_key
          (length privatekeydata) phrase)
    rc api.session n

  unfoldable pub userauth_hostbased_file :
      Bytes → Bytes → Bytes → Option Bytes → Bytes → Option Bytes → Call S (Unit {0})
  unfolding rc c_string path2bytes
  userauth_hostbased_file username publickey privatekey passphrase hostname local_username = do
    pub_path ← c_path publickey
    private_path ← c_path privatekey
    phrase ← c_option passphrase
    n ← raw (
        api.userauth_hostbased_fromfile_ex (c_slice username) pub_path private_path phrase
          (c_slice hostname) (c_slice (or_user username local_username)))
    rc api.session n

  unfoldable pub authenticated : S → Bool
  authenticated s = is_set (api.userauth_authenticated s)
