-- ===== src/Session.antt =====
-- src/session.rs: the session's own calls. The session's mutex makes each of them one step.
pub mod Raw
pub mod Open
pub mod Prompt
pub mod PromptLaws
pub mod Inner
pub mod Keyboard
pub mod KeyboardLaws
pub mod Auth
pub mod Laws
pub mod OpenLaws
pub mod AuthLaws
pub mod AgentLaws
pub mod Tests
mod CallTests
use ssh2_rs.Base.{
  ℕ, zero, suc, ◌%◌, ◌^◌, Bool, true, false, Option, none, some, List, [], ◌∷◌, length, take,
  if◌then◌else◌,
}
use ssh2_rs.Base.Int.{ℤ, pos, negsuc, is_nonneg, as_u32, signed32, ◌==ℤ◌}
use ssh2_rs.Base.Text.{Bytes, from_utf8}
use ssh2_rs.Paths.Slices.{c_slice}
use ssh2_rs.Sys.{error_bad_socket, flag_sigpipe, flag_compress}
use ssh2_rs.Codes.{
  DisconnectCode, by_application, disconnect_code, HostKeyType, host_key_kind, HashType, hash_code,
  hash_len, MethodType, method_code, BlockDirections, block_directions_of,
}
use ssh2_rs.Errors.{
  Error, new, Result, ok, err, panic, Call, pure, raw, fail, abort, lift, c_string, unwrap, ◌>>=◌,
  ◌>>◌,
}
use ssh2_rs.Errors.Session.{rc, last_error_raw}
use Raw.{Api}

-- `result.unwrap()`.
abbrev pub unwrapped : {A : Type 0} → Result A → Result A
unwrapped (ok a) = ok a
unwrapped (err e) = panic
unwrapped panic = panic

-- `and_then(|s| str::from_utf8(s).ok())`.
abbrev pub text_of : Option Bytes → Option Bytes
text_of none = none
text_of (some b) = from_utf8 b

-- `opt_bytes(...).unwrap()` and `str::from_utf8(...).unwrap()` of each string.
abbrev pub texts_of : List (Option Bytes) → Option (List Bytes)
texts_of [] = some []
texts_of (s ∷ strings) = both (text_of s) (texts_of strings)
  where
    both : Option Bytes → Option (List Bytes) → Option (List Bytes)
    both none rest = none
    both (some t) none = none
    both (some t) (some ts) = some (t ∷ ts)

abbrev pub flag_of : Bool → ℤ
flag_of true = pos 1
flag_of false = pos 0

-- `set_tcp_stream`: the stream that the session holds, by its descriptor.
unfoldable pub set_tcp_stream : ℕ → Option ℕ → Option ℕ
set_tcp_stream stream tcp = some stream

module _ {S : Type 0} (api : Api S) where
  abbrev checked : (S → ℤ × S) → Call S (Unit {0})
  checked f = raw f >>= rc api.session

  unfoldable pub set_banner : Bytes → Call S (Unit {0})
  unfolding rc c_string
  set_banner banner = do text ← lift (c_string banner); checked (api.banner_set text)

  abbrev must : Call S (Unit {0}) → Call S (Unit {0})
  must m s = let (r, s') = m s in (unwrapped r, s')

  -- LIBSSH2_FLAG_SIGPIPE is 1 and LIBSSH2_FLAG_COMPRESS 2.
  unfoldable pub set_allow_sigpipe : Bool → Call S (Unit {0})
  unfolding rc
  set_allow_sigpipe block = must (checked (api.flag flag_sigpipe (flag_of block)))

  unfoldable pub set_compress : Bool → Call S (Unit {0})
  unfolding rc
  set_compress compress = must (checked (api.flag flag_compress (flag_of compress)))

  unfoldable pub set_timeout : ℕ → S → S
  set_timeout timeout_ms s = api.set_timeout timeout_ms s

  unfoldable pub timeout : S → ℕ
  timeout s = as_u32 (api.get_timeout s)

  unfoldable pub handshake : Option ℕ → Call S (Unit {0})
  unfolding rc
  handshake none = fail (new error_bad_socket "use set_tcp_stream() to associate with a TcpStream")
  handshake (some stream) = checked (api.handshake stream)

  unfoldable pub userauth_password : Bytes → Bytes → Call S (Unit {0})
  unfolding rc
  userauth_password username password =
      checked (api.userauth_password_ex (c_slice username) (c_slice password))

  abbrev auth_list : Option Bytes → Option Error → Result Bytes
  auth_list none none = ok []
  auth_list none (some e) = err e
  auth_list (some text) e = elim (from_utf8 text) [ none ↦ panic | some t ↦ ok t ]

  unfoldable pub auth_methods : Bytes → Call S Bytes
  unfolding c_string last_error_raw from_utf8
  auth_methods username = do
    name ← lift (c_string username)
    ret ← raw (api.userauth_list name (length username % 2 ^ 32))
    λ s. (auth_list ret (last_error_raw api.session s), s)

  unfoldable pub method_pref : MethodType → Bytes → Call S (Unit {0})
  unfolding rc c_string
  method_pref method_type prefs = do
    text ← lift (c_string prefs)
    checked (api.method_pref (method_code method_type) text)

  unfoldable pub methods : MethodType → S → Option Bytes
  unfolding from_utf8
  methods method_type s = text_of (api.methods (method_code method_type) s)

  -- `if rc <= 0 { inner.rc(rc)? }`, which a code of 0 passes; the count of the strings otherwise.
  abbrev alg_count : ℤ → Call S ℕ
  alg_count (pos n) s = (ok n, s)
  alg_count (negsuc k) s = (rc api.session (negsuc k) >>= λ _. abort) s

  unfoldable pub supported_algs : MethodType → Call S (List Bytes)
  unfolding rc from_utf8
  supported_algs method_type = do
    (code, strings) ← raw (api.supported_algs (method_code method_type))
    n ← alg_count code
    ret ← unwrap (texts_of (take n strings))
    λ s. (ok ret, api.free_list s)

  -- `banner` and `banner_bytes`.
  unfoldable pub banner_bytes : S → Option Bytes
  banner_bytes s = api.banner_get s

  unfoldable pub banner : S → Option Bytes
  unfolding from_utf8
  banner s = text_of (banner_bytes s)

  abbrev with_kind : Option Bytes → ℤ → Option (Bytes × HostKeyType)
  with_kind none kind = none
  with_kind (some key) kind = some (key, host_key_kind kind)

  unfoldable pub host_key : S → Option (Bytes × HostKeyType)
  unfolding host_key_kind
  host_key s = let (key, kind) = api.hostkey s in with_kind key kind

  abbrev prefix : ℕ → Option Bytes → Option Bytes
  prefix len none = none
  prefix len (some digest) = some (take len digest)

  unfoldable pub host_key_hash : HashType → S → Option Bytes
  host_key_hash hash s = prefix (hash_len hash) (api.hostkey_hash (hash_code hash) s)

  unfoldable pub set_keepalive : Bool → ℕ → S → S
  set_keepalive want_reply interval s = api.keepalive_config (flag_of want_reply) interval s

  unfoldable pub keepalive_send : Call S ℕ
  unfolding rc
  keepalive_send = do (code, ret) ← raw api.keepalive_send; rc api.session code; pure (as_u32 ret)

  abbrev reason_of : Option DisconnectCode → ℤ
  reason_of none = disconnect_code by_application
  reason_of (some code) = disconnect_code code

  abbrev lang_of : Option Bytes → Bytes
  lang_of none = []
  lang_of (some lang) = lang

  unfoldable pub disconnect : Option DisconnectCode → Bytes → Option Bytes → Call S (Unit {0})
  unfolding rc c_string disconnect_code
  disconnect reason description lang = do
    d ← lift (c_string description)
    l ← lift (c_string (lang_of lang))
    checked (api.disconnect_ex (reason_of reason) d l)

  unfoldable pub block_directions : S → BlockDirections
  block_directions s = block_directions_of (api.block_directions s)
