-- ===== src/KnownHosts.antt =====
-- src/knownhosts.rs: the collection of known hosts.
pub mod Raw
pub mod Laws
pub mod Bag
pub mod Programs
pub mod Refinement
mod Tests
mod BagTests
use ssh2_rs.Base.{
  ℕ, zero, suc, ◌+◌, Bool, true, false, ◌&&◌, Option, none, some, List, take, if◌then◌else◌,
}
use ssh2_rs.Base.Int.{ℤ, pos, negsuc, is_negative, as_u32, ◌==ℤ◌}
use ssh2_rs.Base.Text.{Bytes, bytes_eq, from_utf8}
use ssh2_rs.Sys.{error_bad_use, error_buffer_too_small}
use ssh2_rs.Codes.{
  KnownHostFileKind, file_kind_code, CheckResult, check_result, KnownHostKeyFormat, check_flags,
  add_flags,
}
use ssh2_rs.Errors.{
  Error, unknown, new, Result, ok, err, panic, Call, pure, raw, abort, lift, c_string, ok_or, ◌>>=◌,
  ◌>>◌,
}
use ssh2_rs.Errors.Session.{rc}
use ssh2_rs.Paths.{path2bytes}
use ssh2_rs.Sftp.Buffers.{reserve, initial_capacity}
use ssh2_rs.Walk.{Outcome, all_of, resolve, resume}
use Raw.{Api, Node}

pub record Host : Type 0 where
  pub name : Option Bytes
  pub key : Bytes

-- `#[derive(PartialEq)]` of `Option<String>` and of `Host`.
abbrev pub name_eq : Option Bytes → Option Bytes → Bool
name_eq none none = true
name_eq none (some y) = false
name_eq (some x) none = false
name_eq (some x) (some y) = bytes_eq x y

abbrev pub host_eq : Host → Host → Bool
host_eq a b = name_eq a.name b.name && bytes_eq a.key b.key

abbrev pub text_of : Option Bytes → Option Bytes
text_of none = none
text_of (some b) = from_utf8 b

abbrev pub with_key : Option Bytes → Option Bytes → Option Host
with_key name none = none
with_key name (some key) = some (record { name = name; key = key })

-- `Host::from_raw`: a name that is not UTF-8 is dropped, and a key that is not there or not UTF-8
-- panics, `none` here.
unfoldable pub from_raw : Node → Option Host
unfolding from_utf8
from_raw raw = with_key (text_of raw.name) (text_of raw.key)

-- `KnownHosts::from_raw_opt`: the handle of the collection.
unfoldable pub from_raw_opt : Option ℕ → Option Error → Result ℕ
from_raw_opt none none = err unknown
from_raw_opt none (some e) = err e
from_raw_opt (some p) e = ok p

-- `String::from_utf8(v).unwrap()`.
abbrev pub utf8_or_panic : Option Bytes → Result Bytes
utf8_or_panic none = panic
utf8_or_panic (some text) = ok text

module _ {S : Type 0} (api : Api S) (hosts_raw : ℕ) where
  abbrev read : ℕ → S → Option Host
  read p s = from_raw (api.node p s)

  -- `CString::new(util::path2bytes(file)?)?`.
  abbrev c_path : Bytes → Call S Bytes
  c_path file = do path ← lift (path2bytes file); lift (c_string path)

  unfoldable pub counted : ℤ → Call S ℕ
  unfolding rc
  counted n s = elim (is_negative n) [
    | true ↦ (rc api.session n >>= λ _. pure (as_u32 n)) s
    | false ↦ (ok (as_u32 n), s)
  ]

  unfoldable pub read_file : Bytes → KnownHostFileKind → Call S ℕ
  unfolding path2bytes c_string counted
  read_file file kind = do
    path ← c_path file
    n ← raw (api.readfile hosts_raw path (file_kind_code kind))
    counted n

  unfoldable pub read_str : Bytes → KnownHostFileKind → Call S (Unit {0})
  unfolding rc
  read_str str kind = do
    n ← raw (api.readline hosts_raw str (file_kind_code kind))
    rc api.session n

  unfoldable pub write_file : Bytes → KnownHostFileKind → Call S (Unit {0})
  unfolding rc path2bytes c_string
  write_file file kind = do
    path ← c_path file
    n ← raw (api.writefile hosts_raw path (file_kind_code kind))
    rc api.session n

  -- `KnownHosts::hosts` and `KnownHosts::iter`.
  unfoldable pub hosts : ℕ → S → Outcome S (List Host)
  hosts fuel s = all_of api.session (api.get hosts_raw) read fuel none s

  unfoldable pub resolve_to_raw_host : ℕ → Host → S → Outcome S (Option ℕ)
  resolve_to_raw_host fuel host s =
      resolve api.session (api.get hosts_raw) read (λ current. host_eq current host) fuel none s

  unfoldable pub delete : Option ℕ → Call S (Unit {0})
  unfolding rc
  delete none = pure tt
  delete (some raw_host) = do n ← raw (api.del hosts_raw raw_host); rc api.session n

  unfoldable pub remove : ℕ → Host → S → Outcome S (Unit {0})
  remove fuel host s = resume (resolve_to_raw_host fuel host s) delete

  -- The loop of `write_string`, from a capacity on: the text as it stands in the buffer.
  unfoldable pub write_loop : ℕ → ℕ → ℕ → ℤ → S → Outcome S Bytes
  write_loop zero cap raw_host kind s = none
  write_loop (suc fuel) cap raw_host kind s =
      let ((n, outlen, buffer), s') = api.writeline hosts_raw raw_host cap kind s in
      let again = write_loop fuel (reserve cap (outlen + 1)) raw_host kind s' in
      if n ==ℤ error_buffer_too_small
      then again
      else some
          ((rc api.session n >>= λ _. lift (utf8_or_panic (from_utf8 (take outlen buffer)))) s')

  unfoldable pub write_host : ℕ → ℤ → Option ℕ → S → Outcome S Bytes
  write_host fuel kind none s =
      some (err (new error_bad_use "Host is not in the set of known hosts"), s)
  write_host fuel kind (some raw_host) s = write_loop fuel initial_capacity raw_host kind s

  unfoldable pub written : ℕ → ℤ → Outcome S (Option ℕ) → Outcome S Bytes
  unfolding write_host
  written fuel kind none = none
  written fuel kind (some (ok found, s)) = write_host fuel kind found s
  written fuel kind (some (err e, s)) = some (err e, s)
  written fuel kind (some (panic, s)) = some (panic, s)

  -- `KnownHosts::write_string`; each of the two loops has the fuel.
  unfoldable pub write_string : ℕ → Host → KnownHostFileKind → S → Outcome S Bytes
  unfolding written
  write_string fuel host kind s =
      written fuel (file_kind_code kind) (resolve_to_raw_host fuel host s)

  unfoldable pub check_name : Result Bytes → ℤ → Bytes → Call S CheckResult
  check_name (ok name) port key = do
    n ← raw (api.checkp hosts_raw name port key check_flags)
    pure (check_result n)
  check_name (err e) port key = abort
  check_name panic port key = abort

  unfoldable pub check_port_ : Bytes → ℤ → Bytes → Call S CheckResult
  unfolding c_string check_name
  check_port_ host port key = check_name (c_string host) port key

  unfoldable pub check : Bytes → Bytes → Call S CheckResult
  check host key = check_port_ host (negsuc 0) key

  unfoldable pub check_port : Bytes → ℕ → Bytes → Call S CheckResult
  check_port host port key = check_port_ host (pos port) key

  unfoldable pub add : Bytes → Bytes → Bytes → KnownHostKeyFormat → Call S (Unit {0})
  unfolding c_string rc
  add host key comment fmt = do
    name ← lift (c_string host)
    n ← raw (api.addc hosts_raw name key comment (add_flags fmt))
    rc api.session n

  -- `Drop for KnownHosts`.
  unfoldable pub drop : S → S
  drop s = api.free hosts_raw s
