-- ===== src/Build.antt =====
-- libssh2-sys/build.rs: the script that finds libssh2, or compiles the copy of it in the repository.
-- It runs in `Call`, for its panics.
pub mod Strings
pub mod Raw
pub mod Settings
pub mod Texts
pub mod StringLaws
pub mod Laws
pub mod Backends
pub mod Compilations
mod Tests
use ssh2_rs.Base.{
  ℕ, Bool, true, false, not, Option, none, some, List, [], ◌∷◌, ◌++◌, length, ltb, if◌then◌else◌,
}
use ssh2_rs.Base.Text.{Bytes, bytes, from_utf8}
use ssh2_rs.Errors.{Result, ok, err, panic, Call, pure, raw, abort, unwrap, ◌>>=◌, ◌>>◌}
use Strings.{contains}
use Raw.{
  Setting, out_dir, file, include, define, flag, warnings, VcpkgSetting, emit_includes, lib_name,
  lib_names, System,
}
use Settings.{sources, unix_settings, windows_settings}
use Texts.{config_text, version, pc_text}

-- `.unwrap()` and `.expect(...)` of what a call gives, and the end of the script in `cc`.
abbrev pub succeed : {S : Type 0} → Bool → Call S (Unit {0})
succeed true = pure tt
succeed false = abort

-- `env::var(name).ok()`: a variable that is set, and text.
abbrev pub text_var : Option Bytes → Option Bytes
text_var none = none
text_var (some v) = from_utf8 v

-- The first path of `DEP_OPENSSL_INCLUDE`, if it is text and not empty.
unfoldable pub openssl_include : Option Bytes → List Setting
openssl_include none = []
openssl_include (some path) = if ltb 0 (length path) then include path ∷ [] else []

unfoldable pub zlib_include : Option Bytes → List Setting
zlib_include none = []
zlib_include (some path) = include path ∷ []

module _ {S : Type 0} (sys : System S) where
  abbrev print : Bytes → Call S (Unit {0})
  print line s = (ok tt, sys.print line s)

  -- A call whose failure ends the script.
  abbrev must : (S → Bool × S) → Call S (Unit {0})
  must f = do done ← raw f; succeed done

  -- OpenSSL 1.1, or else 1.0.
  unfoldable pub find_openssl : Bool → Call S (Unit {0})
  find_openssl true = pure tt
  find_openssl false =
      must (
        sys.probe (lib_name (bytes "libeay32") ∷ lib_name (bytes "ssleay32") ∷ [])
          (bytes "openssl"))

  -- The closure of `try_vcpkg`, where libssh2 was found, and `is_ok`.
  unfoldable pub with_vcpkg : Bool → Call S Bool
  unfolding find_openssl
  with_vcpkg false = pure false
  with_vcpkg true = do
    found ← raw (
        sys.probe (lib_name (bytes "libssl") ∷ lib_name (bytes "libcrypto") ∷ []) (bytes "openssl"))
    find_openssl found
    must (sys.probe (lib_names (bytes "zlib") (bytes "zlib1") ∷ []) (bytes "zlib"))
    print (bytes "cargo:rustc-link-lib=crypt32")
    print (bytes "cargo:rustc-link-lib=gdi32")
    print (bytes "cargo:rustc-link-lib=user32")
    pure true

  -- `try_vcpkg`, for the environment `msvc` and for the others.
  unfoldable pub try_vcpkg : Bool → Call S Bool
  unfolding with_vcpkg
  try_vcpkg false = pure false
  try_vcpkg true = do
    found ← raw (sys.probe (emit_includes true ∷ []) (bytes "libssh2"))
    with_vcpkg found

  unfoldable pub print_includes : List Bytes → Call S (Unit {0})
  print_includes [] = pure tt
  print_includes (path ∷ paths) = do
    print (bytes "cargo:include=" ++ sys.display path)
    print_includes paths

  unfoldable pub with_system : Option (List Bytes) → Call S Bool
  unfolding print_includes
  with_system none = pure false
  with_system (some paths) = do print_includes paths; pure true

  -- The system's copy, if the variable asks for it: whether it was found.
  unfoldable pub try_pkg_config : Option Bytes → Call S Bool
  unfolding with_system
  try_pkg_config none = pure false
  try_pkg_config (some wanted) = do lib ← raw (sys.find_library (bytes "libssh2")); with_system lib

  unfoldable pub update : Bool → S → S
  update true s = s
  update false s = sys.update_submodules s

  abbrev copy_header : Bytes → Bytes → Call S (Unit {0})
  copy_header include_dir header =
      must (sys.copy (bytes "libssh2/include/" ++ header) (sys.join include_dir header))

  -- The settings of the target, and the file that a Unix target needs.
  unfoldable pub target_settings : Bool → Bytes → Call S (List Setting)
  target_settings true build = pure windows_settings
  target_settings false build = do
    template ← raw (sys.read_to_string (bytes "libssh2/src/libssh2_config_cmake.h.in"))
    config ← unwrap template
    must (sys.write (sys.join build (bytes "libssh2_config.h")) (config_text config))
    pure (unix_settings ++ (include build ∷ []))

  unfoldable pub print_windows_libs : Bool → Call S (Unit {0})
  print_windows_libs false = pure tt
  print_windows_libs true = do
    print (bytes "cargo:rustc-link-lib=bcrypt")
    print (bytes "cargo:rustc-link-lib=crypt32")
    print (bytes "cargo:rustc-link-lib=user32")
    print (bytes "cargo:rustc-link-lib=ntdll")

  -- `libssh2.pc`.
  unfoldable pub write_pc : Bytes → Bytes → Bytes → Call S (Unit {0})
  write_pc dst include_dir version = do
    let pkgconfig = sys.join dst (bytes "lib/pkgconfig")
    must (sys.create_dir_all pkgconfig)
    read ← raw (sys.read_to_string (bytes "libssh2/libssh2.pc.in"))
    template ← unwrap read
    prefix ← unwrap (from_utf8 dst)
    libdir ← unwrap (from_utf8 (sys.join dst (bytes "lib")))
    includedir ← unwrap (from_utf8 include_dir)
    must (
        sys.write (sys.join pkgconfig (bytes "libssh2.pc"))
          (pc_text prefix libdir includedir version template))

  -- Where the headers and what is compiled go.
  unfoldable pub make_dirs : Bytes → Bytes → Bytes → Call S (Unit {0})
  make_dirs dst build include_dir = do
    print (bytes "cargo:include=" ++ sys.display include_dir)
    print (bytes "cargo:root=" ++ sys.display dst)
    must (sys.create_dir_all build)
    must (sys.create_dir_all include_dir)
    copy_header include_dir (bytes "libssh2.h")
    copy_header include_dir (bytes "libssh2_publickey.h")
    copy_header include_dir (bytes "libssh2_sftp.h")

  unfoldable pub first_include : Option Bytes → Option Bytes
  first_include none = none
  first_include (some paths) = text_var (sys.first_path paths)

  -- The `cc::Build` before its compilation.
  unfoldable pub settings : Bytes → Bytes → List Setting → List Setting
  settings build include_dir for_target =
      (out_dir build ∷ sources)
      ++ (include include_dir ∷ include (bytes "libssh2/src") ∷ define (bytes "HAVE_LONGLONG") ∷ [])
      ++ for_target
      ++ (define (bytes "LIBSSH2_DH_GEX_NEW") ∷ define (bytes "LIBSSH2_HAVE_ZLIB") ∷ [])
      ++ zlib_include (sys.var_os (bytes "DEP_Z_INCLUDE"))
      ++ openssl_include (first_include (sys.var_os (bytes "DEP_OPENSSL_INCLUDE")))
      ++ (warnings false ∷ [])

  -- From the settings of the target on.
  unfoldable pub compile_with : Bool → Bytes → Bytes → Bytes → List Setting → Call S (Unit {0})
  unfolding version write_pc settings print_windows_libs
  compile_with windows dst build include_dir for_target = do
    print (bytes "cargo:rerun-if-env-changed=DEP_Z_INCLUDE")
    print (bytes "cargo:rerun-if-env-changed=DEP_OPENSSL_INCLUDE")
    read ← raw (sys.read_to_string (bytes "libssh2/include/libssh2.h"))
    libssh2h ← unwrap read
    found ← unwrap (version libssh2h)
    write_pc dst include_dir found
    must (sys.compile (settings build include_dir for_target) (bytes "ssh2"))
    print_windows_libs windows

  -- From the submodule on: the copy in the repository is compiled.
  unfoldable pub compile_copy : Call S (Unit {0})
  unfolding update make_dirs target_settings compile_with
  compile_copy = do
    raw (λ s. (tt, update (sys.exists (bytes "libssh2/.git") s) s))
    target ← unwrap (text_var (sys.var_os (bytes "TARGET")))
    dst ← unwrap (sys.var_os (bytes "OUT_DIR"))
    let build = sys.join dst (bytes "build")
    let include_dir = sys.join dst (bytes "include")
    let windows = contains (bytes "windows") target
    make_dirs dst build include_dir
    for_target ← target_settings windows build
    compile_with windows dst build include_dir for_target

  unfoldable pub without_system : Bool → Call S (Unit {0})
  unfolding compile_copy
  without_system true = pure tt
  without_system false = compile_copy

  unfoldable pub without_vcpkg : Bool → Call S (Unit {0})
  unfolding try_pkg_config without_system
  without_vcpkg true = pure tt
  without_vcpkg false = do
    print (bytes "cargo:rerun-if-env-changed=LIBSSH2_SYS_USE_PKG_CONFIG")
    found ← try_pkg_config (text_var (sys.var_os (bytes "LIBSSH2_SYS_USE_PKG_CONFIG")))
    without_system found

  unfoldable pub main : Bool → Call S (Unit {0})
  unfolding try_vcpkg without_vcpkg
  main msvc = do found ← try_vcpkg msvc; without_vcpkg found
