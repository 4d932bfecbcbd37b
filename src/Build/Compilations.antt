-- ===== src/Build/Compilations.antt =====
-- libssh2-sys/build.rs: what libssh2 is compiled with, over a whole run of the script.
use ssh2_rs.Base.{◌≡◌, ap, Bool, true, false, Option, none, some, List, [], ◌∷◌, arith}
use ssh2_rs.Base.Text.{Bytes, bytes}
use ssh2_rs.Errors.{Result, Call, unwrap, ◌>>=◌}
use ssh2_rs.Errors.Bind.{bind_rule}
use ssh2_rs.Build.Strings.{contains}
use ssh2_rs.Build.Raw.{Setting, VcpkgSetting, System}
use ssh2_rs.Build.Backends.{HasBackend, settings-HasBackend}
use ssh2_rs.Build.{
  text_var, find_openssl, with_vcpkg, try_vcpkg, print_includes, with_system, try_pkg_config,
  update, target_settings, print_windows_libs, write_pc, make_dirs, settings, compile_with,
  compile_copy, without_system, without_vcpkg, main,
}

-- What every call of the system keeps, a compilation if its settings are good.
pub record Keeps {S : Type 0} (sys : System S) (P : S → Type 0) (Good : List Setting → Type 0)
    : Type 0 where
  pub print : (line : Bytes) (s : S) → P s → P (sys.print line s)
  pub find_library : (name : Bytes) (s : S) → P s → P (sys.find_library name s).1
  pub probe : (how : List VcpkgSetting) (name : Bytes) (s : S) → P s → P (sys.probe how name s).1
  pub update_submodules : (s : S) → P s → P (sys.update_submodules s)
  pub create_dir_all : (path : Bytes) (s : S) → P s → P (sys.create_dir_all path s).1
  pub copy : (from to : Bytes) (s : S) → P s → P (sys.copy from to s).1
  pub read_to_string : (path : Bytes) (s : S) → P s → P (sys.read_to_string path s).1
  pub write : (path text : Bytes) (s : S) → P s → P (sys.write path text s).1
  pub compile :
      (ss : List Setting) (name : Bytes) (s : S) → Good ss → P s → P (sys.compile ss name s).1

module _ {S : Type 0} (sys : System S) (P : S → Type 0) {Good : List Setting → Type 0}
    (keeps : Keeps sys P Good) where
  -- Whatever a call of the script ends with, it keeps what the calls of the system keep.
  abbrev Safe : {A : Type 0} → Call S A → Type 0
  Safe m = (s : S) → P s → P (m s).1

  try_vcpkg-Safe : (msvc : Bool) → Safe (try_vcpkg sys msvc)
  unfolding try_vcpkg with_vcpkg find_openssl
  try_vcpkg-Safe msvc s p = grind (arith, keeps.probe, keeps.print)

  print_includes-Safe : (paths : List Bytes) → Safe (print_includes sys paths)
  unfolding print_includes
  print_includes-Safe [] s p = p
  print_includes-Safe (path ∷ paths) s p = print_includes-Safe paths _ (keeps.print _ s p)

  try_pkg_config-Safe : (wanted : Option Bytes) → Safe (try_pkg_config sys wanted)
  unfolding try_pkg_config with_system
  try_pkg_config-Safe wanted s p = grind (arith, keeps.find_library, print_includes-Safe)

  update-Safe : (there : Bool) (s : S) → P s → P (update sys there s)
  unfolding update
  update-Safe true s p = p
  update-Safe false s p = keeps.update_submodules s p

  target_settings-Safe : (windows : Bool) (build : Bytes) → Safe (target_settings sys windows build)
  unfolding target_settings
  target_settings-Safe true build s p = p
  target_settings-Safe false build s p = grind (arith, keeps.read_to_string, keeps.write)

  print_windows_libs-Safe : (windows : Bool) → Safe (print_windows_libs sys windows)
  unfolding print_windows_libs
  print_windows_libs-Safe windows s p = grind (arith, keeps.print)

  make_dirs-Safe : (dst build include_dir : Bytes) → Safe (make_dirs sys dst build include_dir)
  unfolding make_dirs
  make_dirs-Safe dst build include_dir s p =
      grind (arith, keeps.print, keeps.create_dir_all, keeps.copy)

  write_pc-Safe : (dst include_dir found : Bytes) → Safe (write_pc sys dst include_dir found)
  unfolding write_pc
  write_pc-Safe dst include_dir found s p =
      grind (arith, keeps.create_dir_all, keeps.read_to_string, keeps.write)

  compile_with-Safe :
      (windows : Bool) (dst build include_dir : Bytes) (ts : List Setting)
      → Good (settings sys build include_dir ts)
      → Safe (compile_with sys windows dst build include_dir ts)
  unfolding compile_with
  compile_with-Safe windows dst build include_dir ts good s p = grind (
    arith, keeps.print, keeps.read_to_string, keeps.compile, write_pc-Safe, print_windows_libs-Safe,
  )

module _ {S : Type 0} (sys : System S) (P : S → Type 0) (target : Bytes)
    (keeps : Keeps sys P (HasBackend (contains (bytes "windows") target)))
    (set : text_var (sys.var_os (bytes "TARGET")) ≡ some target) where
  targeted-Safe :
      (dst build include_dir : Bytes) (s : S)
      → P s
      → let windows = contains (bytes "windows") target in
        P
          ((target_settings sys windows build >>= compile_with sys windows dst build include_dir)
            s).1
  targeted-Safe dst build include_dir s p =
      let windows = contains (bytes "windows") target in
      bind_rule (λ o. P o.1) (target_settings sys windows build)
        (compile_with sys windows dst build include_dir) s
        (λ ts e.
          compile_with-Safe sys P keeps windows dst build include_dir ts
            (settings-HasBackend sys windows build include_dir s {s' = made.1}
              (ap (λ r. (r, made.1)) e))
            made.1 safe)
        (λ x e. safe) (λ e. safe)
    where
      made : Result (List Setting) × S
      made = target_settings sys (contains (bytes "windows") target) build s

      safe : P made.1
      safe = target_settings-Safe sys P keeps (contains (bytes "windows") target) build s p

  -- What follows once the target and the directory are known.
  abbrev in_dir : Bytes → Call S (Unit {0})
  in_dir dst =
      let build = sys.join dst (bytes "build") in
      let include_dir = sys.join dst (bytes "include") in
      let windows = contains (bytes "windows") target in
      make_dirs sys dst build include_dir >>= λ _.
      target_settings sys windows build >>= compile_with sys windows dst build include_dir

  in_dir-Safe : (dst : Bytes) (s : S) → P s → P (in_dir dst s).1
  in_dir-Safe dst s p =
      let build = sys.join dst (bytes "build") in
      let include_dir = sys.join dst (bytes "include") in
      let windows = contains (bytes "windows") target in
      let safe = make_dirs-Safe sys P keeps dst build include_dir s p in
      bind_rule (λ o. P o.1) (make_dirs sys dst build include_dir)
        (λ _. target_settings sys windows build >>= compile_with sys windows dst build include_dir)
        s (λ _ _. targeted-Safe dst build include_dir _ safe) (λ _ _. safe) (λ _. safe)

  found-Safe : (dir : Option Bytes) (s : S) → P s → P ((unwrap dir >>= in_dir) s).1
  found-Safe none s p = p
  found-Safe (some dst) s p = in_dir-Safe dst s p

  compile_copy-Safe : (s : S) → P s → P (compile_copy sys s).1
  unfolding compile_copy
  compile_copy-Safe s p = rw set (
      found-Safe (sys.var_os (bytes "OUT_DIR")) _
        (update-Safe sys P keeps (sys.exists (bytes "libssh2/.git") s) s p))

  -- Whatever every other call of the system keeps, and a compilation that has one of the two
  -- cryptographic libraries of libssh2, file and definition together, WinCNG if the target has
  -- "windows" in its name and else OpenSSL: the whole script keeps it, with a target that is set and
  -- text. So it compiles nothing with another library, with none or with both.
  pub one_backend : (msvc : Bool) (s : S) → P s → P (main sys msvc s).1
  unfolding main without_vcpkg without_system
  one_backend msvc s p = grind (
    arith,
    keeps.print,
    try_vcpkg-Safe sys P keeps,
    try_pkg_config-Safe sys P keeps,
    compile_copy-Safe,
  )
