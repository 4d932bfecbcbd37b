-- ===== src/Build/Tests.antt =====
-- A machine that logs what is written, compiled and printed, and has libssh2's files.
use ssh2_rs.Base.{
  Bool, All, ◌≡◌, refl, true, false, Option, none, some, List, [], ◌∷◌, ◌++◌, arith, if◌then◌else◌,
}
use ssh2_rs.Base.Text.{Bytes, bytes, bytes_eq, from_utf8}
use ssh2_rs.Errors.{ok}
use ssh2_rs.Build.Strings.{
  contains, lines, join, find, slice, starts_with, before_first, replace, replace_from,
  is_char_boundary,
}
use ssh2_rs.Build.Raw.{Setting, System}
use ssh2_rs.Build.Texts.{pc_text, config_text, config_lines, find_line, quoted, from_quote, version}
use ssh2_rs.Build.{main, settings}
use ssh2_rs.Build.Laws.{version_lem}
use ssh2_rs.Build.Backends.{HasBackend}
use ssh2_rs.Build.Compilations.{Keeps, one_backend}

abbrev newline : Bytes
newline = 10 ∷ []

abbrev template : Bytes
template = bytes "/* a */" ++ newline ++ bytes "#cmakedefine B" ++ newline ++ bytes "#define C"

abbrev header : Bytes
header =
    bytes "/* h */"
    ++ newline
    ++ bytes "#define LIBSSH2_VERSION "
    ++ (34 ∷ (bytes "1.8.1_DEV" ++ (34 ∷ [])))

version_lem_example : version header ≡ some (bytes "1.8.1_DEV")
unfolding lines contains starts_with before_first
version_lem_example =
    version_lem header (bytes "/* h */" ∷ []) [] (bytes "#define LIBSSH2_VERSION ")
      (bytes "1.8.1_DEV") refl refl refl refl (omega arith)

-- The line that cannot be sliced: its only quotation mark ends it.
one_mark : quoted (some (97 ∷ 34 ∷ [])) ≡ none
unfolding quoted from_quote find slice
one_mark = refl

abbrev Log : Type 0
Log = List Bytes

abbrev vars : Bytes → Option Bytes
vars name =
    if bytes_eq name (bytes "TARGET")
    then some (bytes "x86_64-unknown-linux-gnu")
    else if bytes_eq name (bytes "OUT_DIR")
    then some (bytes "/out")
    else none

abbrev disk : Bytes → Option Bytes
disk path =
    if bytes_eq path (bytes "libssh2/include/libssh2.h")
    then some header
    else if bytes_eq path (bytes "libssh2/libssh2.pc.in")
    then some (bytes "prefix=@prefix@")
    else if bytes_eq path (bytes "libssh2/src/libssh2_config_cmake.h.in")
    then some template
    else none

abbrev machine : System Log
machine = record {
  var_os = vars;
  join = λ a b. a ++ (b'/' ∷ b);
  display = λ p. p;
  first_path = λ p. some p;
  print = λ line log. log;
  find_library = λ name log. (none, log);
  probe = λ names name log. (false, log);
  exists = λ path log. true;
  update_submodules = λ log. log;
  create_dir_all = λ path log. (true, log);
  copy = λ from to log. (true, to ∷ log);
  read_to_string = λ path log. (disk path, log);
  write = λ path text log. (true, path ∷ text ∷ log);
  compile = λ settings name log. (true, name ∷ log);
}

-- The same machine, with the settings of each compilation as its whole state.
abbrev recorder : System (List (List Setting))
recorder = record {
  var_os = vars;
  join = λ a b. a ++ (b'/' ∷ b);
  display = λ p. p;
  first_path = λ p. some p;
  print = λ line log. log;
  find_library = λ name log. (none, log);
  probe = λ names name log. (false, log);
  exists = λ path log. true;
  update_submodules = λ log. log;
  create_dir_all = λ path log. (true, log);
  copy = λ from to log. (true, log);
  read_to_string = λ path log. (disk path, log);
  write = λ path text log. (true, log);
  compile = λ settings name log. (true, settings ∷ log);
}

recorder-Keeps : (windows : Bool) → Keeps recorder (All (HasBackend windows)) (HasBackend windows)
recorder-Keeps windows = record {
  print = λ line s p. p;
  find_library = λ name s p. p;
  probe = λ how name s p. p;
  update_submodules = λ s p. p;
  create_dir_all = λ path s p. p;
  copy = λ from to s p. p;
  read_to_string = λ path s p. p;
  write = λ path text s p. p;
  compile = λ ss name s good p. (good, p);
}

one_backend_example :
    All
      (HasBackend (contains (bytes "windows") (bytes "x86_64-unknown-linux-gnu")))
      (main recorder false []).1
unfolding from_utf8
one_backend_example =
    one_backend recorder
      (All (HasBackend (contains (bytes "windows") (bytes "x86_64-unknown-linux-gnu"))))
      (bytes "x86_64-unknown-linux-gnu")
      (recorder-Keeps (contains (bytes "windows") (bytes "x86_64-unknown-linux-gnu"))) refl false []
      tt

-- A whole run: the last thing that is written is the text for pkg-config, before the compilation.
whole_run : main machine false [] ≡ (
  ok tt,
  bytes "ssh2"
      ∷ bytes "/out/lib/pkgconfig/libssh2.pc"
      ∷ bytes "prefix=/out"
      ∷ bytes "/out/build/libssh2_config.h"
      ∷ (bytes "/* a */" ++ newline ++ bytes "#define C")
      ∷ bytes "/out/include/libssh2_sftp.h"
      ∷ bytes "/out/include/libssh2_publickey.h"
      ∷ bytes "/out/include/libssh2.h"
      ∷ [],
)
unfolding main contains starts_with lines join before_first config_text config_lines find_line
    quoted from_quote find slice is_char_boundary replace replace_from from_utf8 settings pc_text
whole_run = refl
