-- ===== src/Build/Texts.antt =====
-- libssh2-sys/build.rs: the texts that the script reads and writes.
use ssh2_rs.Base.{ℕ, ◌+◌, ◌-◌, Option, none, some, List, [], ◌∷◌, length, if◌then◌else◌}
use ssh2_rs.Base.Text.{Bytes, bytes}
use ssh2_rs.Build.Strings.{contains, find, lines, join, replace, slice}

-- The lines without a `#cmakedefine`.
unfoldable pub config_lines : List Bytes → List Bytes
config_lines [] = []
config_lines (line ∷ rest) =
    if contains (bytes "#cmakedefine") line then config_lines rest else line ∷ config_lines rest

-- `libssh2_config.h`, from libssh2's template.
unfoldable pub config_text : Bytes → Bytes
unfolding config_lines lines join
config_text template = join (config_lines (lines template))

-- The first line with a part.
unfoldable pub find_line : Bytes → List Bytes → Option Bytes
find_line part [] = none
find_line part (line ∷ rest) = if contains part line then some line else find_line part rest

-- `&version_line[version_line.find('"').unwrap() + 1..version_line.len() - 1]`, from where the
-- quotation mark is; `none` panics.
unfoldable pub from_quote : Option ℕ → Bytes → Option Bytes
from_quote none version_line = none
from_quote (some i) version_line = slice (i + 1) (length version_line - 1) version_line

unfoldable pub quoted : Option Bytes → Option Bytes
quoted none = none
quoted (some version_line) = from_quote (find b'"' version_line) version_line

-- The version that libssh2.h gives; `none` panics.
unfoldable pub version : Bytes → Option Bytes
version libssh2h = quoted (find_line (bytes "LIBSSH2_VERSION") (lines libssh2h))

-- The texts that `libssh2.pc` has in place of the names in libssh2's template.
unfoldable pub pc_text : Bytes → Bytes → Bytes → Bytes → Bytes → Bytes
unfolding replace
pc_text prefix libdir includedir version template =
    let prefixed = replace (bytes "@prefix@") prefix template in
    let exec_prefixed = replace (bytes "@exec_prefix@") [] prefixed in
    let with_libdir = replace (bytes "@libdir@") libdir exec_prefixed in
    let with_includedir = replace (bytes "@includedir@") includedir with_libdir in
    let with_libs = replace (bytes "@LIBS@") [] with_includedir in
    let with_required = replace (bytes "@LIBSREQUIRED@") [] with_libs in
    replace (bytes "@LIBSSH2VER@") version with_required
