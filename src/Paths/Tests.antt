-- ===== src/Paths/Tests.antt =====
-- Paths at concrete values: `a\b` and a path with a zero byte.
use ssh2_rs.Base.{◌≡◌, refl, ◌==◌, any, map, some, [], ◌∷◌, false, if◌then◌else◌}
use ssh2_rs.Base.Text.{Bytes, is_utf8}
use ssh2_rs.Sys.{error_inval}
use ssh2_rs.Errors.{new, ok, err, panic, c_string}
use ssh2_rs.Paths.{mkpath_windows, path2bytes, path2bytes_windows, to_slash}
use ssh2_rs.Paths.Laws.{path2bytes_windows_lem}

abbrev backslashed : Bytes
backslashed = 97 ∷ 92 ∷ 98 ∷ []

abbrev slashed : Bytes
slashed = 97 ∷ 47 ∷ 98 ∷ []

path2bytes_windows_lem_example :
    (q : Bytes) × (some backslashed ≡ some q)
    × (slashed ≡ map to_slash q)
    × (any (λ c. c == b'\\') slashed ≡ false)
    × (c_string slashed ≡ ok slashed)
    × (mkpath_windows slashed ≡ (if is_utf8 q then ok slashed else panic))
unfolding path2bytes_windows
path2bytes_windows_lem_example = path2bytes_windows_lem (some backslashed) slashed refl

zero_byte : path2bytes (97 ∷ 0 ∷ []) ≡ err (new error_inval "path provided contains a 0 byte")
unfolding path2bytes
zero_byte = refl

-- A name that is not UTF-8, which a server may send, panics on Windows.
latin_name : mkpath_windows (0xE9 ∷ []) ≡ panic
unfolding mkpath_windows is_utf8
latin_name = refl
