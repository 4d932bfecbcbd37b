-- ===== src/Paths/Laws.antt =====
-- Which paths pass `path2bytes` of src/util.rs, and as what.
use ssh2_rs.Base.{
  suc, ◌≡◌, refl, ap, ◌∙◌, ◌↔◌, Bool, false, Option, none, some, [], ◌∷◌, map, inl, inr, any,
  length, arith, ◌==◌, if◌then◌else◌, Bool-cases,
}
use ssh2_rs.Base.Text.{Bytes, has_nul, is_utf8, is_utf8-map, KeepsAscii}
use ssh2_rs.Errors.{panic, ok, c_string}
use ssh2_rs.Paths.{mkpath_windows, path2bytes, path2bytes_windows, to_slash}

-- On Unix exactly the paths with no zero byte pass, unchanged, and `CString::new` accepts what
-- has passed.
path2bytes-c_string :
    (p b : Bytes) → (path2bytes p ≡ ok b) ↔ ((has_nul p ≡ false) × (b ≡ p) × (c_string b ≡ ok p))
unfolding path2bytes c_string
path2bytes-c_string p b = ground arith

has_backslash : Bytes → Bool
has_backslash = any (λ b. b == b'\\')

no_backslash-map : (p : Bytes) → has_backslash (map to_slash p) ≡ false
unfolding has_backslash
no_backslash-map [] = refl
no_backslash-map (b ∷ p) = ground (arith, no_backslash-map p)

length-map_slash : (p : Bytes) → length (map to_slash p) ≡ length p
length-map_slash [] = refl
length-map_slash (b ∷ p) = ap suc (length-map_slash p)

map_slash_same : (p : Bytes) → has_backslash p ≡ false → map to_slash p ≡ p
unfolding has_backslash
map_slash_same [] h = refl
map_slash_same (b ∷ p) h = ground (arith, map_slash_same p)

-- A separator is changed within ASCII, so that UTF-8 stays UTF-8.
to_slash-KeepsAscii : KeepsAscii to_slash
to_slash-KeepsAscii b = ground arith

mkpath_windows-to_slash :
    (q b : Bytes) → b ≡ map to_slash q → mkpath_windows b ≡ (if is_utf8 q then ok b else panic)
unfolding mkpath_windows
mkpath_windows-to_slash q b same =
    ap (λ t. if t then ok b else panic)
      (ap is_utf8 same ∙ is_utf8-map to_slash to_slash-KeepsAscii q)

-- On Windows a unicode path that passes has become, byte by byte, the path with `/` for `\`; it
-- has no backslash and no zero byte, and `CString::new` accepts it. A path that is not unicode
-- never passes. `mkpath` of Windows reads the bytes as the path that they are, if the path was
-- UTF-8, and panics otherwise.
pub path2bytes_windows_lem :
    (p : Option Bytes) (b : Bytes)
    → path2bytes_windows p ≡ ok b
    → (q : Bytes) × (p ≡ some q)
      × (b ≡ map to_slash q)
      × (any (λ c. c == b'\\') b ≡ false)
      × (c_string b ≡ ok b)
      × (mkpath_windows b ≡ (if is_utf8 q then ok b else panic))
unfolding path2bytes_windows c_string has_backslash
path2bytes_windows_lem none b h = cc
path2bytes_windows_lem (some q) b h = elim (Bool-cases (has_backslash q)) [
  | inl t ↦
      let same : b ≡ map to_slash q = ground arith in
      (
        q,
        refl,
        same,
        ground (arith, no_backslash-map q),
        ground arith,
        mkpath_windows-to_slash q b same,
      )
  | inr f ↦
      let same : b ≡ map to_slash q = ground (arith, map_slash_same q f) in
      (q, refl, same, ground arith, ground arith, mkpath_windows-to_slash q b same)
]
