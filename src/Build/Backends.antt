-- ===== src/Build/Backends.antt =====
-- libssh2-sys/build.rs: the cryptographic library that libssh2 is compiled for.
use ssh2_rs.Base.{
  ◌≡◌, refl, ◌∙◌, Bool, true, false, not, ◌||◌, Option, none, some, List, [], ◌∷◌, ◌++◌, any, arith,
  if◌then◌else◌,
}
use ssh2_rs.Base.Text.{Bytes, bytes, bytes_eq}
use ssh2_rs.Errors.{ok}
use ssh2_rs.Build.Raw.{Setting, out_dir, file, include, define, warnings, System}
use ssh2_rs.Build.Settings.{sources, unix_settings, windows_settings}
use ssh2_rs.Build.{settings, target_settings, zlib_include, openssl_include, first_include}

abbrev pub is_file : Bytes → Setting → Bool
is_file name (file f) = bytes_eq f name
is_file name _ = false

abbrev pub is_define : Bytes → Setting → Bool
is_define name (define d) = bytes_eq d name
is_define name _ = false

-- One cryptographic library, file and definition together: WinCNG on Windows, and else OpenSSL.
abbrev pub HasBackend : Bool → List Setting → Type 0
HasBackend windows ss =
    (any (is_file (bytes "libssh2/src/wincng.c")) ss ≡ windows)
    × (any (is_define (bytes "LIBSSH2_WINCNG")) ss ≡ windows)
    × (any (is_file (bytes "libssh2/src/openssl.c")) ss ≡ not windows)
    × (any (is_define (bytes "LIBSSH2_OPENSSL")) ss ≡ not windows)

any-append :
    {A : Type 0} (p : A → Bool) (xs ys : List A) → any p (xs ++ ys) ≡ (any p xs || any p ys)
any-append p [] ys = refl
any-append p (x ∷ xs) ys = ground (arith, any-append p xs ys)

or_false : (b : Bool) → (b || false) ≡ b
or_false true = refl
or_false false = refl

-- The settings that the targets differ by.
abbrev for_target : Bool → Bytes → List Setting
for_target windows build =
    if windows then windows_settings else unix_settings ++ (include build ∷ [])

for_windows :
    (windows : Bool) (build : Bytes) {ts : List Setting}
    → ts ≡ for_target windows build
    → (p : Setting → Bool) → any p windows_settings ≡ true
    → any p (unix_settings ++ (include build ∷ [])) ≡ false
    → any p ts ≡ windows
for_windows true build made p w u = rw made w
for_windows false build made p w u = rw made u

for_others :
    (windows : Bool) (build : Bytes) {ts : List Setting}
    → ts ≡ for_target windows build
    → (p : Setting → Bool) → any p windows_settings ≡ false
    → any p (unix_settings ++ (include build ∷ [])) ≡ true
    → any p ts ≡ not windows
for_others true build made p w u = rw made w
for_others false build made p w u = rw made u

module _ {S : Type 0} (sys : System S) where
  -- A target that is Windows has the settings for it, and no other has.
  target_settings-ok :
      (windows : Bool) (build : Bytes) (s : S) {ts : List Setting} {s' : S}
      → target_settings sys windows build s ≡ (ok ts, s')
      → ts ≡ for_target windows build
  unfolding target_settings
  target_settings-ok true build s e = ground arith
  target_settings-ok false build s e = ground arith

  -- What depends on the directories and on the machine is none of the settings that `p` looks for.
  abbrev IsElsewhere : (Setting → Bool) → Type 0
  IsElsewhere p =
      ((path : Bytes) → p (include path) ≡ false)
      × ((path : Bytes) → p (out_dir path) ≡ false)
      × (p (warnings false) ≡ false)

  zlib-elsewhere :
      (p : Setting → Bool) (v : Option Bytes)
      → ((path : Bytes) → p (include path) ≡ false)
      → any p (zlib_include v) ≡ false
  unfolding zlib_include
  zlib-elsewhere p none h = refl
  zlib-elsewhere p (some path) h = rw (h path) refl

  openssl-elsewhere :
      (p : Setting → Bool) (v : Option Bytes)
      → ((path : Bytes) → p (include path) ≡ false)
      → any p (openssl_include v) ≡ false
  unfolding openssl_include
  openssl-elsewhere p none h = refl
  openssl-elsewhere p (some path) h = ground (arith, h path)

  any-settings :
      (p : Setting → Bool) (build include_dir : Bytes) (ts : List Setting)
      → IsElsewhere p
      → any p sources ≡ false
      → p (define (bytes "HAVE_LONGLONG")) ≡ false
      → p (define (bytes "LIBSSH2_DH_GEX_NEW")) ≡ false
      → p (define (bytes "LIBSSH2_HAVE_ZLIB")) ≡ false
      → any p (settings sys build include_dir ts) ≡ any p ts
  unfolding settings
  any-settings p build include_dir ts h files long gex zlib = simp (
    any-append p,
    h.1,
    h.2,
    long,
    gex,
    zlib,
    files,
    h.0,
    zlib-elsewhere p (sys.var_os (bytes "DEP_Z_INCLUDE")) h.0,
    openssl-elsewhere p (first_include sys (sys.var_os (bytes "DEP_OPENSSL_INCLUDE"))) h.0,
    or_false,
  )

  -- Whichever directories and variables the machine has: where the settings of a target are made,
  -- there is exactly one of the two cryptographic libraries in them.
  pub settings-HasBackend :
      (windows : Bool) (build include_dir : Bytes) (s : S) {ts : List Setting} {s' : S}
      → target_settings sys windows build s ≡ (ok ts, s')
      → HasBackend windows (settings sys build include_dir ts)
  unfolding sources unix_settings windows_settings
  settings-HasBackend windows build include_dir s {ts} e = (
    file_found (bytes "libssh2/src/wincng.c") refl ∙ for_windows windows build made _ refl refl,
    define_found (bytes "LIBSSH2_WINCNG") refl refl refl refl
        ∙ for_windows windows build made _ refl refl,
    file_found (bytes "libssh2/src/openssl.c") refl ∙ for_others windows build made _ refl refl,
    define_found (bytes "LIBSSH2_OPENSSL") refl refl refl refl
        ∙ for_others windows build made _ refl refl,
  )
    where
      made : ts ≡ for_target windows build
      made = target_settings-ok windows build s e

      file_found :
          (name : Bytes)
          → any (is_file name) sources ≡ false
          → any (is_file name) (settings sys build include_dir ts) ≡ any (is_file name) ts
      file_found name files =
          any-settings (is_file name) build include_dir ts ((λ p. refl), (λ p. refl), refl) files
            refl refl refl

      define_found :
          (name : Bytes)
          → any (is_define name) sources ≡ false
          → bytes_eq (bytes "HAVE_LONGLONG") name ≡ false
          → bytes_eq (bytes "LIBSSH2_DH_GEX_NEW") name ≡ false
          → bytes_eq (bytes "LIBSSH2_HAVE_ZLIB") name ≡ false
          → any (is_define name) (settings sys build include_dir ts) ≡ any (is_define name) ts
      define_found name files a b c =
          any-settings (is_define name) build include_dir ts ((λ p. refl), (λ p. refl), refl) files
            a b c
