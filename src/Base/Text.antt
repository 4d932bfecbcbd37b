-- ===== src/Base/Text.antt =====
-- Bytes and UTF-8: what the code uses of Rust's `str`, `String` and `CString`.
use Prim.Native.Nat.{ℕ, zero, suc, ◌<◌}
use Prim.Native.Char.{code}
use Prim.Native.String.{String}
use mathlib.Core.Path.{◌≡◌, refl, ap, ◌∙◌}
use mathlib.Core.Logic.{◌⊎◌, inl, inr}
use mathlib.Core.Bool.{Bool, true, false, ◌&&◌}
use mathlib.Core.Option.{Option, none, some}
use mathlib.Core.List.{List, [], ◌∷◌, map}
use native.Mathlib.Omega.{arith}
use ssh2_rs.Base.Tests.{leb, ltb, ◌==◌, if◌then◌else◌}
use ssh2_rs.Base.Lists.{any}

abbrev pub Bytes : Type 0
Bytes = List ℕ

-- The bytes of an ASCII literal.
abbrev pub bytes : String → Bytes
bytes String.[] = []
bytes (String.◌∷◌ c s) = code c ∷ bytes s

abbrev pub bytes_eq : Bytes → Bytes → Bool
bytes_eq [] [] = true
bytes_eq [] (y ∷ ys) = false
bytes_eq (x ∷ xs) [] = false
bytes_eq (x ∷ xs) (y ∷ ys) = (x == y) && bytes_eq xs ys

pub bytes_eq→eq : (xs ys : Bytes) → bytes_eq xs ys ≡ true → xs ≡ ys
bytes_eq→eq [] [] h = refl
bytes_eq→eq [] (y ∷ ys) h = cc
bytes_eq→eq (x ∷ xs) [] h = cc
bytes_eq→eq (x ∷ xs) (y ∷ ys) h = ground (arith, bytes_eq→eq xs ys)

pub bytes_eq_refl : (xs : Bytes) → bytes_eq xs xs ≡ true
bytes_eq_refl [] = refl
bytes_eq_refl (x ∷ xs) = ground (arith, bytes_eq_refl xs)

-- Where a decoder stands: between characters, or before `more + 1` bytes of which the next lies
-- between `lo` and `hi`, or past an ill-formed sequence.
pub data Utf8 : Type 0 where
  start ill : Utf8
  inside : ℕ → ℕ → ℕ → Utf8

lead : ℕ → Utf8
lead b =
    if ltb b 0x80
    then start
    else if ltb b 0xC2
    then ill
    else if ltb b 0xE0
    then inside 0 0x80 0xBF
    else if b == 0xE0
    then inside 1 0xA0 0xBF
    else if b == 0xED
    then inside 1 0x80 0x9F
    else if ltb b 0xF0
    then inside 1 0x80 0xBF
    else if b == 0xF0
    then inside 2 0x90 0xBF
    else if ltb b 0xF4
    then inside 2 0x80 0xBF
    else if b == 0xF4
    then inside 2 0x80 0x8F
    else ill

after : ℕ → Utf8
after zero = start
after (suc n) = inside n 0x80 0xBF

abbrev next : Utf8 → ℕ → Utf8
next start b = lead b
next ill b = ill
next (inside n lo hi) b = if leb lo b && leb b hi then after n else ill

run : Utf8 → Bytes → Utf8
unfolding lead after
run s [] = s
run s (b ∷ bs) = run (next s b) bs

abbrev at_end : Utf8 → Bool
at_end start = true
at_end ill = false
at_end (inside n lo hi) = false

-- `str::from_utf8(bytes).is_ok()`: the well-formed byte sequences of the Unicode standard.
unfoldable pub is_utf8 : Bytes → Bool
unfolding run
is_utf8 bs = at_end (run start bs)

-- `String::from_utf8(bytes).ok()`.
unfoldable pub from_utf8 : Bytes → Option Bytes
unfolding is_utf8
from_utf8 bs = if is_utf8 bs then some bs else none

-- Whether a zero byte occurs, as `CString::new` and `util::check` test.
unfoldable pub has_nul : Bytes → Bool
has_nul = any (λ b. b == 0)

-- A byte is at least 0x80 where one inside a character is awaited.
is_high : Utf8 → Bool
is_high start = true
is_high ill = true
is_high (inside n lo hi) = leb 0x80 lo

next-is_high : (s : Utf8) (b : ℕ) → is_high (next s b) ≡ true
unfolding is_high lead after
next-is_high start b = ground arith
next-is_high ill b = refl
next-is_high (inside zero lo hi) b = ground arith
next-is_high (inside (suc n) lo hi) b = ground arith

-- A byte changes only from ASCII to ASCII.
abbrev pub KeepsAscii : (ℕ → ℕ) → Type 0
KeepsAscii f = (b : ℕ) → (f b ≡ b) ⊎ ((b < 0x80) × (f b < 0x80))

next_ascii : (s : Utf8) (a b : ℕ) → is_high s ≡ true → a < 0x80 → b < 0x80 → next s a ≡ next s b
unfolding is_high lead
next_ascii start a b h la lb = ground arith
next_ascii ill a b h la lb = refl
next_ascii (inside n lo hi) a b h la lb = ground arith

module _ (f : ℕ → ℕ) (keeps : KeepsAscii f) where
  next_kept : (s : Utf8) (b : ℕ) → is_high s ≡ true → next s (f b) ≡ next s b
  next_kept s b h = elim (keeps b) [
    | inl same ↦ ap (next s) same
    | inr (l, fl) ↦ next_ascii s (f b) b h fl l
  ]

  run-map : (s : Utf8) (bs : Bytes) → is_high s ≡ true → run s (map f bs) ≡ run s bs
  unfolding run
  run-map s [] h = refl
  run-map s (b ∷ bs) h =
      ap (λ t. run t (map f bs)) (next_kept s b h) ∙ run-map (next s b) bs (next-is_high s b)

  pub is_utf8-map : (bs : Bytes) → is_utf8 (map f bs) ≡ is_utf8 bs
  unfolding is_utf8 is_high
  is_utf8-map bs = ap at_end (run-map start bs refl)

euro : is_utf8 (0xE2 ∷ 0x82 ∷ 0xAC ∷ []) ≡ true
unfolding is_utf8
euro = refl

surrogate : is_utf8 (0xED ∷ 0xA0 ∷ 0x80 ∷ []) ≡ false
unfolding is_utf8
surrogate = refl
