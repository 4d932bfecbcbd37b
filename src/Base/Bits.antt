-- ===== src/Base/Bits.antt =====
-- `bit_and` with a fixed mask, for every number. A mask is built up from 0 by its binary digits,
-- and what it keeps of a number is built up along with it.
use Prim.Native.Nat.{ℕ, zero, suc, ◌+◌, ◌*◌, ◌/◌, ◌%◌, ◌≤◌, min, bit_and, digits, bit_and-bitwise}
use mathlib.Core.Path.{◌≡◌, refl, ◌∙◌}
use native.Mathlib.Omega.{arith}

-- At most `n` digits of `a`, masked by `m`.
abbrev masked : ℕ → ℕ → ℕ → ℕ
masked n a m = digits (λ _. 0) min n a m

-- The mask `m` keeps `f a` of `a`, if enough digits are looked at.
abbrev Masks : ℕ → (ℕ → ℕ) → Type 0
Masks m f = (n a : ℕ) → a ≤ n → masked n a m ≡ f a

nothing : Masks 0 (λ _. 0)
nothing zero a h = refl
nothing (suc n) zero h = refl
nothing (suc n) (suc a) h = omega (arith, nothing n (suc a / 2) (omega arith))

even_half : (m : ℕ) → 2 * m / 2 ≡ m
even_half m = omega arith

odd_half : (m : ℕ) → (2 * m + 1) / 2 ≡ m
odd_half m = omega arith

module _ (m : ℕ) (f : ℕ → ℕ) (keeps : Masks m f) where
  skip : Masks (2 * m) (λ a. 2 * f (a / 2))
  skip zero zero h = omega (arith, keeps 0 0 h)
  skip zero (suc a) h = absurd (omega arith)
  skip (suc n) zero h = omega (arith, keeps 0 0 (omega arith))
  skip (suc n) (suc a) h =
      let rest = keeps n (suc a / 2) (omega arith) in rw (even_half m) (omega arith)

  keep : Masks (2 * m + 1) (λ a. 2 * f (a / 2) + a % 2)
  keep zero zero h = omega (arith, keeps 0 0 h)
  keep zero (suc a) h = absurd (omega arith)
  keep (suc n) zero h = omega (arith, keeps 0 0 (omega arith))
  keep (suc n) (suc a) h =
      let rest = keeps n (suc a / 2) (omega arith) in rw (odd_half m) (omega arith)

-- The four low bits.
nibble : Masks 15 (λ a. a % 16)
nibble n a h = keep 7 _ (keep 3 _ (keep 1 _ (keep 0 _ nothing))) n a h ∙ omega arith

-- Four bits further up.
skip_nibble : (m : ℕ) (f : ℕ → ℕ) → Masks m f → Masks (16 * m) (λ a. 16 * f (a / 16))
skip_nibble m f keeps n a h =
    let up =
      skip (2 * (2 * (2 * m))) _ (skip (2 * (2 * m)) _ (skip (2 * m) _ (skip m f keeps))) n a h in
    rw sixteen (up ∙ rw quarter (omega arith))
  where
    sixteen : 16 * m ≡ 2 * (2 * (2 * (2 * m)))
    sixteen = omega arith

    quarter : a / 2 / 2 / 2 / 2 ≡ a / 16
    quarter = omega arith

-- `& 0xff` keeps the low byte.
pub bit_and-byte : (a : ℕ) → bit_and a 0xff ≡ a % 256
bit_and-byte a =
    bit_and-bitwise a 0xff
    ∙ keep 127 _ (keep 63 _ (keep 31 _ (keep 15 _ nibble))) a a (omega arith)
    ∙ omega arith

-- `& S_IFMT` keeps the four bits of the file's format.
pub bit_and-format : (a : ℕ) → bit_and a 0o170000 ≡ 4096 * (a / 4096 % 16)
bit_and-format a =
    bit_and-bitwise a 0o170000
    ∙ skip_nibble 0xf00 _ (skip_nibble 0xf0 _ (skip_nibble 0xf _ nibble)) a a (omega arith)
    ∙ omega arith

-- The four low bits, one by one.
pub bit_and-1 : (a : ℕ) → bit_and a 0x1 ≡ a % 2
bit_and-1 a = bit_and-bitwise a 0x1 ∙ keep 0 _ nothing a a (omega arith) ∙ omega arith

pub bit_and-2 : (a : ℕ) → bit_and a 0x2 ≡ 2 * (a / 2 % 2)
bit_and-2 a = bit_and-bitwise a 0x2 ∙ skip 1 _ (keep 0 _ nothing) a a (omega arith) ∙ omega arith

pub bit_and-4 : (a : ℕ) → bit_and a 0x4 ≡ 4 * (a / 4 % 2)
bit_and-4 a =
    bit_and-bitwise a 0x4 ∙ skip 2 _ (skip 1 _ (keep 0 _ nothing)) a a (omega arith) ∙ omega arith

pub bit_and-8 : (a : ℕ) → bit_and a 0x8 ≡ 8 * (a / 8 % 2)
bit_and-8 a =
    bit_and-bitwise a 0x8
    ∙ skip 4 _ (skip 2 _ (skip 1 _ (keep 0 _ nothing))) a a (omega arith)
    ∙ omega arith
