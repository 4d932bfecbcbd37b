-- ===== src/Errors/DisplayLaws.antt =====
-- src/error.rs: a displayed error read back.
use ssh2_rs.Base.{
  ℕ, zero, suc, ◌/◌, ◌%◌, ◌+◌, ◌*◌, ◌-◌, ◌≤◌, ◌≡◌, refl, ap, ◌∙◌, Option, none, some, [], ◌∷◌, ◌==◌,
  Bool-cases, inl, inr, if◌then◌else◌, arith,
}
use ssh2_rs.Base.Int.{ℤ, pos, negsuc}
use ssh2_rs.Base.Text.{Bytes}
use ssh2_rs.Errors.Monad.{Error}
use ssh2_rs.Errors.Display.{message, digits_before, int_before, display}

-- A reader of `[code] message`, which knows nothing of how it is written: the digits up to the
-- closing bracket, and what follows the blank.
unfoldable pub read_number : ℕ → Bytes → Option (ℕ × Bytes)
read_number n [] = none
read_number n (b ∷ bs) =
    let more = read_number (n * 10 + (b - 48)) bs in if b == 93 then some (n, bs) else more

unfoldable pub negated : Option (ℕ × Bytes) → Option (ℤ × Bytes)
negated none = none
negated (some (zero, bs)) = some (pos 0, bs)
negated (some (suc n, bs)) = some (negsuc n, bs)

unfoldable pub plain : Option (ℕ × Bytes) → Option (ℤ × Bytes)
plain none = none
plain (some (n, bs)) = some (pos n, bs)

unfoldable pub read_int : Bytes → Option (ℤ × Bytes)
unfolding read_number negated plain
read_int [] = none
read_int (b ∷ bs) = if b == 45 then negated (read_number 0 bs) else plain (read_number 0 (b ∷ bs))

unfoldable pub after_blank : Option (ℤ × Bytes) → Option (ℤ × Bytes)
after_blank none = none
after_blank (some (code, [])) = none
after_blank (some (code, b ∷ bs)) = some (code, bs)

unfoldable pub read_error : Bytes → Option (ℤ × Bytes)
unfolding read_int after_blank
read_error [] = none
read_error (b ∷ bs) = after_blank (read_int bs)

-- A digit is read.
read_digit :
    (m : ℕ) (rest : Bytes) → read_number (m / 10) ((48 + m % 10) ∷ rest) ≡ read_number m rest
unfolding read_number
read_digit m rest = elim (Bool-cases (48 + m % 10 == 93)) [
  | inl h ↦ absurd (ground arith)
  | inr h ↦ rw h (ap (λ k. read_number k rest) whole)
]
  where
    whole : m / 10 * 10 + (48 + m % 10 - 48) ≡ m
    whole = omega arith

-- The digits of a number are read as the number.
read_digits :
    (fuel n : ℕ) (rest : Bytes)
    → n ≤ fuel
    → read_number 0 (digits_before fuel n rest) ≡ read_number n rest
unfolding digits_before
read_digits zero zero rest h = refl
read_digits zero (suc n) rest h = absurd (omega arith)
read_digits (suc fuel) zero rest h = refl
read_digits (suc fuel) (suc n) rest h =
    read_digits fuel (suc n / 10) _ (omega arith) ∙ read_digit (suc n) rest

-- A number with a first digit is not read as a negative one.
digits_are_plain :
    (fuel m d : ℕ) (rest : Bytes)
    → 48 ≤ d
    → read_int (digits_before fuel m (d ∷ rest))
      ≡ plain (read_number 0 (digits_before fuel m (d ∷ rest)))
unfolding digits_before read_int
digits_are_plain zero m d rest h = ground arith
digits_are_plain (suc fuel) zero d rest h = ground arith
digits_are_plain (suc fuel) (suc m) d rest h =
    digits_are_plain fuel (suc m / 10) _ (d ∷ rest) (omega arith)

-- A c_int is read back, up to the closing bracket.
read_int-int_before : (n : ℤ) (rest : Bytes) → read_int (int_before n (93 ∷ rest)) ≡ some (n, rest)
unfolding read_int int_before read_number negated plain
read_int-int_before (pos zero) rest = refl
read_int-int_before (pos (suc n)) rest =
    digits_are_plain n (suc n / 10) _ (93 ∷ rest) (omega arith)
    ∙ ap plain (read_digits (suc n) (suc n) (93 ∷ rest) (omega arith))
read_int-int_before (negsuc n) rest =
    ap negated (read_digits (suc n) (suc n) (93 ∷ rest) (omega arith))

-- The code and the message of an error are read back from what `Display` writes, whatever
-- they are: the brackets keep them apart, also when the message has brackets or digits of its own.
pub display_lem : (e : Error) → read_error (display e) ≡ some (e.code, message e.msg)
unfolding read_error display after_blank
display_lem e = ap after_blank (read_int-int_before e.code (32 ∷ message e.msg))
