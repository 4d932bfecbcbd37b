-- ===== src/Errors/Display.antt =====
-- src/error.rs: what `Error::code`, `Error::message` and `Display` give of an error.
use ssh2_rs.Base.{ℕ, zero, suc, ◌/◌, ◌%◌, ◌+◌, ◌∷◌}
use ssh2_rs.Base.Int.{ℤ, pos, negsuc}
use ssh2_rs.Base.Text.{Bytes, bytes}
use ssh2_rs.Errors.Monad.{Error, Message, borrowed, owned}

-- `&*self.msg`: the text of a `Cow`, which `Error::message` returns.
unfoldable pub message : Message → Bytes
message (borrowed s) = bytes s
message (owned b) = b

-- The decimal digits of a number, before a text: none of 0. The fuel bounds their number.
unfoldable pub digits_before : ℕ → ℕ → Bytes → Bytes
digits_before zero n rest = rest
digits_before (suc fuel) zero rest = rest
digits_before (suc fuel) (suc n) rest = digits_before fuel (suc n / 10) ((48 + suc n % 10) ∷ rest)

-- `Display` of a c_int, before a text.
unfoldable pub int_before : ℤ → Bytes → Bytes
unfolding digits_before
int_before (pos zero) rest = 48 ∷ rest
int_before (pos (suc n)) rest = digits_before (suc n) (suc n) rest
int_before (negsuc n) rest = 45 ∷ digits_before (suc n) (suc n) rest

-- `write!(f, "[{}] {}", self.code, self.msg)`.
unfoldable pub display : Error → Bytes
unfolding int_before message
display e = 91 ∷ int_before e.code (93 ∷ 32 ∷ message e.msg)
