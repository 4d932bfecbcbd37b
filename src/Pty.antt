-- ===== src/Pty.antt =====
-- src/lib.rs, `PtyModes`: the encoding of terminal modes for a pty request.
pub mod Opcodes
pub mod Distinct
pub mod Decode
pub mod Setters
mod Tests
use ssh2_rs.Base.{
  ℕ, ◌/◌, ◌%◌, ◌^◌, bit_and, Bool, Option, none, some, List, [], ◌∷◌, ◌++◌, if◌then◌else◌,
}
use ssh2_rs.Base.Text.{Bytes}
use Opcodes.{ExtensiblePtyModeOpcode, as_opcode, discriminant, tty_op_end}

-- The field `data` of the struct.
pub record PtyModes : Type 0 where
  pub encoded : Bytes

-- `PtyModes::new`.
unfoldable pub new : PtyModes
new = record { encoded = [] }

-- `x as u8`.
abbrev pub as_u8 : ℕ → ℕ
as_u8 x = x % 256

-- A shift right and a mask by 0xff.
abbrev pub byte_at : ℕ → ℕ → ℕ
byte_at shift value = as_u8 (bit_and (value / 2 ^ shift) 0xff)

unfoldable pub set_u32 : PtyModes → ExtensiblePtyModeOpcode → ℕ → PtyModes
unfolding as_opcode
set_u32 modes option value = record {
  encoded =
      modes.encoded
      ++ as_opcode option
        ∷ byte_at 24 value
        ∷ byte_at 16 value
        ∷ byte_at 8 value
        ∷ byte_at 0 value
        ∷ [];
}

unfoldable pub set_boolean : PtyModes → ExtensiblePtyModeOpcode → Bool → PtyModes
unfolding set_u32
set_boolean modes option value = set_u32 modes option (if value then 1 else 0)

-- A character is its code point.
unfoldable pub set_character : PtyModes → ExtensiblePtyModeOpcode → Option ℕ → PtyModes
unfolding set_u32
set_character modes option c = set_u32 modes option (elim c [ none ↦ 255 | some code ↦ code ])

unfoldable pub finish : PtyModes → Bytes
unfolding discriminant
finish modes = modes.encoded ++ discriminant tty_op_end ∷ []
