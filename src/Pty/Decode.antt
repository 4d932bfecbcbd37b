-- ===== src/Pty/Decode.antt =====
-- The other end of the encoding: RFC 4254, section 8, says how a server reads terminal modes.
use mathlib.Core.Option
use mathlib.Core.List.{append_assoc, append-nil}
use ssh2_rs.Base.{
  ℕ, ◌+◌, ◌*◌, ◌/◌, ◌^◌, ◌≤◌, ◌<◌, ◌≡◌, refl, ◌∙◌, Bool, ◌||◌, Option, none, some, List, [], ◌∷◌,
  ◌++◌, map, All, arith, ◌==◌, leb, if◌then◌else◌,
}
use ssh2_rs.Base.Bits.{bit_and-byte}
use ssh2_rs.Base.Text.{Bytes}
use ssh2_rs.Pty.{PtyModes, new, set_u32, finish, byte_at}
use ssh2_rs.Pty.Opcodes.{ExtensiblePtyModeOpcode, as_opcode, discriminant}

-- Opcode 0 ends the stream, and so does one from 160 on, which has no known argument.
abbrev pub stops : ℕ → Bool
stops op = (op == 0) || leb 160 op

abbrev pub word : ℕ → ℕ → ℕ → ℕ → ℕ
word a b c d = a * 2 ^ 24 + b * 2 ^ 16 + c * 2 ^ 8 + d

-- The modes of a stream, or `none` where it is cut short.
pub decode : Bytes → Option (List (ℕ × ℕ))
decode [] = none
decode (op ∷ a ∷ b ∷ c ∷ d ∷ rest) =
    if stops op then some [] else Option.map (λ ms. (op, word a b c d) ∷ ms) (decode rest)
decode (op ∷ rest) = if stops op then some [] else none

-- A setting that a server understands: an opcode that takes an argument, and a u32.
abbrev pub IsSetting : ExtensiblePtyModeOpcode × ℕ → Type 0
IsSetting (option, value) = (1 ≤ as_opcode option) × (as_opcode option < 160) × (value < 2 ^ 32)

unfoldable pub set_all : PtyModes → List (ExtensiblePtyModeOpcode × ℕ) → PtyModes
set_all modes [] = modes
set_all modes ((option, value) ∷ rest) = set_all (set_u32 modes option value) rest

encode : List (ExtensiblePtyModeOpcode × ℕ) → Bytes
encode [] = []
encode ((option, value) ∷ rest) =
    as_opcode option
    ∷ byte_at 24 value
    ∷ byte_at 16 value
    ∷ byte_at 8 value
    ∷ byte_at 0 value
    ∷ encode rest

-- The bytes of the calls stand behind one another.
encoded-set_all :
    (modes : PtyModes) (settings : List (ExtensiblePtyModeOpcode × ℕ))
    → (set_all modes settings).encoded ≡ modes.encoded ++ encode settings
unfolding set_all encode set_u32
encoded-set_all modes [] = simp append-nil
encoded-set_all modes ((option, value) ∷ rest) =
    encoded-set_all (set_u32 modes option value) rest ∙ append_assoc modes.encoded _ (encode rest)

word-byte_at :
    (v : ℕ) → v < 2 ^ 32 → word (byte_at 24 v) (byte_at 16 v) (byte_at 8 v) (byte_at 0 v) ≡ v
word-byte_at v h = omega (
  arith,
  bit_and-byte (v / 2 ^ 24),
  bit_and-byte (v / 2 ^ 16),
  bit_and-byte (v / 2 ^ 8),
  bit_and-byte (v / 2 ^ 0),
)

decode-encode :
    (settings : List (ExtensiblePtyModeOpcode × ℕ))
    → All IsSetting settings
    → decode (encode settings ++ 0 ∷ []) ≡ some (map (λ (o, v). (as_opcode o, v)) settings)
unfolding decode encode
decode-encode [] h = refl
decode-encode ((option, value) ∷ rest) h =
    ground (arith, word-byte_at value h.0.2, decode-encode rest h.1)

-- What was set in a fresh `PtyModes` is what a server reads from the finished bytes, in the order
-- of the calls, where each opcode takes an argument and each value is a u32.
pub decode-finish :
    (settings : List (ExtensiblePtyModeOpcode × ℕ))
    → All IsSetting settings
    → decode (finish (set_all new settings)) ≡ some (map (λ (o, v). (as_opcode o, v)) settings)
unfolding finish new discriminant
decode-finish settings h =
    rw (encoded-set_all (record { encoded = [] }) settings) (decode-encode settings h)
