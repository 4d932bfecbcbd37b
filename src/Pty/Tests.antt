-- ===== src/Pty/Tests.antt =====
-- Terminal modes at concrete values.
use ssh2_rs.Base.{◌≡◌, refl, List, [], ◌∷◌, some, none, true, arith}
use ssh2_rs.Pty.{new, set_boolean, set_character, finish}
use ssh2_rs.Pty.Opcodes.{mode, extended, vintr, echo, tty_op_ispeed, discriminant, as_opcode}
use ssh2_rs.Pty.Decode.{decode}
use ssh2_rs.Pty.Setters.{Setter, number, boolean, character, apply_all, decode-apply_all}

abbrev setters : List Setter
setters =
    number (mode tty_op_ispeed) 115200
    ∷ boolean (mode echo) true
    ∷ character (mode vintr) none
    ∷ number (extended 42) 1
    ∷ []

decode-apply_all_example :
    decode (finish (apply_all new setters))
    ≡ some ((128, 115200) ∷ (53, 1) ∷ (1, 255) ∷ (42, 1) ∷ [])
unfolding as_opcode discriminant
decode-apply_all_example = decode-apply_all setters (omega arith)

-- The documented example: the interrupt character is CTRL-C.
control_c : finish (set_character new (mode vintr) (some 3)) ≡ 1 ∷ 0 ∷ 0 ∷ 0 ∷ 3 ∷ 0 ∷ []
unfolding finish new set_character
control_c = refl

unset_character : finish (set_character new (mode vintr) none) ≡ 1 ∷ 0 ∷ 0 ∷ 0 ∷ 255 ∷ 0 ∷ []
unfolding finish new set_character
unset_character = refl

echo_on : finish (set_boolean new (mode echo) true) ≡ 53 ∷ 0 ∷ 0 ∷ 0 ∷ 1 ∷ 0 ∷ []
unfolding finish new set_boolean
echo_on = refl
