-- ===== src/Pty/Setters.antt =====
-- Programs that set terminal modes with any of the setters of `PtyModes`, src/lib.rs.
use ssh2_rs.Base.{
  ℕ, ◌≡◌, refl, ap, ◌∙◌, Bool, true, false, Option, none, some, List, [], ◌∷◌, map, All,
}
use ssh2_rs.Pty.{PtyModes, new, set_u32, set_boolean, set_character, finish}
use ssh2_rs.Pty.Opcodes.{ExtensiblePtyModeOpcode, as_opcode}
use ssh2_rs.Pty.Decode.{decode, decode-finish, set_all, IsSetting}

pub data Setter : Type 0 where
  number : ExtensiblePtyModeOpcode → ℕ → Setter
  boolean : ExtensiblePtyModeOpcode → Bool → Setter
  character : ExtensiblePtyModeOpcode → Option ℕ → Setter

abbrev pub apply : PtyModes → Setter → PtyModes
apply modes (number option value) = set_u32 modes option value
apply modes (boolean option value) = set_boolean modes option value
apply modes (character option c) = set_character modes option c

abbrev pub apply_all : PtyModes → List Setter → PtyModes
apply_all modes [] = modes
apply_all modes (s ∷ rest) = apply_all (apply modes s) rest

-- The mode that is set, and its value as RFC 4254 has it: a flag is 0 or 1, and a character that is
-- not set is 255.
abbrev pub setting : Setter → ExtensiblePtyModeOpcode × ℕ
setting (number option value) = (option, value)
setting (boolean option true) = (option, 1)
setting (boolean option false) = (option, 0)
setting (character option none) = (option, 255)
setting (character option (some c)) = (option, c)

abbrev pub settings : List Setter → List (ExtensiblePtyModeOpcode × ℕ)
settings [] = []
settings (s ∷ rest) = setting s ∷ settings rest

apply-setting :
    (modes : PtyModes) (s : Setter) → apply modes s ≡ set_u32 modes (setting s).0 (setting s).1
unfolding set_boolean set_character
apply-setting modes (number option value) = refl
apply-setting modes (boolean option true) = refl
apply-setting modes (boolean option false) = refl
apply-setting modes (character option none) = refl
apply-setting modes (character option (some c)) = refl

apply_all-settings :
    (modes : PtyModes) (ss : List Setter) → apply_all modes ss ≡ set_all modes (settings ss)
unfolding set_all
apply_all-settings modes [] = refl
apply_all-settings modes (s ∷ rest) =
    apply_all-settings (apply modes s) rest
    ∙ ap (λ m. set_all m (settings rest)) (apply-setting modes s)

-- Whatever setters are called on a fresh `PtyModes`, in whatever order, a server reads from the
-- finished bytes what they set, in the order of the calls: a flag as 0 or 1, a character as its code
-- point, and one that is not set as 255; each opcode takes an argument and each value is a u32.
pub decode-apply_all :
    (ss : List Setter)
    → All IsSetting (settings ss)
    → decode (finish (apply_all new ss)) ≡ some (map (λ (o, v). (as_opcode o, v)) (settings ss))
decode-apply_all ss h =
    ap (λ m. decode (finish m)) (apply_all-settings new ss) ∙ decode-finish (settings ss) h
