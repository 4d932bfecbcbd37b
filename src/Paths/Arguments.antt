-- ===== src/Paths/Arguments.antt =====
-- The strings that the calls of the crate hand to C, and what refuses them: `CString::new` and
-- `util::path2bytes`.
use ssh2_rs.Base.{Option, none, some, List, [], ◌∷◌, if◌then◌else◌}
use ssh2_rs.Base.Text.{Bytes, has_nul}
use ssh2_rs.Sys.{error_inval}
use ssh2_rs.Errors.{Error, new, nul_error}

pub data Argument : Type 0 where
  text path : Bytes → Argument

-- Why an argument is no C string, if it is none: a zero byte.
abbrev pub refusal : Argument → Option Error
refusal (text b) = if has_nul b then some nul_error else none
refusal (path b) =
    if has_nul b then some (new error_inval "path provided contains a 0 byte") else none

-- The refusal of the first argument that is refused.
abbrev pub refused : List Argument → Option Error
refused [] = none
refused (a ∷ more) = elim (refusal a) [ none ↦ refused more | some e ↦ some e ]

-- A call that is made only if no argument is refused.
abbrev pub unless_refused : {S A : Type 0} → List Argument → (Error → A) → (S → A × S) → S → A × S
unless_refused arguments refuse call s = elim (refused arguments) [
  | none ↦ call s
  | some e ↦ (refuse e, s)
]
