-- ===== src/Paths/Slices.antt =====
-- Strings that src/ hands to libssh2 as a pointer and a length, `x.len() as c_uint`, and one that it
-- hands over without a length.
use ssh2_rs.Base.{
  ℕ, ◌%◌, ◌^◌, ◌<◌, ◌≡◌, Option, none, some, List, [], ◌∷◌, ltb, ◌==◌, length, take, arith,
  if◌then◌else◌,
}
use ssh2_rs.Base.Text.{Bytes}

-- The bytes that libssh2 sees.
abbrev pub c_slice : Bytes → Bytes
c_slice b = if ltb (length b) (2 ^ 32) then b else take (length b % 2 ^ 32) b

abbrev pub c_slice_option : Option Bytes → Option Bytes
c_slice_option none = none
c_slice_option (some b) = some (c_slice b)

-- A pointer to bytes that stand before `behind` in memory, read as a C string.
abbrev pub up_to_zero : Bytes → Bytes → Bytes
up_to_zero [] behind = behind
up_to_zero (x ∷ b) behind = let rest = up_to_zero b behind in if x == 0 then [] else x ∷ rest

pub slice_whole : (b : Bytes) → length b < 2 ^ 32 → c_slice b ≡ b
slice_whole b e = ground arith

abbrev pub AllBelow : ℕ → List ℕ → Type 0
AllBelow bound [] = Unit
AllBelow bound (n ∷ ns) = (n < bound) × AllBelow bound ns

abbrev pub lengths : List Bytes → List ℕ
lengths [] = []
lengths (b ∷ bs) = length b ∷ lengths bs
