-- ===== src/Build/Strings.antt =====
-- What libssh2-sys/build.rs uses of Rust's `str`, on the bytes of a text.
use ssh2_rs.Base.{
  ℕ, zero, suc, ◌-◌, ◌==◌, ltb, leb, Bool, true, false, ◌&&◌, ◌||◌, Option, none, some, List, [],
  ◌∷◌, ◌++◌, length, take, drop, if◌then◌else◌,
}
use mathlib.Core.Option
use ssh2_rs.Base.Text.{Bytes}

unfoldable pub starts_with : Bytes → Bytes → Bool
starts_with [] text = true
starts_with (p ∷ ps) [] = false
starts_with (p ∷ ps) (b ∷ text) = (p == b) && starts_with ps text

-- `text.contains(part)`.
unfoldable pub contains : Bytes → Bytes → Bool
unfolding starts_with
contains part [] = starts_with part []
contains part (b ∷ text) = starts_with part (b ∷ text) || contains part text

-- `text.find(c)`, for an ASCII character.
unfoldable pub find : ℕ → Bytes → Option ℕ
find c [] = none
find c (b ∷ text) = if b == c then some 0 else Option.map suc (find c text)

unfoldable pub before_first : ℕ → List Bytes → List Bytes
before_first b [] = (b ∷ []) ∷ []
before_first b (line ∷ rest) = (b ∷ line) ∷ rest

-- `text.lines()`: a line ends at "\n" or "\r\n", and the last one may end without.
unfoldable pub lines : Bytes → List Bytes
unfolding before_first starts_with
lines [] = []
lines (b ∷ text) =
    let rest = lines text in
    if b == 10
    then [] ∷ rest
    else if (b == 13) && starts_with (10 ∷ []) text
    then rest
    else before_first b rest

-- `lines.join("\n")`.
unfoldable pub join : List Bytes → Bytes
join [] = []
join (line ∷ []) = line
join (line ∷ next ∷ rest) = line ++ (10 ∷ join (next ∷ rest))

-- `text.replace(part, to)` for a part that is not empty: the occurrences from the left that do not
-- overlap; the first argument says how many bytes of an occurrence are still to be passed over.
unfoldable pub replace_from : ℕ → Bytes → Bytes → Bytes → Bytes
unfolding starts_with
replace_from n part to [] = []
replace_from (suc n) part to (b ∷ text) = replace_from n part to text
replace_from zero part to (b ∷ text) =
    let hit = to ++ replace_from (length part - 1) part to text in
    let miss = b ∷ replace_from 0 part to text in if starts_with part (b ∷ text) then hit else miss

unfoldable pub replace : Bytes → Bytes → Bytes → Bytes
unfolding replace_from
replace part to text = replace_from 0 part to text

-- Whether a character of a text starts at a byte, or the text ends there.
unfoldable pub is_char_boundary : ℕ → Bytes → Bool
is_char_boundary zero text = true
is_char_boundary (suc n) [] = false
is_char_boundary (suc n) (b ∷ []) = n == 0
is_char_boundary (suc zero) (b ∷ c ∷ text) = ltb c 0x80 || leb 0xC0 c
is_char_boundary (suc (suc n)) (b ∷ c ∷ text) = is_char_boundary (suc n) (c ∷ text)

-- `&text[from..to]`, which panics where a bound is out of order or inside a character.
unfoldable pub slice : ℕ → ℕ → Bytes → Option Bytes
unfolding is_char_boundary
slice from to text =
    if leb from to && is_char_boundary from text && is_char_boundary to text
    then some (take (to - from) (drop from text))
    else none
