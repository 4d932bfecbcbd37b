-- ===== src/Build/Laws.antt =====
-- What libssh2-sys/build.rs compiles and writes.
use mathlib.Core.List.{append_assoc}
use ssh2_rs.Base.{
  ◌+◌, ◌-◌, ◌<◌, ◌≡◌, refl, ◌∙◌, Bool, true, false, not, ◌&&◌, some, List, [], ◌∷◌, ◌++◌, length,
  length-append, any, All, arith, Bool-cases, inl, inr,
}
use ssh2_rs.Base.Text.{Bytes, bytes}
use ssh2_rs.Build.Strings.{contains, lines, slice, starts_with}
use ssh2_rs.Build.StringLaws.{HasNoByte, contains-join, find-first, slice-middle}
use ssh2_rs.Build.Texts.{config_lines, config_text, from_quote, quoted, find_line, version}

none_left : (ls : List Bytes) → any (contains (bytes "#cmakedefine")) (config_lines ls) ≡ false
unfolding config_lines
none_left [] = refl
none_left (l ∷ ls) = elim (Bool-cases (contains (bytes "#cmakedefine") l)) [
  | inl out ↦ rw out (none_left ls)
  | inr kept ↦ rw (kept, none_left ls) (rw kept refl)
]

-- A line of the template that is kept, and has a part.
abbrev pub kept_with : Bytes → Bytes → Bool
kept_with part line = not (contains (bytes "#cmakedefine") line) && contains part line

any-config_lines :
    (part : Bytes) (ls : List Bytes)
    → any (contains part) (config_lines ls) ≡ any (kept_with part) ls
unfolding config_lines
any-config_lines part [] = refl
any-config_lines part (l ∷ ls) = ground (arith, any-config_lines part ls)

-- What stands in the `libssh2_config.h` that is written, within a line, is what stands in a line of
-- libssh2's template that has no `#cmakedefine`; and `#cmakedefine` stands nowhere in it, whatever
-- the template is, nor does it arise where lines are joined.
pub config_text-contains :
    (template part : Bytes)
    → HasNoByte 10 part
    → contains part [] ≡ false
    → (contains part (config_text template) ≡ any (kept_with part) (lines template))
      × (contains (bytes "#cmakedefine") (config_text template) ≡ false)
unfolding config_text
config_text-contains template part h e = (
  contains-join part (config_lines (lines template)) h e ∙ any-config_lines part (lines template),
  contains-join (bytes "#cmakedefine") (config_lines (lines template)) refl
        (unfold contains starts_with in refl)
      ∙ none_left (lines template),
)

length-between :
    (front v : Bytes) → length (front ++ (34 ∷ (v ++ (34 ∷ [])))) - 1 ≡ length front + 1 + length v
length-between front v =
    omega (arith, length-append front (34 ∷ (v ++ (34 ∷ []))), length-append v (34 ∷ []))

quoted-between :
    (front v : Bytes)
    → HasNoByte 34 front
    → All (λ b. b < 0x80) v
    → quoted (some (front ++ (34 ∷ (v ++ (34 ∷ []))))) ≡ some v
unfolding quoted from_quote
quoted-between front v h ascii =
    rw (find-first 34 front (v ++ (34 ∷ [])) h, length-between front v)
      (rw (← opened, ← append_assoc front (34 ∷ []) (v ++ (34 ∷ []))) (starting v ascii))
  where
    opened : length (front ++ (34 ∷ [])) ≡ length front + 1
    opened = length-append front (34 ∷ [])

    starting :
        (v : Bytes)
        → All (λ b. b < 0x80) v
        → slice
            (length (front ++ (34 ∷ [])))
            (length (front ++ (34 ∷ [])) + length v)
            ((front ++ (34 ∷ [])) ++ (v ++ (34 ∷ [])))
          ≡ some v
    starting [] a =
        slice-middle (front ++ (34 ∷ [])) [] 34 34 [] [] refl (omega arith) (omega arith)
    starting (b ∷ v) a =
        slice-middle (front ++ (34 ∷ [])) (b ∷ v) b 34 [] (v ++ (34 ∷ [])) refl a.0 (omega arith)

find_line-first :
    (part : Bytes) (before : List Bytes) (line : Bytes) (after : List Bytes)
    → any (contains part) before ≡ false
    → contains part line ≡ true
    → find_line part (before ++ (line ∷ after)) ≡ some line
unfolding find_line
find_line-first part [] line after h e = rw e refl
find_line-first part (l ∷ before) line after h e =
    ground (arith, find_line-first part before line after)

-- Where the first line of libssh2.h that has LIBSSH2_VERSION ends with a text between its first
-- quotation mark and another one, and that text is ASCII, the text is taken for the version; nothing
-- is cut off and no slice panics.
pub version_lem :
    (libssh2h : Bytes) (before after : List Bytes) (front v : Bytes)
    → lines libssh2h ≡ before ++ ((front ++ (34 ∷ (v ++ (34 ∷ [])))) ∷ after)
    → any (contains (bytes "LIBSSH2_VERSION")) before ≡ false
    → contains (bytes "LIBSSH2_VERSION") (front ++ (34 ∷ (v ++ (34 ∷ [])))) ≡ true
    → HasNoByte 34 front
    → All (λ b. b < 0x80) v
    → version libssh2h ≡ some v
unfolding version
version_lem libssh2h before after front v e absent there h ascii =
    rw (e, find_line-first (bytes "LIBSSH2_VERSION") before _ after absent there)
      (quoted-between front v h ascii)
