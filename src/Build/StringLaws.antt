-- ===== src/Build/StringLaws.antt =====
-- The operations on texts that libssh2-sys/build.rs uses.
use ssh2_rs.Base.{
  ℕ, ◌+◌, ◌-◌, ◌<◌, ◌≡◌, refl, ap, ◌∙◌, ◌==◌, leb, true, false, ◌||◌, none, some, List, [], ◌∷◌,
  ◌++◌, length, length-append, any, take, drop, arith,
}
use mathlib.Core.List.{append_assoc}
use ssh2_rs.Base.Text.{Bytes}
use ssh2_rs.Build.Strings.{starts_with, contains, find, join, is_char_boundary, slice}

abbrev pub HasNoByte : ℕ → Bytes → Type 0
HasNoByte c text = any (λ b. b == c) text ≡ false

-- What has no line end is not found over one.
starts_with-line :
    (part text rest : Bytes)
    → HasNoByte 10 part
    → starts_with part (text ++ (10 ∷ rest)) ≡ starts_with part text
unfolding starts_with
starts_with-line [] text rest h = refl
starts_with-line (p ∷ ps) [] rest h = ground arith
starts_with-line (p ∷ ps) (b ∷ text) rest h = ground (arith, starts_with-line ps text rest)

contains-line :
    (part text rest : Bytes)
    → HasNoByte 10 part
    → contains part (text ++ (10 ∷ rest)) ≡ (contains part text || contains part rest)
unfolding contains
contains-line part [] rest h = ground (arith, starts_with-line part [] rest)
contains-line part (b ∷ text) rest h =
    ground (arith, starts_with-line part (b ∷ text) rest, contains-line part text rest)

pub contains-join :
    (part : Bytes) (ls : List Bytes)
    → HasNoByte 10 part
    → contains part [] ≡ false
    → contains part (join ls) ≡ any (contains part) ls
unfolding join
contains-join part [] h e = e
contains-join part (l ∷ []) h e = ground arith
contains-join part (l ∷ next ∷ rest) h e =
    contains-line part l (join (next ∷ rest)) h
    ∙ ap (λ b. contains part l || b) (contains-join part (next ∷ rest) h e)

pub find-first :
    (c : ℕ) (front back : Bytes)
    → HasNoByte c front
    → find c (front ++ (c ∷ back)) ≡ some (length front)
unfolding find
find-first c [] back h = ground arith
find-first c (b ∷ front) back h = ground (arith, find-first c front back)

pub find-none : (c : ℕ) (text : Bytes) → HasNoByte c text → find c text ≡ none
unfolding find
find-none c [] h = refl
find-none c (b ∷ text) h = ground (arith, find-none c text)

boundary-ascii :
    (front : Bytes) (b : ℕ) (back : Bytes)
    → b < 0x80
    → is_char_boundary (length front) (front ++ (b ∷ back)) ≡ true
unfolding is_char_boundary
boundary-ascii [] b back h = refl
boundary-ascii (x ∷ []) b back h = ground arith
boundary-ascii (x ∷ y ∷ front) b back h = boundary-ascii (y ∷ front) b back h

drop-append : (front back : Bytes) → drop (length front) (front ++ back) ≡ back
drop-append [] back = refl
drop-append (b ∷ front) back = drop-append front back

take-append : (front back : Bytes) → take (length front) (front ++ back) ≡ front
take-append [] back = refl
take-append (b ∷ front) back = ap (λ l. b ∷ l) (take-append front back)

-- A slice between two ASCII bytes.
pub slice-middle :
    (front middle : Bytes) (b c : ℕ) (back rest : Bytes)
    → middle ++ (c ∷ back) ≡ b ∷ rest
    → b < 0x80
    → c < 0x80
    → slice (length front) (length front + length middle) (front ++ (middle ++ (c ∷ back)))
      ≡ some middle
unfolding slice
slice-middle front middle b c back rest starts lb lc =
    let from : is_char_boundary (length front) (front ++ (middle ++ (c ∷ back))) ≡ true =
      rw starts (boundary-ascii front b rest lb) in
    let to : is_char_boundary (length front + length middle) (front ++ (middle ++ (c ∷ back)))
        ≡ true =
      rw (← append_assoc front middle (c ∷ back), ← length-append front middle)
        (boundary-ascii (front ++ middle) c back lc) in
    let ordered : leb (length front) (length front + length middle) ≡ true = ground arith in
    let long : length front + length middle - length front ≡ length middle = omega arith in
    rw
      (
        ordered,
        from,
        to,
        long,
        drop-append front (middle ++ (c ∷ back)),
        take-append middle (c ∷ back),
      )
      refl
