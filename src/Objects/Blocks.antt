-- ===== src/Objects/Blocks.antt =====
-- What a change of the blocks does to the pointers that are not freed.
use ssh2_rs.Base.{ℕ, suc, ◌≡◌, refl, true, List, [], ◌∷◌, length, ltb, arith}
use ssh2_rs.Objects.{Kind, Block, refs, dropped, recounted}
use ssh2_rs.Objects.Monitor.{has, without, pointers_of}

pub has-refs :
    (kind : Kind) (raw : ℕ) (blocks : List Block)
    → ltb 0 (refs kind raw blocks) ≡ true
    → has kind raw (pointers_of blocks) ≡ true
has-refs kind raw [] e = cc
has-refs kind raw (b ∷ blocks) e = ground (arith, has-refs kind raw blocks)

pub length-dropped :
    (kind : Kind) (raw : ℕ) (blocks : List Block)
    → ltb 0 (refs kind raw blocks) ≡ true
    → length blocks ≡ suc (length (dropped kind raw blocks))
length-dropped kind raw [] e = cc
length-dropped kind raw (b ∷ blocks) e = ground (arith, length-dropped kind raw blocks)

pub pointers_of-dropped :
    (kind : Kind) (raw : ℕ) (blocks : List Block)
    → pointers_of (dropped kind raw blocks) ≡ without kind raw (pointers_of blocks)
pointers_of-dropped kind raw [] = refl
pointers_of-dropped kind raw (b ∷ blocks) = ground (arith, pointers_of-dropped kind raw blocks)

pub length-recounted :
    (kind : Kind) (raw n : ℕ) (blocks : List Block)
    → length (recounted kind raw n blocks) ≡ length blocks
length-recounted kind raw n [] = refl
length-recounted kind raw n (b ∷ blocks) = ground (arith, length-recounted kind raw n blocks)

pub pointers_of-recounted :
    (kind : Kind) (raw n : ℕ) (blocks : List Block)
    → pointers_of (recounted kind raw n blocks) ≡ pointers_of blocks
pointers_of-recounted kind raw n [] = refl
pointers_of-recounted kind raw n (b ∷ blocks) =
    ground (arith, pointers_of-recounted kind raw n blocks)
