-- ===== src/Objects/Subsystem.antt =====
-- The SFTP subsystem of Sftp/Handles among the objects of the whole crate: which changes of the
-- counted references each of its calls makes.
use ssh2_rs.Base.{
  ℕ, ◌+◌, ◌≡◌, refl, ap, true, false, List, [], ◌∷◌, length, any, ltb, Bool-cases, inl, inr, arith,
  if◌then◌else◌,
}
use ssh2_rs.Errors.{Result, ok, err, panic}
use ssh2_rs.Objects.{
  Kind, sftp, Block, Heap, is_at, refs, dropped, recounted, Op, clones, releases, uses, shuts_down,
  can, perform,
}
use ssh2_rs.Sftp.Handles as Handles
use ssh2_rs.Sftp.Abstract.{View, has}

-- What a call does to the references, by what was there before and by its outcome: an open file is
-- one more, a file that is closed or dropped, or the `Sftp`, one less.
abbrev pub calls_of : {S : Type 0} → ℕ → View → Handles.Op S → Result (Unit {0}) → List Op
calls_of raw v (Handles.opens name path flags mode kind) (ok u) = clones sftp raw ∷ []
calls_of raw v (Handles.opens name path flags mode kind) (err e) = []
calls_of raw v (Handles.opens name path flags mode kind) panic = []
calls_of raw v (Handles.closes name) (ok u) = releases sftp raw ∷ []
calls_of raw v (Handles.closes name) (err e) = []
calls_of raw v (Handles.closes name) panic = []
calls_of raw v (Handles.drops name) r = if has name v.names then releases sftp raw ∷ [] else []
calls_of raw v Handles.shuts_down r = if v.held then shuts_down raw ∷ [] else []
calls_of raw v Handles.drops_sftp r = if v.held then releases sftp raw ∷ [] else []
calls_of raw v (Handles.uses f) r = if v.held then uses sftp raw ∷ [] else []
calls_of raw v (Handles.uses_file name f) r = if has name v.names then uses sftp raw ∷ [] else []

abbrev pub perform_all : List Op → Heap → Heap
perform_all [] h = h
perform_all (op ∷ ops) h = perform_all ops (perform op h)

-- Each call is made on a value that is there.
abbrev pub CanAll : List Op → Heap → Type 0
CanAll [] h = Unit
CanAll (op ∷ ops) h = (can op h ≡ true) × CanAll ops (perform op h)

-- The holders of the subsystem: the `Sftp` and the open files.
abbrev pub holders_of : View → ℕ
holders_of v = (if v.held then 1 else 0) + length v.names

-- There is one block with the pointer at most, with as many references as holders.
pub record Stands (raw : ℕ) (v : View) (h : Heap) : Type 0 where
  pub counted : refs sftp raw h.blocks ≡ holders_of v
  pub single : any (is_at sftp raw) (dropped sftp raw h.blocks) ≡ false

pub refs-recounted :
    (kind : Kind) (raw n : ℕ) (blocks : List Block)
    → ltb 0 (refs kind raw blocks) ≡ true
    → refs kind raw (recounted kind raw n blocks) ≡ n
refs-recounted kind raw n [] e = cc
refs-recounted kind raw n (b ∷ blocks) e = elim (Bool-cases (is_at kind raw b)) [
  | inl here ↦ rw here (rw here refl)
  | inr elsewhere ↦
      rw elsewhere (rw elsewhere (refs-recounted kind raw n blocks (rw elsewhere at e)))
]

pub dropped-recounted :
    (kind : Kind) (raw n : ℕ) (blocks : List Block)
    → dropped kind raw (recounted kind raw n blocks) ≡ dropped kind raw blocks
dropped-recounted kind raw n [] = refl
dropped-recounted kind raw n (b ∷ blocks) = elim (Bool-cases (is_at kind raw b)) [
  | inl here ↦ rw here (rw here refl)
  | inr elsewhere ↦
      rw elsewhere (rw elsewhere (ap (λ l. b ∷ l) (dropped-recounted kind raw n blocks)))
]

pub refs-none :
    (kind : Kind) (raw : ℕ) (blocks : List Block)
    → any (is_at kind raw) blocks ≡ false
    → refs kind raw blocks ≡ 0
refs-none kind raw [] e = refl
refs-none kind raw (b ∷ blocks) e = ground (arith, refs-none kind raw blocks)

pub dropped-none :
    (kind : Kind) (raw : ℕ) (blocks : List Block)
    → any (is_at kind raw) blocks ≡ false
    → dropped kind raw blocks ≡ blocks
dropped-none kind raw [] e = refl
dropped-none kind raw (b ∷ blocks) e = ground (arith, dropped-none kind raw blocks)
