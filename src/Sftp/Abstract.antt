-- ===== src/Sftp/Abstract.antt =====
-- src/sftp.rs: an SFTP subsystem and its files without the counted references, the raw pointers and
-- the state of libssh2: whether the `Sftp` still has the subsystem, and which files are open, by the
-- names of their objects.
use ssh2_rs.Base.{ℕ, ◌≡◌, ◌≢◌, Bool, true, false, List, [], ◌∷◌, ◌==◌, if◌then◌else◌}
use ssh2_rs.Base.Int.{ℤ}
use ssh2_rs.Base.Text.{Bytes}
use ssh2_rs.Sys.{error_bad_use}
use ssh2_rs.Errors.{Error, from_errno, Result, ok, err, panic}
use ssh2_rs.Paths.{path2bytes}
use ssh2_rs.Sftp.Handles.{World, Op, opens, closes, drops, shuts_down, drops_sftp, uses, uses_file}

pub record View : Type 0 where
  pub held : Bool
  pub names : List ℕ

-- What is left of the files without their raw handles.
abbrev pub names_of : List (ℕ × ℕ) → List ℕ
names_of [] = []
names_of ((name, h) ∷ files) = name ∷ names_of files

abbrev pub view : {S : Type 0} → World S → View
view w = record { held = w.held; names = names_of w.files }

abbrev pub has : ℕ → List ℕ → Bool
has name [] = false
has name (n ∷ names) = if n == name then true else has name names

abbrev pub without : ℕ → List ℕ → List ℕ
without name [] = []
without name (n ∷ names) = if n == name then names else n ∷ without name names

abbrev pub closed : ℕ → View → View
closed name v = record v { names = without name v.names }

abbrev pub bad_use : Result (Unit {0})
bad_use = err (from_errno error_bad_use)

-- The outcomes of a call and what is there after each of them.
pub data Allows {S : Type 0} (v : View) (r : Result (Unit {0})) (v' : View) : Op S → Type 0 where
  opening :
      {name : ℕ} {path : Bytes} {flags : ℕ} {mode kind : ℤ}
      → v.held ≡ true
      → r ≡ ok tt
      → v' ≡ record v { names = name ∷ v.names }
      → Allows v r v' (opens name path flags mode kind)
  bad_path :
      {name : ℕ} {path : Bytes} {flags : ℕ} {mode kind : ℤ} (e : Error)
      → path2bytes path ≡ err e
      → r ≡ err e
      → v' ≡ v
      → Allows v r v' (opens name path flags mode kind)
  no_opening :
      {name : ℕ} {path : Bytes} {flags : ℕ} {mode kind : ℤ} (e : Error)
      → v.held ≡ true
      → r ≡ err e
      → v' ≡ v
      → Allows v r v' (opens name path flags mode kind)
  opening_late :
      {name : ℕ} {path : Bytes} {flags : ℕ} {mode kind : ℤ}
      → v.held ≡ false
      → r ≡ bad_use
      → v' ≡ v
      → Allows v r v' (opens name path flags mode kind)
  closing :
      {name : ℕ}
      → has name v.names ≡ true
      → r ≡ ok tt
      → v' ≡ closed name v
      → Allows v r v' (closes name)
  no_closing :
      {name : ℕ} (e : Error)
      → has name v.names ≡ true
      → r ≡ err e
      → v' ≡ v
      → Allows v r v' (closes name)
  closed_before :
      {name : ℕ} → has name v.names ≡ false → r ≡ bad_use → v' ≡ v → Allows v r v' (closes name)
  dropping : {name : ℕ} → r ≡ ok tt → v' ≡ closed name v → Allows v r v' (drops name)
  shutting_down :
      v.held ≡ true
      → v.names ≡ []
      → r ≢ panic
      → v' ≡ record v { held = false }
      → Allows v r v' shuts_down
  busy :
      {name : ℕ} {names : List ℕ}
      → v.names ≡ name ∷ names
      → r ≡ bad_use
      → v' ≡ v
      → Allows v r v' shuts_down
  shut_down_before : v.held ≡ false → r ≡ bad_use → v' ≡ v → Allows v r v' shuts_down
  dropping_sftp : r ≡ ok tt → v' ≡ record v { held = false } → Allows v r v' drops_sftp
  using : {f : ℕ → S → ℤ × S} → v.held ≡ true → r ≢ panic → v' ≡ v → Allows v r v' (uses f)
  gone : {f : ℕ → S → ℤ × S} → v.held ≡ false → r ≡ bad_use → v' ≡ v → Allows v r v' (uses f)
  using_file :
      {name : ℕ} {f : ℕ → S → ℤ × S}
      → has name v.names ≡ true
      → r ≢ panic
      → v' ≡ v
      → Allows v r v' (uses_file name f)
  file_gone :
      {name : ℕ} {f : ℕ → S → ℤ × S}
      → has name v.names ≡ false
      → r ≡ bad_use
      → v' ≡ v
      → Allows v r v' (uses_file name f)

-- A sequence of calls with their outcomes, from one view to another.
pub data Behaves {S : Type 0} (v' : View)
    : List (Op S) → View → List (Result (Unit {0})) → Type 0 where
  done : Behaves v' [] v' []
  goes_on :
      {op : Op S} {ops : List (Op S)} {r : Result (Unit {0})} {rs : List (Result (Unit {0}))}
      {v₁ v₂ : View}
      → Allows v₁ r v₂ op
      → Behaves v' ops v₂ rs
      → Behaves v' (op ∷ ops) v₁ (r ∷ rs)
