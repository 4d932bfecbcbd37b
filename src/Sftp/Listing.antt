-- ===== src/Sftp/Listing.antt =====
-- src/sftp.rs, `Sftp::readdir`: the entries of a directory, read through a `File` that is dropped at
-- the end. The loop takes fuel, and so does each `File::readdir` in it.
use ssh2_rs.Base.{ℕ, zero, suc, Bool, ◌||◌, none, some, List, [], ◌∷◌, if◌then◌else◌}
use ssh2_rs.Base.Int.{◌==ℤ◌}
use ssh2_rs.Base.Text.{Bytes}
use ssh2_rs.Sys.{error_file}
use ssh2_rs.Errors.{Result, ok, err, panic}
use ssh2_rs.Walk.{Outcome, pushed}
use ssh2_rs.Sftp.Raw.{Api}
use ssh2_rs.Sftp.Stat.{FileStat}
use ssh2_rs.Sftp.Handles.{World, lock_file, drop_file}
use ssh2_rs.Sftp.Requests.{opendir}
use ssh2_rs.Sftp.Buffers.{readdir}

-- What the standard library knows of paths: `Path::join` and the equality of `Path`.
pub record PathLib : Type 0 where
  pub join : Bytes → Bytes → Bytes
  pub path_eq : Bytes → Bytes → Bool

-- `.` and `..`.
abbrev pub is_dots : PathLib → Bytes → Bool
is_dots lib filename = lib.path_eq filename (46 ∷ []) || lib.path_eq filename (46 ∷ 46 ∷ [])

abbrev pub Entry : Type 0
Entry = Bytes × FileStat

module _ {S : Type 0} (api : Api S) where
  abbrev pub in_world : {A : Type 0} → World S → Outcome S A → Outcome (World S) A
  in_world w none = none
  in_world w (some (r, s)) = some (r, record w { lib = s })

  unfoldable pub readdir_locked : ℕ → Result ℕ → World S → Outcome (World S) Entry
  readdir_locked fuel (ok h) w = in_world w (readdir api fuel h w.lib)
  readdir_locked fuel (err e) w = some (err e, w)
  readdir_locked fuel panic w = some (panic, w)

  -- `File::readdir`.
  unfoldable pub file_readdir : ℕ → ℕ → World S → Outcome (World S) Entry
  unfolding readdir_locked
  file_readdir fuel name w = let (r, w') = lock_file api name w in readdir_locked fuel r w'

module _ {S : Type 0} (lib : PathLib) (dirname : Bytes) where
  -- One round of the loop, given what the rounds after it do.
  unfoldable pub round :
      Outcome (World S) Entry
      → (World S → Outcome (World S) (List Entry))
      → Outcome (World S) (List Entry)
  unfolding pushed
  round none rest = none
  round (some (ok (filename, stat), w)) rest =
      if is_dots lib filename
      then rest w
      else pushed w (some (lib.join dirname filename, stat)) (rest w)
  round (some (err e, w)) rest = if e.code ==ℤ error_file then some (ok [], w) else some (err e, w)
  round (some (panic, w)) rest = some (panic, w)

module _ {S : Type 0} (api : Api S) (lib : PathLib) (dirname : Bytes) (dir : ℕ) where
  unfoldable pub collect : ℕ → ℕ → World S → Outcome (World S) (List Entry)
  unfolding round
  collect inner zero w = none
  collect inner (suc fuel) w = round lib dirname (file_readdir api inner dir w) (collect inner fuel)

  -- The directory goes out of scope.
  unfoldable pub dropping : Outcome (World S) (List Entry) → Outcome (World S) (List Entry)
  dropping none = none
  dropping (some (r, w)) = some (r, (drop_file api dir w).1)

  unfoldable pub listed : ℕ → ℕ → Result (Unit {0}) → World S → Outcome (World S) (List Entry)
  unfolding dropping
  listed inner fuel (ok u) w = dropping (collect inner fuel w)
  listed inner fuel (err e) w = some (err e, w)
  listed inner fuel panic w = some (panic, w)

  -- `Sftp::readdir`.
  unfoldable pub sftp_readdir : ℕ → ℕ → World S → Outcome (World S) (List Entry)
  unfolding listed
  sftp_readdir inner fuel w = let (r, w') = opendir api dir dirname w in listed inner fuel r w'
