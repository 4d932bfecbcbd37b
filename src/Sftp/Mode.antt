-- ===== src/Sftp/Mode.antt =====
-- The blocking mode of the session under calls on an SFTP subsystem and its files, src/sftp.rs.
use ssh2_rs.Base.{
  ℕ, ◌≡◌, ◌∙◌, refl, ap, inl, inr, Bool, true, false, ◌==◌, Option, none, some, List, [], ◌∷◌, All,
  arith, Option-cases,
}
use ssh2_rs.Base.Int.{ℤ}
use ssh2_rs.Base.Text.{Bytes}
use ssh2_rs.Errors.{Result, ok, err, panic, Call, ◌>>=◌, lift}
use ssh2_rs.Errors.Bind.{bind_rule}
use ssh2_rs.Errors.Session.{rc, last_error_raw}
use ssh2_rs.Paths.{path2bytes}
use ssh2_rs.Paths.Slices.{c_slice}
use ssh2_rs.Sftp.Raw.{Api}
use ssh2_rs.Sftp.Handles.{
  World, Op, opens, closes, drops, shuts_down, drops_sftp, uses, uses_file, lock, lock_file,
  open_mode, open_locked, opened, close, close_locked, closed, checked, shutdown, taken, try_unwrap,
  use_sftp, use_file, step,
}
use ssh2_rs.Sftp.Counted.{lock-same, lock_file-same}
use ssh2_rs.Sftp.Lifetime.{run}
use ssh2_rs.Sftp.Blocking.{KeepsBlocking, blocks, release-mode, drop-mode}

-- The blocking flag belongs to the application: the calls that open, close and shut down leave it
-- as it is.
pub record LeavesBlocking {S : Type 0} (api : Api S) : Type 0 where
  pub flag : KeepsBlocking api
  pub open_ex :
      (p : ℕ) (path : Bytes) (flags : ℕ) (mode kind : ℤ) (s : S)
      → blocks api (api.open_ex p path flags mode kind s).1 ≡ blocks api s
  pub close_handle : (h : ℕ) (s : S) → blocks api (api.close_handle h s).1 ≡ blocks api s
  pub shutdown : (p : ℕ) (s : S) → blocks api (api.shutdown p s).1 ≡ blocks api s

-- The same for the calls that a program makes beside these.
abbrev pub LeavesMode : {S : Type 0} → Api S → Op S → Type 0
LeavesMode api (uses f) = (p : ℕ) (s : _) → blocks api (f p s).1 ≡ blocks api s
LeavesMode api (uses_file name f) = (h : ℕ) (s : _) → blocks api (f h s).1 ≡ blocks api s
LeavesMode api op = Unit

module _ {S : Type 0} (api : Api S) (leaves : LeavesBlocking api) where
  -- The session blocks after an outcome as it did before.
  abbrev Same : {A : Type 0} → World S → Result A × World S → Type 0
  Same w o = blocks api o.1.lib ≡ blocks api w.lib

  -- A chain whose first call changes nothing.
  after_lock :
      {A : Type 0} (m : Call (World S) A) (f : A → Call (World S) (Unit {0})) (w : World S)
      → (m w).1 ≡ w
      → ((a : A) → Same w (f a w))
      → Same w ((m >>= f) w)
  after_lock m f w same next =
      bind_rule (Same w) m f w (λ a _. ap (λ v. blocks api (f a v).1.lib) same ∙ next a)
        (λ _ _. ap (λ v. blocks api v.lib) same) (λ _. ap (λ v. blocks api v.lib) same)

  checked-mode :
      (f : S → ℤ × S) (w : World S)
      → ((s : S) → blocks api (f s).1 ≡ blocks api s)
      → Same w (checked api f w)
  unfolding rc
  checked-mode f w keeps = keeps w.lib

  opened-mode : (name : ℕ) (ret : Option ℕ) (w : World S) → Same w (opened api name ret w)
  unfolding opened
  opened-mode name none w = elim (Option-cases (last_error_raw api.session w.lib)) [
    | inl quiet ↦ rw (quiet, opened) refl
    | inr (x, said) ↦ rw (said, opened) refl
  ]
  opened-mode name (some h) w = ground arith

  closed-mode : (name : ℕ) (r : Result (Unit {0})) (w : World S) → Same w (closed api name r w)
  unfolding closed
  closed-mode name (ok u) w = release-mode api leaves.flag _
  closed-mode name (err e) w = refl
  closed-mode name panic w = refl

  try_unwrap-mode :
      (only : Bool) (wrapped : Option ℕ) (w : World S) → Same w (try_unwrap api only wrapped w)
  unfolding try_unwrap
  try_unwrap-mode false wrapped w = refl
  try_unwrap-mode true none w = refl
  try_unwrap-mode true (some p) w = checked-mode (api.shutdown p) w (leaves.shutdown p)

  taken-mode : (held : Bool) (w : World S) → Same w (taken api held w)
  unfolding taken
  taken-mode false w = refl
  taken-mode true w = try_unwrap-mode (w.strong == 1) w.wrapped (record w { held = false })

  shutdown-mode : (w : World S) → Same w (shutdown api w)
  unfolding shutdown
  shutdown-mode w = taken-mode w.held w

  open_mode-mode :
      (name : ℕ) (path : Bytes) (flags : ℕ) (mode kind : ℤ) (w : World S)
      → Same w (open_mode api name path flags mode kind w)
  unfolding open_mode
  open_mode-mode name path flags mode kind w =
      after_lock (lift (path2bytes path))
        (λ filename. lock api >>= open_locked api name filename flags mode kind) w refl
        λ filename.
          after_lock (lock api) (open_locked api name filename flags mode kind) w (lock-same api w)
            λ p. opened-mode name _ _ ∙ leaves.open_ex p (c_slice filename) flags mode kind w.lib

  close-mode : (name : ℕ) (w : World S) → Same w (close api name w)
  unfolding close
  close-mode name w =
      after_lock (lock_file api name) (close_locked api name) w (lock_file-same api name w)
        λ h. closed-mode name _ _ ∙ leaves.close_handle h w.lib

  step-mode : (op : Op S) (w : World S) → LeavesMode api op → Same w (step api op w)
  unfolding step use_sftp use_file
  step-mode (opens name path flags mode kind) w k = open_mode-mode name path flags mode kind w
  step-mode (closes name) w k = close-mode name w
  step-mode (drops name) w k = (drop-mode api leaves.flag name w).0
  step-mode shuts_down w k = shutdown-mode w
  step-mode drops_sftp w k = (drop-mode api leaves.flag 0 w).1
  step-mode (uses f) w k =
      after_lock (lock api) (λ p. checked api (f p)) w (lock-same api w)
        λ p. checked-mode (f p) w (k p)
  step-mode (uses_file name f) w k =
      after_lock (lock_file api name) (λ h. checked api (f h)) w (lock_file-same api name w)
        λ h. checked-mode (f h) w (k h)

  -- Where the blocking flag reads as it was set, and libssh2's own calls leave it as it is: whatever
  -- a program does with a subsystem and its files, dropping them included, whether libssh2 succeeds
  -- or fails, the session blocks at the end exactly if it did at the start.
  pub run-mode :
      (ops : List (Op S)) (w : World S)
      → All (LeavesMode api) ops
      → blocks api (run api ops w).1.lib ≡ blocks api w.lib
  unfolding run
  run-mode [] w k = refl
  run-mode (op ∷ ops) w k = run-mode ops (step api op w).1 k.1 ∙ step-mode op w k.0
