-- ===== src/Sftp/Refinement.antt =====
-- The counted references of src/sftp.rs against the view of the subsystem and its open files.
use mathlib.Core.Path.{subst}
use ssh2_rs.Base.{
  ℕ, ◌≡◌, ◌≢◌, refl, sym, ap, inl, inr, Bool, true, false, Option, none, some, List, [], ◌∷◌, arith,
  Option-cases,
}
use ssh2_rs.Base.Int.{ℤ}
use ssh2_rs.Sys.{error_bad_use}
use ssh2_rs.Base.Text.{Bytes}
use ssh2_rs.Errors.{
  Error, unknown, from_errno, Result, ok, err, panic, Call, strict_rc, ◌>>=◌, lift,
}
use ssh2_rs.Errors.Bind.{bind_ok, bind_err}
use ssh2_rs.Errors.Session.{last_error_raw}
use ssh2_rs.Paths.{path2bytes}
use ssh2_rs.Sftp.Raw.{Api}
use ssh2_rs.Sftp.Handles.{
  World, Op, opens, closes, drops, shuts_down, drops_sftp, uses, uses_file, find, lock, lock_file,
  open_mode, open_locked, opened, close, close_locked, closed, checked, drop_file, dropped,
  close_blocking, shutdown, drop_sftp, dropped_sftp, use_sftp, use_file, step, from_raw_opt,
}
use ssh2_rs.Sftp.Counted.{IsCounted, file-alive, shutdown-IsSafe}
use ssh2_rs.Sftp.Lifetime.{run, step-IsSafe, checked-IsSafe, strict_rc-ne-panic, path2bytes-IsSafe}
use ssh2_rs.Sftp.Shutdown.{shutdown_refused}
use ssh2_rs.Sftp.Abstract.{
  view, names_of, Allows, opening, no_opening, bad_path, opening_late, closing, no_closing,
  closed_before, dropping, shutting_down, busy, shut_down_before, dropping_sftp, using, gone,
  using_file, file_gone, Behaves, done, goes_on,
}
use ssh2_rs.Sftp.Views.{
  has-found, has-missing, without-missing, view-release, view-forget, lock-cases, lock_file-cases,
}

module _ {S : Type 0} (api : Api S) where
  -- `o` is allowed where the subsystem was as in `w`.
  abbrev Fits : Op S → World S → Result (Unit {0}) × World S → Type 0
  Fits op w (r, w') = Allows (view w) r (view w') op

  found-Fits :
      (name : ℕ) (f wrapped : Option ℕ) (w : World S)
      → find name w.files ≡ f
      → w.wrapped ≡ wrapped
      → IsCounted w
      → Fits (drops name) w (dropped api name f wrapped w)
  unfolding dropped
  found-Fits name none wrapped w e there v = dropping refl (
      ap (λ names. record { held = w.held; names = names })
        (sym (without-missing name (names_of w.files) (has-missing name w.files e))))
  found-Fits name (some h) none w e there v = absurd (cc (file-alive name h w v e).1)
  found-Fits name (some h) (some p) w e there v =
      dropping refl (view-forget api name (record w { lib = close_blocking api h w.lib }))

  drops-Fits : (name : ℕ) (w : World S) → IsCounted w → Fits (drops name) w (drop_file api name w)
  unfolding drop_file
  drops-Fits name w v = found-Fits name (find name w.files) w.wrapped w refl refl v

  last-view :
      (w : World S)
      → IsCounted w
      → w.held ≡ true
      → w.files ≡ []
      → view (shutdown api w).1 ≡ record (view w) { held = false }
  unfolding shutdown
  last-view w v h none_open = ground arith

  shuts_down-Fits :
      (held : Bool) (files : List (ℕ × ℕ)) (w : World S)
      → w.held ≡ held
      → w.files ≡ files
      → IsCounted w
      → Fits shuts_down w (shutdown api w)
  shuts_down-Fits false files w h f v =
      rw (shutdown_refused api w v (inl h)) (shut_down_before h refl refl)
  shuts_down-Fits true [] w h f v =
      shutting_down h (ap names_of f) (shutdown-IsSafe api w v).0 (last-view w v h f)
  shuts_down-Fits true ((name, k) ∷ files) w h f v =
      rw (shutdown_refused api w v (inr λ none_open. cc)) (busy (ap names_of f) refl refl)

  drops_sftp-Fits :
      (held : Bool) (w : World S)
      → w.held ≡ held
      → Fits drops_sftp w (ok tt, dropped_sftp api held w)
  unfolding dropped_sftp
  drops_sftp-Fits false w h = dropping_sftp refl (ground arith)
  drops_sftp-Fits true w h = dropping_sftp refl (view-release api (record w { held = false }))

  opened-Fits :
      (name : ℕ) (path : Bytes) (flags : ℕ) (mode kind : ℤ) (ret : Option ℕ) (w : World S)
      → w.held ≡ true
      → Fits (opens name path flags mode kind) w (opened api name ret w)
  unfolding opened
  opened-Fits name path flags mode kind none w h =
      elim (Option-cases (last_error_raw api.session w.lib)) [
        | inl quiet ↦ rw (quiet, opened) (no_opening unknown h refl refl)
        | inr (x, said) ↦ rw (said, opened) (no_opening x h refl refl)
      ]
  opened-Fits name path flags mode kind (some p) w h = rw h (opening refl refl refl)

  uses-Fits : (f : ℕ → S → ℤ × S) (w : World S) → IsCounted w → Fits (uses f) w (use_sftp api f w)
  unfolding use_sftp
  uses-Fits f w v = elim (lock-cases api w v) [
    | inl (p, h, e) ↦
        rw (bind_ok (lock api) (λ p. checked api (f p)) w w p e)
          (using h (checked-IsSafe api (f p) w v).0 refl)
    | inr (h, e) ↦
        rw (bind_err (lock api) (λ p. checked api (f p)) w w (from_errno error_bad_use) e)
          (gone h refl refl)
  ]

  uses_file-Fits :
      (name : ℕ) (f : ℕ → S → ℤ × S) (w : World S)
      → IsCounted w
      → Fits (uses_file name f) w (use_file api name f w)
  unfolding use_file
  uses_file-Fits name f w v = elim (lock_file-cases api name w v) [
    | inl (h, found, e) ↦
        rw (bind_ok (lock_file api name) (λ h. checked api (f h)) w w h e)
          (using_file (has-found name h w.files found) (checked-IsSafe api (f h) w v).0 refl)
    | inr (missing, e) ↦
        rw (bind_err (lock_file api name) (λ h. checked api (f h)) w w (from_errno error_bad_use) e)
          (file_gone (has-missing name w.files missing) refl refl)
  ]

  closed-Fits :
      (name h : ℕ) (r : Result (Unit {0})) (w : World S)
      → r ≢ panic
      → find name w.files ≡ some h
      → Fits (closes name) w (closed api name r w)
  unfolding closed
  closed-Fits name h (ok u) w alive e =
      closing (has-found name h w.files e) refl (view-forget api name w)
  closed-Fits name h (err x) w alive e = no_closing x (has-found name h w.files e) refl refl
  closed-Fits name h panic w alive e = absurd (alive refl)

  closes-Fits : (name : ℕ) (w : World S) → IsCounted w → Fits (closes name) w (close api name w)
  unfolding close
  closes-Fits name w v = elim (lock_file-cases api name w v) [
    | inl (h, found, e) ↦
        rw (bind_ok (lock_file api name) (close_locked api name) w w h e)
          (closed-Fits name h (strict_rc _) _ (strict_rc-ne-panic api _) found)
    | inr (missing, e) ↦
        rw (bind_err (lock_file api name) (close_locked api name) w w (from_errno error_bad_use) e)
          (closed_before (has-missing name w.files missing) refl refl)
  ]

  opens-Fits :
      (name : ℕ) (path : Bytes) (flags : ℕ) (mode kind : ℤ) (w : World S)
      → IsCounted w
      → Fits (opens name path flags mode kind) w (open_mode api name path flags mode kind w)
  unfolding open_mode
  opens-Fits name path flags mode kind w v =
      go (path2bytes path) (path2bytes-IsSafe api path w v).0 refl
    where
      locks : Bytes → Call (World S) (Unit {0})
      locks filename = lock api >>= open_locked api name filename flags mode kind

      go :
          (r : Result Bytes)
          → r ≢ panic
          → path2bytes path ≡ r
          → Fits (opens name path flags mode kind) w ((lift r >>= locks) w)
      go (ok filename) alive e₀ = elim (lock-cases api w v) [
        | inl (p, h, e) ↦
            rw (bind_ok (lock api) (open_locked api name filename flags mode kind) w w p e)
              (opened-Fits name path flags mode kind _ _ h)
        | inr (h, e) ↦
            rw
              (bind_err (lock api) (open_locked api name filename flags mode kind) w w
                (from_errno error_bad_use) e)
              (opening_late h refl refl)
      ]
      go (err x) alive e = bad_path x e refl refl
      go panic alive e = absurd (alive refl)

  pub step-Fits : (op : Op S) (w : World S) → IsCounted w → Fits op w (step api op w)
  unfolding step drop_sftp
  step-Fits (opens name path flags mode kind) w v = opens-Fits name path flags mode kind w v
  step-Fits (closes name) w v = closes-Fits name w v
  step-Fits (drops name) w v = drops-Fits name w v
  step-Fits shuts_down w v = shuts_down-Fits w.held w.files w refl refl v
  step-Fits drops_sftp w v = drops_sftp-Fits w.held w refl
  step-Fits (uses f) w v = uses-Fits f w v
  step-Fits (uses_file name f) w v = uses_file-Fits name f w v

  counted-Behaves :
      (ops : List (Op S)) (w : World S)
      → IsCounted w
      → let (rs, w') = run api ops w in Behaves (view w') ops (view w) rs
  unfolding run
  counted-Behaves [] w v = done
  counted-Behaves (op ∷ ops) w v =
      let (r, w') = step api op w in
      goes_on (step-Fits op w v) (counted-Behaves ops w' (step-IsSafe api op w v).1)

-- Whatever a program does with a fresh subsystem and its files, in whatever order and however
-- libssh2 answers, the outcomes of its calls, and which files are open at the end, are those that
-- the abstract subsystem allows from the view in which the `Sftp` has the subsystem and no file is
-- open: a call that needs a file or a subsystem that is gone gives BAD_USE, but for an open of a
-- path that is no C string; a shutdown with a file open gives BAD_USE; and only an open, a close, a
-- drop or a shutdown changes what is there.
pub run-Behaves :
    {S : Type 0} (api : Api S) (p : ℕ) (e : Option Error) (s : S) (ops : List (Op S)) (w : World S)
    → from_raw_opt (some p) e s ≡ ok w
    → let (rs, w') = run api ops w in Behaves (view w') ops (record { held = true; names = [] }) rs
unfolding from_raw_opt
run-Behaves api p e s ops w h =
    let fresh : view w ≡ record { held = true; names = [] } = ground arith in
    subst (λ v. Behaves (view (run api ops w).1) ops v (run api ops w).0) fresh
      (counted-Behaves api ops w (ground arith))
