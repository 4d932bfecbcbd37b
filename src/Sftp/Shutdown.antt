-- ===== src/Sftp/Shutdown.antt =====
-- `Sftp::shutdown` and the destructors: when the subsystem goes, and in which blocking mode.
use ssh2_rs.Base.{ℕ, ◌≡◌, ◌≢◌, refl, ap, ◌⊎◌, inl, inr, true, false, none, some, [], arith}
use ssh2_rs.Base.Int.{negsuc}
use ssh2_rs.Sys.{error_bad_use}
use ssh2_rs.Errors.{Error, Call, err, lift, ◌>>=◌, from_errno}
use ssh2_rs.Errors.Bind.{bind_rule, bind_err}
use ssh2_rs.Paths.{path2bytes}
use ssh2_rs.Errors.Session.{rc, from_session_error_raw}
use ssh2_rs.Sftp.Raw.{Api}
use ssh2_rs.Sftp.Handles.{
  World, checked, open_locked, close_locked, lock, locked, lock_file, locked_file, shutdown, close,
  drop_file, Op, step, opens, closes, drops, shuts_down, drops_sftp, uses, uses_file, use_sftp,
  use_file, open_mode, drop_sftp, dropped, dropped_sftp,
}
use ssh2_rs.Sftp.Counted.{IsCounted}

module _ {S : Type 0} (api : Api S) where
  no_holders : (w : World S) → IsCounted w → w.wrapped ≡ none → (w.held ≡ false) × (w.files ≡ [])
  no_holders w v gone = grind arith

  -- Where the references are counted right, a shutdown while a file is open, or after the `Sftp`
  -- has lost the subsystem, is refused with BAD_USE and changes nothing.
  pub shutdown_refused :
      (w : World S)
      → IsCounted w
      → (w.held ≡ false) ⊎ (w.files ≢ [])
      → shutdown api w ≡ (err (from_errno error_bad_use), w)
  unfolding shutdown
  shutdown_refused w v (inl gone) = ground arith
  shutdown_refused w v (inr busy) = grind arith

  -- A shutdown of the only reference calls libssh2 once, and takes the subsystem away whatever
  -- libssh2 answers.
  pub shutdown_last :
      (w : World S) (p : ℕ)
      → w.held ≡ true
      → w.strong ≡ 1
      → w.wrapped ≡ some p
      → let (n, s) = api.shutdown p w.lib in
        shutdown api w
        ≡ ((rc api.session n s).0, record w { held = false; strong = 0; wrapped = none; lib = s })
  unfolding shutdown
  shutdown_last w p h e there = ground arith

  -- A shutdown of the only reference that libssh2 answers with a negative code, be it only
  -- EAGAIN, cannot be tried again: the error has that code, the raw pointer is gone all the same,
  -- and a second shutdown gives BAD_USE and changes nothing.
  pub shutdown_failed :
      (w : World S) (p k : ℕ)
      → w.held ≡ true
      → w.strong ≡ 1
      → w.wrapped ≡ some p
      → (api.shutdown p w.lib).0 ≡ negsuc k
      → let (r, w') = shutdown api w in
        ((e : Error) × (r ≡ err e) × (e.code ≡ negsuc k))
        × (w'.wrapped ≡ none)
        × (shutdown api w' ≡ (err (from_errno error_bad_use), w'))
  unfolding shutdown from_session_error_raw
  shutdown_failed w p k h e there fails = (
    (
      from_session_error_raw api.session (negsuc k) (api.shutdown p w.lib).1,
      ground arith,
      ground arith,
    ),
    ground arith,
    ground arith,
  )

  lock-gone : (w : World S) → w.held ≡ false → lock api w ≡ (err (from_errno error_bad_use), w)
  unfolding lock locked
  lock-gone w h = ground arith

  lock_file-gone :
      (name : ℕ) (w : World S)
      → w.files ≡ []
      → lock_file api name w ≡ (err (from_errno error_bad_use), w)
  unfolding lock_file locked_file
  lock_file-gone name w f = ground arith

  -- A call that begins with a refused lock changes nothing.
  refused :
      {A : Type 0} (m : Call (World S) A) (k : A → Call (World S) (Unit {0})) (w : World S)
      → m w ≡ (err (from_errno error_bad_use), w)
      → ((m >>= k) w).1 ≡ w
  refused m k w e = ap (λ o. o.1) (bind_err m k w w (from_errno error_bad_use) e)

  unused : (op : Op S) (w : World S) → w.held ≡ false → w.files ≡ [] → (step api op w).1 ≡ w
  unfolding step open_mode close drop_file use_sftp use_file shutdown drop_sftp dropped dropped_sftp
  unused (opens name path flags mode open_type) w h f =
      bind_rule (λ o. o.1 ≡ w) (lift (path2bytes path))
        (λ filename. lock api >>= open_locked api name filename flags mode open_type) w
        (λ filename _.
          refused (lock api) (open_locked api name filename flags mode open_type) w (lock-gone w h))
        (λ _ _. refl) (λ _. refl)
  unused (closes name) w h f =
      refused (lock_file api name) (close_locked api name) w (lock_file-gone name w f)
  unused (drops name) w h f = ground arith
  unused shuts_down w h f = ground arith
  unused drops_sftp w h f = ground arith
  unused (uses f') w h f = refused (lock api) (λ p. checked api (f' p)) w (lock-gone w h)
  unused (uses_file name f') w h f =
      refused (lock_file api name) (λ k. checked api (f' k)) w (lock_file-gone name w f)

  -- Where the references are counted right and the raw pointer of the subsystem is gone, the
  -- `Sftp` does not hold it, no file is open, and no call, whichever it is, changes anything, the
  -- state of libssh2 included.
  pub gone_for_good :
      (w : World S)
      → IsCounted w
      → w.wrapped ≡ none
      → (w.held ≡ false) × (w.files ≡ []) × ((op : Op S) → (step api op w).1 ≡ w)
  gone_for_good w v gone = let (h, f) = no_holders w v gone in (h, f, λ op. unused op w h f)
