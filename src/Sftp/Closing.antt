-- ===== src/Sftp/Closing.antt =====
-- `File::close` of src/sftp.rs.
use ssh2_rs.Base.{ℕ, ◌≡◌, ◌≢◌, refl, ◌∙◌, ap, ◌⊎◌, inl, inr, some, Bool-cases}
use ssh2_rs.Base.Int.{ℤ, pos, ◌==ℤ◌, ==ℤ_iff}
use ssh2_rs.Errors.{ok, err, from_errno, strict_rc}
use ssh2_rs.Errors.Bind.{bind_ok}
use ssh2_rs.Sftp.Raw.{Api}
use ssh2_rs.Sftp.Handles.{
  World, find, forget, lock_file, locked_file, closed, close_locked, close, on_lib,
}

module _ {S : Type 0} (api : Api S) where
  lock_file-open :
      (name h p : ℕ) (w : World S)
      → find name w.files ≡ some h
      → w.wrapped ≡ some p
      → lock_file api name w ≡ (ok h, w)
  unfolding lock_file locked_file
  lock_file-open name h p w f there = rw (f, there) refl

  close-closed :
      (name h p : ℕ) (n : ℤ) (s : S) (w : World S)
      → find name w.files ≡ some h
      → w.wrapped ≡ some p
      → api.close_handle h w.lib ≡ (n, s)
      → close api name w ≡ closed api name (strict_rc n) (record w { lib = s })
  unfolding close
  close-closed name h p n s w f there answers =
      bind_ok (lock_file api name) (close_locked api name) w w h (lock_file-open name h p w f there)
      ∙ bind_ok (on_lib api (api.close_handle h)) (λ k. closed api name (strict_rc k)) w
          (record w { lib = s }) n (ap (λ o. (ok o.0, record w { lib = o.1 })) answers)

  -- A close of an open file whose subsystem is there: if libssh2 answers 0, the file is forgotten
  -- and its reference released; on any other code, EAGAIN included, the error is the one that the
  -- table has for the code, and the file can still be locked, so that the close can be tried
  -- again.
  pub close_outcome :
      (name h p : ℕ) (n : ℤ) (s : S) (w : World S)
      → find name w.files ≡ some h
      → w.wrapped ≡ some p
      → api.close_handle h w.lib ≡ (n, s)
      → ((n ≡ pos 0) × (close api name w ≡ (ok tt, forget api name (record w { lib = s }))))
        ⊎ ((n ≢ pos 0)
            × (close api name w ≡ (err (from_errno n), record w { lib = s }))
            × (lock_file api name (record w { lib = s }) ≡ (ok h, record w { lib = s })))
  unfolding closed strict_rc
  close_outcome name h p n s w f there answers = elim (Bool-cases (n ==ℤ pos 0)) [
    | inl t ↦ inl ((==ℤ_iff n (pos 0)).0 t, once ∙ rw t refl)
    | inr t ↦ inr (
      λ e. cc ((==ℤ_iff n (pos 0)).1 e),
      once ∙ rw t refl,
      lock_file-open name h p (record w { lib = s }) f there,
    )
  ]
    where
      once : close api name w ≡ closed api name (strict_rc n) (record w { lib = s })
      once = close-closed name h p n s w f there answers
