-- ===== src/Sftp/Blocking.antt =====
-- The blocking mode that the destructors of src/sftp.rs work in.
use ssh2_rs.Base.{ℕ, ◌≡◌, ◌∙◌, refl, Option, none, some, true, false, arith, Bool}
use ssh2_rs.Base.Int.{ℤ, pos, is_set}
use ssh2_rs.Sftp.Raw.{Api}
use ssh2_rs.Sftp.Handles.{
  World, find, release, drop_wrapper, shut_down_blocking, close_blocking, drop_file, dropped,
  drop_sftp, dropped_sftp,
}

-- What libssh2 documents of the blocking flag: it reads as it was set.
pub record KeepsBlocking {S : Type 0} (api : Api S) : Type 0 where
  pub get_set : (b : ℤ) (s : S) → api.session.get_blocking (api.session.set_blocking b s) ≡ b

-- `SessionInner::is_blocking`.
abbrev pub blocks : {S : Type 0} → Api S → S → Bool
blocks api s = is_set (api.session.get_blocking s)

module _ {S : Type 0} (api : Api S) (keeps : KeepsBlocking api) where
  close_blocking-mode : (h : ℕ) (s : S) → blocks api (close_blocking api h s) ≡ blocks api s
  unfolding close_blocking
  close_blocking-mode h s =
      let s' = (api.close_handle h (api.session.set_blocking (pos 1) s)).1 in
      ground (arith, keeps.get_set (pos 0) s', keeps.get_set (pos 1) s')

  shut_down_blocking-mode : (p : ℕ) (s : S) → blocks api (shut_down_blocking api p s) ≡ blocks api s
  unfolding shut_down_blocking
  shut_down_blocking-mode p s =
      let s' = (api.shutdown p (api.session.set_blocking (pos 1) s)).1 in
      ground (arith, keeps.get_set (pos 0) s', keeps.get_set (pos 1) s')

  drop_wrapper-mode :
      (wrapped : Option ℕ) (w : World S)
      → blocks api (drop_wrapper api wrapped w).lib ≡ blocks api w.lib
  unfolding drop_wrapper
  drop_wrapper-mode none w = refl
  drop_wrapper-mode (some p) w = shut_down_blocking-mode p w.lib

  pub release-mode : (w : World S) → blocks api (release api w).lib ≡ blocks api w.lib
  unfolding release
  release-mode w = ground (arith, drop_wrapper-mode w.wrapped (record w { strong = 0 }))

  dropped-mode :
      (name : ℕ) (f wrapped : Option ℕ) (w : World S)
      → blocks api (dropped api name f wrapped w).1.lib ≡ blocks api w.lib
  unfolding dropped
  dropped-mode name none wrapped w = refl
  dropped-mode name (some h) none w = refl
  dropped-mode name (some h) (some p) w = release-mode _ ∙ close_blocking-mode h w.lib

  dropped_sftp-mode :
      (held : Bool) (w : World S) → blocks api (dropped_sftp api held w).lib ≡ blocks api w.lib
  unfolding dropped_sftp
  dropped_sftp-mode false w = refl
  dropped_sftp-mode true w = release-mode (record w { held = false })

  -- Where the blocking flag reads as it was set, dropping a file, or the `Sftp`, also where that
  -- shuts the subsystem down, leaves the session in the blocking mode it was in, whatever libssh2
  -- answers.
  pub drop-mode :
      (name : ℕ) (w : World S)
      → (blocks api (drop_file api name w).1.lib ≡ blocks api w.lib)
        × (blocks api (drop_sftp api w).1.lib ≡ blocks api w.lib)
  unfolding drop_file drop_sftp
  drop-mode name w = (dropped-mode name (find name w.files) w.wrapped w, dropped_sftp-mode w.held w)
