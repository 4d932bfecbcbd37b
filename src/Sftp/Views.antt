-- ===== src/Sftp/Views.antt =====
-- How the lists of files, the releases and the locks of src/sftp.rs look in the view.
use ssh2_rs.Base.{
  ℕ, ◌≡◌, refl, ap, ◌∙◌, ◌⊎◌, inl, inr, Bool, true, false, Option, none, some, List, [], ◌∷◌, arith,
  Option-cases,
}
use ssh2_rs.Sys.{error_bad_use}
use ssh2_rs.Errors.{from_errno, ok, err}
use ssh2_rs.Sftp.Raw.{Api}
use ssh2_rs.Sftp.Handles.{
  World, find, remove, forget, release, drop_wrapper, lock, locked, lock_file, locked_file,
}
use ssh2_rs.Sftp.Counted.{IsCounted, file-alive}
use ssh2_rs.Sftp.Abstract.{
  View, view, names_of, has, without, bad_use, Allows, opening, no_opening, closing, no_closing,
  closed_before, dropping, shutting_down, busy, shut_down_before, dropping_sftp, using, gone,
  using_file, file_gone, Behaves, done, goes_on,
}

pub has-found :
    (name h : ℕ) (files : List (ℕ × ℕ))
    → find name files ≡ some h
    → has name (names_of files) ≡ true
has-found name h [] e = cc
has-found name h ((n, k) ∷ files) e = ground (arith, has-found name h files)

pub has-missing :
    (name : ℕ) (files : List (ℕ × ℕ)) → find name files ≡ none → has name (names_of files) ≡ false
has-missing name [] e = refl
has-missing name ((n, k) ∷ files) e = ground (arith, has-missing name files)

pub names-remove :
    (name : ℕ) (files : List (ℕ × ℕ)) → names_of (remove name files) ≡ without name (names_of files)
names-remove name [] = refl
names-remove name ((n, k) ∷ files) = ground (arith, names-remove name files)

pub without-missing :
    (name : ℕ) (names : List ℕ) → has name names ≡ false → without name names ≡ names
without-missing name [] e = refl
without-missing name (n ∷ names) e = ground (arith, without-missing name names)

module _ {S : Type 0} (api : Api S) where
  pub view-release : (w : World S) → view (release api w) ≡ view w
  unfolding release drop_wrapper
  view-release w = ground arith

  pub view-forget :
      (name : ℕ) (w : World S)
      → view (forget api name w) ≡ ssh2_rs.Sftp.Abstract.closed name (view w)
  view-forget name w =
      view-release (record w { files = remove name w.files })
      ∙ ap (λ names. record { held = w.held; names = names }) (names-remove name w.files)

  pub lock-cases :
      (w : World S)
      → IsCounted w
      → ((p : ℕ) × (w.held ≡ true) × (lock api w ≡ (ok p, w)))
        ⊎ ((w.held ≡ false) × (lock api w ≡ (err (from_errno error_bad_use), w)))
  unfolding lock locked
  lock-cases w v = go w.held w.wrapped refl refl
    where
      go :
          (held : Bool) (wrapped : Option ℕ)
          → w.held ≡ held
          → w.wrapped ≡ wrapped
          → ((p : ℕ) × (w.held ≡ true) × (locked api w.held w.wrapped w ≡ (ok p, w)))
            ⊎ ((w.held ≡ false)
                × (locked api w.held w.wrapped w ≡ (err (from_errno error_bad_use), w)))
      go false wrapped h e = inr (h, ap (λ b. locked api b w.wrapped w) h)
      go true none h e = ground arith
      go true (some p) h e = inl (p, h, rw (h, e) refl)

  pub lock_file-cases :
      (name : ℕ) (w : World S)
      → IsCounted w
      → ((h : ℕ) × (find name w.files ≡ some h) × (lock_file api name w ≡ (ok h, w)))
        ⊎ ((find name w.files ≡ none)
            × (lock_file api name w ≡ (err (from_errno error_bad_use), w)))
  unfolding lock_file
  lock_file-cases name w v = elim (Option-cases (find name w.files)) [
    | inl missing ↦ inr (missing, ap (λ f. locked_file api f w.wrapped w) missing)
    | inr (h, e) ↦
        let (p, there) = file-alive name h w v e in
        inl (
          h,
          e,
          ap (λ f. locked_file api f w.wrapped w) e ∙ ap (λ x. locked_file api (some h) x w) there,
        )
  ]
