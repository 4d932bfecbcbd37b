-- ===== src/Sftp/Counted.antt =====
-- The count of references to an SFTP subsystem, and the calls that change it or look the raw
-- pointers up.
use ssh2_rs.Base.{
  ℕ, suc, ◌≡◌, ◌≢◌, refl, Bool, true, false, Option, none, some, List, [], ◌∷◌, length, ltb, arith,
}
use ssh2_rs.Base.Int.{ℤ}
use ssh2_rs.Errors.{Result, ok, panic}
use ssh2_rs.Errors.Session.{rc}
use ssh2_rs.Sftp.Raw.{Api}
use ssh2_rs.Sftp.Handles.{
  World, find, remove, lock, lock_file, release, shutdown, drop_file, drop_sftp, forget, dropped,
  dropped_sftp, locked_file, locked, sess_rc, close_blocking,
}

abbrev pub holders : Bool → List (ℕ × ℕ) → ℕ
holders true files = suc (length files)
holders false files = length files

abbrev pub is_some : Option ℕ → Bool
is_some none = false
is_some (some x) = true

-- The count is the number of holders, and the raw pointer is there as long as someone holds it.
pub record IsCounted {S : Type 0} (w : World S) : Type 0 where
  pub counted : w.strong ≡ holders w.held w.files
  pub alive : is_some w.wrapped ≡ ltb 0 w.strong

pub length-remove :
    (name : ℕ) (files : List (ℕ × ℕ)) (h : ℕ)
    → find name files ≡ some h
    → length files ≡ suc (length (remove name files))
length-remove name [] h e = cc
length-remove name ((n, k) ∷ files) h e = ground (arith, length-remove name files h)

-- The outcome of a call that keeps the count and does not panic.
abbrev pub IsSafe : {S A : Type 0} → Result A × World S → Type 0
IsSafe (r, w) = (r ≢ panic) × IsCounted w

-- An open file keeps the raw pointer there.
pub file-alive :
    {S : Type 0} (name h : ℕ) (w : World S)
    → IsCounted w
    → find name w.files ≡ some h
    → (p : ℕ) × (w.wrapped ≡ some p)
file-alive name h w v e = let shorter = length-remove name w.files h e in ground arith

module _ {S : Type 0} (api : Api S) where
  pub release-IsCounted :
      (w : World S)
      → w.strong ≡ suc (holders w.held w.files)
      → is_some w.wrapped ≡ true
      → IsCounted (release api w)
  unfolding release
  release-IsCounted w c p = ground arith

  pub forget-IsCounted :
      (name h : ℕ) (w : World S)
      → IsCounted w
      → find name w.files ≡ some h
      → IsCounted (forget api name w)
  forget-IsCounted name h w v e =
      let shorter = length-remove name w.files h e in
      release-IsCounted (record w { files = remove name w.files }) (ground arith) (ground arith)

  pub shutdown-IsSafe : (w : World S) → IsCounted w → IsSafe (shutdown api w)
  unfolding shutdown
  shutdown-IsSafe w v = ground arith

  pub drop_sftp-IsSafe : (w : World S) → IsCounted w → IsSafe (drop_sftp api w)
  unfolding drop_sftp dropped_sftp release
  drop_sftp-IsSafe w v = ground arith

  pub dropped-IsSafe :
      (name : ℕ) (f wrapped : Option ℕ) (w : World S)
      → find name w.files ≡ f
      → w.wrapped ≡ wrapped
      → IsCounted w
      → IsSafe (dropped api name f wrapped w)
  unfolding dropped
  dropped-IsSafe name none wrapped w e there v = (λ q. cc, v)
  dropped-IsSafe name (some h) none w e there v = absurd (cc (file-alive name h w v e).1)
  dropped-IsSafe name (some h) (some p) w e there v =
      let w' = record w { lib = close_blocking api h w.lib } in
      (λ q. cc, forget-IsCounted name h w' (record { counted = v.counted; alive = v.alive }) e)

  pub drop_file-IsSafe : (name : ℕ) (w : World S) → IsCounted w → IsSafe (drop_file api name w)
  unfolding drop_file
  drop_file-IsSafe name w v = dropped-IsSafe name (find name w.files) w.wrapped w refl refl v

  pub lock-IsSafe : (w : World S) → IsCounted w → IsSafe (lock api w)
  unfolding lock
  lock-IsSafe w v = ground arith

  pub locked_file-IsSafe :
      (name : ℕ) (f wrapped : Option ℕ) (w : World S)
      → find name w.files ≡ f
      → w.wrapped ≡ wrapped
      → IsCounted w
      → IsSafe (locked_file api f wrapped w)
  unfolding locked_file
  locked_file-IsSafe name none wrapped w e there v = (λ q. cc, v)
  locked_file-IsSafe name (some h) none w e there v = absurd (cc (file-alive name h w v e).1)
  locked_file-IsSafe name (some h) (some p) w e there v = (λ q. cc, v)

  pub lock_file-IsSafe : (name : ℕ) (w : World S) → IsCounted w → IsSafe (lock_file api name w)
  unfolding lock_file
  lock_file-IsSafe name w v = locked_file-IsSafe name (find name w.files) w.wrapped w refl refl v

  -- What a lock gives back it has looked up, and it changes nothing.
  pub lock_file-found :
      (name : ℕ) (w : World S) (h : ℕ)
      → (lock_file api name w).0 ≡ ok h
      → find name w.files ≡ some h
  unfolding lock_file locked_file
  lock_file-found name w h e = ground arith

  pub lock_file-same : (name : ℕ) (w : World S) → (lock_file api name w).1 ≡ w
  unfolding lock_file locked_file
  lock_file-same name w = ground arith

  pub lock-same : (w : World S) → (lock api w).1 ≡ w
  unfolding lock locked
  lock-same w = ground arith

  pub sess_rc-IsSafe : (n : ℤ) (w : World S) → IsCounted w → IsSafe (sess_rc api n w)
  unfolding rc
  sess_rc-IsSafe n w v = ground arith

  pub lock-held : (w : World S) (p : ℕ) → (lock api w).0 ≡ ok p → w.held ≡ true
  unfolding lock locked
  lock-held w p e = ground arith
