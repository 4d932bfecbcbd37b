-- ===== src/Sftp/Lifetime.antt =====
-- Sequences of calls on an SFTP subsystem and its files, src/sftp.rs.
use ssh2_rs.Base.{
  ℕ, ◌≡◌, ◌≢◌, refl, ap, ◌∙◌, inl, inr, true, ltb, Option, none, some, List, [], ◌∷◌, All, arith,
  Option-cases,
}
use ssh2_rs.Base.Int.{ℤ}
use ssh2_rs.Base.Text.{Bytes}
use ssh2_rs.Errors.{Error, Result, ok, err, panic, Call, strict_rc, ◌>>=◌, lift}
use ssh2_rs.Errors.Session.{last_error_raw}
use ssh2_rs.Paths.{path2bytes}
use ssh2_rs.Errors.Bind.{bind_rule}
use ssh2_rs.Sftp.Raw.{Api}
use ssh2_rs.Sftp.Handles.{
  World, find, open_locked, close_locked, lock, lock_file, open_mode, close, closed, opened,
  checked, Op, opens, closes, drops, shuts_down, drops_sftp, uses, uses_file, step, use_sftp,
  use_file, from_raw_opt,
}
use ssh2_rs.Sftp.Counted.{
  IsCounted, IsSafe, holders, is_some, forget-IsCounted, shutdown-IsSafe, drop_sftp-IsSafe,
  drop_file-IsSafe, lock-IsSafe, lock_file-IsSafe, lock_file-found, lock_file-same, lock-same,
  lock-held, sess_rc-IsSafe,
}

-- A chain of calls is safe if each of them is.
module _ {S A B : Type 0} (m : Call (World S) A) (f : A → Call (World S) B) (w : World S) where
  IsSafe-bind :
      IsSafe (m w)
      → ((a : A) → (m w).0 ≡ ok a → IsCounted (m w).1 → IsSafe (f a (m w).1))
      → IsSafe ((m >>= f) w)
  IsSafe-bind (alive, v) next =
      bind_rule IsSafe m f w (λ a e. next a e v) (λ x e. (λ q. cc, v)) (λ e. absurd (alive e))

module _ {S : Type 0} (api : Api S) where
  pub checked-IsSafe : (f : S → ℤ × S) (w : World S) → IsCounted w → IsSafe (checked api f w)
  checked-IsSafe f w v =
      let (n, s) = f w.lib in
      sess_rc-IsSafe api n (record w { lib = s }) (record { counted = v.counted; alive = v.alive })

  use_sftp-IsSafe : (f : ℕ → S → ℤ × S) (w : World S) → IsCounted w → IsSafe (use_sftp api f w)
  unfolding use_sftp
  use_sftp-IsSafe f w v =
      IsSafe-bind (lock api) (λ p. checked api (f p)) w (lock-IsSafe api w v)
        λ p _ v'. checked-IsSafe (f p) (lock api w).1 v'

  use_file-IsSafe :
      (name : ℕ) (f : ℕ → S → ℤ × S) (w : World S) → IsCounted w → IsSafe (use_file api name f w)
  unfolding use_file
  use_file-IsSafe name f w v =
      IsSafe-bind (lock_file api name) (λ h. checked api (f h)) w (lock_file-IsSafe api name w v)
        λ h _ v'. checked-IsSafe (f h) (lock_file api name w).1 v'

  opened-IsSafe :
      (name : ℕ) (ret : Option ℕ) (w : World S)
      → w.held ≡ true
      → IsCounted w
      → IsSafe (opened api name ret w)
  unfolding opened
  opened-IsSafe name none w e v = elim (Option-cases (last_error_raw api.session w.lib)) [
    | inl quiet ↦ rw (quiet, opened) (λ q. cc, v)
    | inr (x, said) ↦ rw (said, opened) (λ q. cc, v)
  ]
  opened-IsSafe name (some h) w e v = ground arith

  pub path2bytes-IsSafe :
      (path : Bytes) (w : World S) → IsCounted w → IsSafe (lift (path2bytes path) w)
  unfolding path2bytes
  path2bytes-IsSafe path w v = ground arith

  open_mode-IsSafe :
      (name : ℕ) (path : Bytes) (flags : ℕ) (mode open_type : ℤ) (w : World S)
      → IsCounted w
      → IsSafe (open_mode api name path flags mode open_type w)
  unfolding open_mode
  open_mode-IsSafe name path flags mode open_type w v =
      IsSafe-bind (lift (path2bytes path))
        (λ filename. lock api >>= open_locked api name filename flags mode open_type) w
        (path2bytes-IsSafe path w v)
        λ filename _ v'.
          IsSafe-bind (lock api) (open_locked api name filename flags mode open_type) w
            (lock-IsSafe api w v')
            λ p e v''.
              opened-IsSafe name _ _ (held p e)
                (record { counted = v''.counted; alive = v''.alive })
    where
      held : (p : ℕ) → (lock api w).0 ≡ ok p → (lock api w).1.held ≡ true
      held p e = ap (λ x. x.held) (lock-same api w) ∙ lock-held api w p e

  pub strict_rc-ne-panic : (n : ℤ) → strict_rc n ≢ panic
  unfolding strict_rc
  strict_rc-ne-panic n = ground arith

  closed-IsSafe :
      (name h : ℕ) (r : Result (Unit {0})) (w : World S)
      → r ≢ panic
      → find name w.files ≡ some h
      → IsCounted w
      → IsSafe (closed api name r w)
  unfolding closed
  closed-IsSafe name h (ok u) w alive e v = (λ q. cc, forget-IsCounted api name h w v e)
  closed-IsSafe name h (err x) w alive e v = (λ q. cc, v)
  closed-IsSafe name h panic w alive e v = absurd (alive refl)

  close-IsSafe : (name : ℕ) (w : World S) → IsCounted w → IsSafe (close api name w)
  unfolding close
  close-IsSafe name w v =
      IsSafe-bind (lock_file api name) (close_locked api name) w (lock_file-IsSafe api name w v)
        λ h e v'.
          closed-IsSafe name h (strict_rc _) _ (strict_rc-ne-panic _) (open_still h e)
            (record { counted = v'.counted; alive = v'.alive })
    where
      open_still :
          (h : ℕ)
          → (lock_file api name w).0 ≡ ok h
          → find name (lock_file api name w).1.files ≡ some h
      open_still h e =
          ap (λ x. find name x.files) (lock_file-same api name w) ∙ lock_file-found api name w h e

  pub step-IsSafe : (op : Op S) (w : World S) → IsCounted w → IsSafe (step api op w)
  unfolding step
  step-IsSafe (opens name path flags mode open_type) w v =
      open_mode-IsSafe name path flags mode open_type w v
  step-IsSafe (closes name) w v = close-IsSafe name w v
  step-IsSafe (drops name) w v = drop_file-IsSafe api name w v
  step-IsSafe shuts_down w v = shutdown-IsSafe api w v
  step-IsSafe drops_sftp w v = drop_sftp-IsSafe api w v
  step-IsSafe (uses f) w v = use_sftp-IsSafe f w v
  step-IsSafe (uses_file name f) w v = use_file-IsSafe name f w v

-- Whether every call of a list came back.
abbrev pub AllReturn : List (Result (Unit {0})) → Type 0
AllReturn = All (λ r. r ≢ panic)

unfoldable pub run :
    {S : Type 0} → Api S → List (Op S) → World S → List (Result (Unit {0})) × World S
run api [] w = ([], w)
run api (op ∷ ops) w =
    let (r, w') = step api op w in let (rs, w'') = run api ops w' in (r ∷ rs, w'')

pub run-IsSafe :
    {S : Type 0} (api : Api S) (ops : List (Op S)) (w : World S)
    → IsCounted w
    → let (rs, w') = run api ops w in AllReturn rs × IsCounted w'
unfolding run
run-IsSafe api [] w v = (tt, v)
run-IsSafe api (op ∷ ops) w v =
    let (r, w') = step api op w in
    let (alive, v') = step-IsSafe api op w v in
    let (rest, v'') = run-IsSafe api ops w' v' in ((alive, rest), v'')

-- Whatever a program does with a fresh subsystem and its files, in whatever order and however
-- libssh2 answers, no call panics, so none of the `expect`s fails; at the end the references are as
-- many as the `Sftp`, if it is still there, and the open files, and the raw pointer is there exactly
-- if there is a reference.
pub run-fresh :
    {S : Type 0} (api : Api S) (p : ℕ) (e : Option Error) (s : S) (ops : List (Op S)) (w : World S)
    → from_raw_opt (some p) e s ≡ ok w
    → let (rs, w') = run api ops w in
      AllReturn rs × (w'.strong ≡ holders w'.held w'.files) × (is_some w'.wrapped ≡ ltb 0 w'.strong)
unfolding from_raw_opt
run-fresh api p e s ops w h =
    let (alive, v) = run-IsSafe api ops w (ground arith) in (alive, v.counted, v.alive)
