-- ===== src/Sftp/OpenHandles.antt =====
-- The handles of the files of src/sftp.rs, and the calls of libssh2 that open, use and close them.
use ssh2_rs.Base.{ℕ, ◌≡◌, ◌≢◌, none, some, List, [], ◌∷◌, ◌++◌}
use ssh2_rs.Base.Int.{ℤ, pos}
use ssh2_rs.Base.Text.{Bytes}
use ssh2_rs.Sftp.Raw.{Api}
use ssh2_rs.Sftp.Handles.{World, Op, uses, uses_file, remove, shutdown}

abbrev pub handles : List (ℕ × ℕ) → List ℕ
handles [] = []
handles ((name, h) ∷ files) = h ∷ handles files

-- What holds of libssh2's state while these handles are open: opening gives one more, and only an open
-- handle may be closed; with the code 0 it then is no more, and with any other it may be let go or
-- not. The calls on the session and on the subsystem leave the handles alone.
pub record Tracks {S : Type 0} (api : Api S) (Open : List ℕ → S → Type 0) : Type 0 where
  pub opening :
      (p : ℕ) (path : Bytes) (flags : ℕ) (mode kind : ℤ) (hs : List ℕ) (s : S) (h : ℕ)
      → Open hs s
      → (api.open_ex p path flags mode kind s).0 ≡ some h
      → Open (h ∷ hs) (api.open_ex p path flags mode kind s).1
  pub no_opening :
      (p : ℕ) (path : Bytes) (flags : ℕ) (mode kind : ℤ) (hs : List ℕ) (s : S)
      → Open hs s
      → (api.open_ex p path flags mode kind s).0 ≡ none
      → Open hs (api.open_ex p path flags mode kind s).1
  pub closing :
      (before after : List ℕ) (h : ℕ) (s : S)
      → Open (before ++ (h ∷ after)) s
      → Open (before ++ after) (api.close_handle h s).1
  pub no_closing :
      (before after : List ℕ) (h : ℕ) (s : S)
      → Open (before ++ (h ∷ after)) s
      → (api.close_handle h s).0 ≢ pos 0
      → Open (before ++ (h ∷ after)) (api.close_handle h s).1
  pub shutdown : (p : ℕ) (hs : List ℕ) (s : S) → Open hs s → Open hs (api.shutdown p s).1
  pub set_blocking :
      (b : ℤ) (hs : List ℕ) (s : S) → Open hs s → Open hs (api.session.set_blocking b s)

-- The calls that a program makes besides: on the subsystem, and on a handle that is open.
abbrev pub Leaves : {S : Type 0} → (List ℕ → S → Type 0) → Op S → Type 0
Leaves {S} Open (uses f) = (p : ℕ) (hs : List ℕ) (s : S) → Open hs s → Open hs (f p s).1
Leaves {S} Open (uses_file name f) =
    (before after : List ℕ) (h : ℕ) (s : S)
    → Open (before ++ (h ∷ after)) s
    → Open (before ++ (h ∷ after)) (f h s).1
Leaves Open _ = Unit

-- Where the handle of a file stands among all of them.
abbrev Stands : ℕ → ℕ → List (ℕ × ℕ) → Type 0
Stands name h files =
    (before : List ℕ) × (after : List ℕ) × (handles files ≡ before ++ (h ∷ after))
    × (handles (remove name files) ≡ before ++ after)

module _ {S : Type 0} (api : Api S) (Open : List ℕ → S → Type 0) (tracks : Tracks api Open) where
  abbrev Fine : World S → Type 0
  Fine w = Open (handles w.files) w.lib
