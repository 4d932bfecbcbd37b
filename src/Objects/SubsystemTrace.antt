-- ===== src/Objects/SubsystemTrace.antt =====
-- The calls of a program on one SFTP subsystem of src/sftp.rs, one after the other, as changes of the
-- counted references of the whole crate.
use ssh2_rs.Base.{
  ℕ, ◌≡◌, refl, ◌∙◌, Bool, true, false, Option, some, List, [], ◌∷◌, ◌++◌, any, ap, ltb, arith,
  length, suc,
}
use ssh2_rs.Errors.{Error, Result, ok}
use ssh2_rs.Objects.{sftp, Heap, is_at, refs, Op, perform, Steps, then_, from_raw_opt, makes}
use ssh2_rs.Objects.Subsystem.{calls_of, perform_all, CanAll, holders_of, Stands}
use ssh2_rs.Objects.SubsystemLaws.{
  Agrees, closing-Agrees, dropping-Agrees, opening-Agrees, busy-Agrees, late-Agrees, last-Agrees,
  leaving-Agrees, using-Agrees, using_file-Agrees,
}
use ssh2_rs.Sftp.Raw.{Api}
use ssh2_rs.Sftp.Handles as Handles
use ssh2_rs.Sftp.Handles.{World}
use ssh2_rs.Sftp.Lifetime.{run, run-IsSafe, step-IsSafe}
use ssh2_rs.Sftp.Counted.{IsCounted}
use ssh2_rs.Sftp.Refinement.{step-Fits}
use ssh2_rs.Sftp.Abstract.{
  View, view, names_of, Allows, opening, bad_path, no_opening, opening_late, closing, no_closing,
  closed_before, dropping, shutting_down, busy, shut_down_before, dropping_sftp, using, gone,
  using_file, file_gone,
}

step-Agrees :
    {S : Type 0} (raw : ℕ) (h : Heap) (v : View) (r : Result (Unit {0})) (v' : View)
    (op : Handles.Op S)
    → Allows v r v' op
    → Stands raw v h
    → Agrees raw v' (calls_of raw v op r) h
step-Agrees raw h v r v' (Handles.opens name path flags mode kind) (opening held er ev) s =
    rw (er, ev) (opening-Agrees raw h v.held v.names name held s)
step-Agrees raw h v r v' (Handles.opens name path flags mode kind) (bad_path e wrong er ev) s =
    rw (er, ev) (tt, s)
step-Agrees raw h v r v' (Handles.opens name path flags mode kind) (no_opening e held er ev) s =
    rw (er, ev) (tt, s)
step-Agrees raw h v r v' (Handles.opens name path flags mode kind) (opening_late late er ev) s =
    rw (er, ev) (tt, s)
step-Agrees raw h v r v' (Handles.closes name) (closing there er ev) s =
    rw (er, ev) (closing-Agrees raw h v name there s)
step-Agrees raw h v r v' (Handles.closes name) (no_closing e there er ev) s = rw (er, ev) (tt, s)
step-Agrees raw h v r v' (Handles.closes name) (closed_before late er ev) s = rw (er, ev) (tt, s)
step-Agrees raw h v r v' (Handles.drops name) (dropping er ev) s =
    rw ev (dropping-Agrees raw h v name s)
step-Agrees raw h v r v' Handles.shuts_down (shutting_down held alone alive ev) s =
    rw ev (last-Agrees raw h v.held v.names held alone s)
step-Agrees raw h v r v' Handles.shuts_down (busy {name} {names} still er ev) s =
    rw ev (busy-Agrees raw h v.held v.names name names still s)
step-Agrees raw h v r v' Handles.shuts_down (shut_down_before late er ev) s =
    rw ev (late-Agrees raw h v.held v.names late s)
step-Agrees raw h v r v' Handles.drops_sftp (dropping_sftp er ev) s =
    rw ev (leaving-Agrees raw h v.held v.names s)
step-Agrees raw h v r v' (Handles.uses f) (using held alive ev) s =
    rw ev (using-Agrees raw h v.held v.names s)
step-Agrees raw h v r v' (Handles.uses f) (gone late er ev) s =
    rw ev (using-Agrees raw h v.held v.names s)
step-Agrees raw h v r v' (Handles.uses_file name f) (using_file there alive ev) s =
    rw ev (using_file-Agrees raw h v name s)
step-Agrees raw h v r v' (Handles.uses_file name f) (file_gone late er ev) s =
    rw ev (using_file-Agrees raw h v name s)

-- The changes of a whole sequence of calls, each with its outcome and what is there before it.
abbrev pub translated : {S : Type 0} → ℕ → Api S → List (Handles.Op S) → World S → List Op
translated raw api [] w = []
translated raw api (op ∷ ops) w =
    let (r, w') = Handles.step api op w in calls_of raw (view w) op r ++ translated raw api ops w'

perform_all-++ :
    (ops ops' : List Op) (h : Heap)
    → perform_all (ops ++ ops') h ≡ perform_all ops' (perform_all ops h)
perform_all-++ [] ops' h = refl
perform_all-++ (op ∷ ops) ops' h = perform_all-++ ops ops' (perform op h)

CanAll-++ :
    (ops ops' : List Op) (h : Heap)
    → CanAll ops h
    → CanAll ops' (perform_all ops h)
    → CanAll (ops ++ ops') h
CanAll-++ [] ops' h can_first can_rest = can_rest
CanAll-++ (op ∷ ops) ops' h (can_op, can_first) can_rest =
    (can_op, CanAll-++ ops ops' (perform op h) can_first can_rest)

translated-Agrees :
    {S : Type 0} (raw : ℕ) (api : Api S) (ops : List (Handles.Op S)) (w : World S) (h : Heap)
    → IsCounted w
    → Stands raw (view w) h
    → Agrees raw (view (run api ops w).1) (translated raw api ops w) h
unfolding run
translated-Agrees raw api [] w h v s = (tt, s)
translated-Agrees raw api (op ∷ ops) w h v s =
    let (r, w') = Handles.step api op w in
    let first = calls_of raw (view w) op r in
    let rest = translated raw api ops w' in
    let (can_first, s') = step-Agrees raw h (view w) r (view w') op (step-Fits api op w v) s in
    let (can_rest, s'') =
      translated-Agrees raw api ops w' (perform_all first h) (step-IsSafe api op w v).1 s' in
    (CanAll-++ first rest h can_first can_rest, rw (perform_all-++ first rest h) s'')

Steps-all : (ops : List Op) (h₀ h : Heap) → Steps h₀ h → CanAll ops h → Steps h₀ (perform_all ops h)
Steps-all [] h₀ h steps can_all = steps
Steps-all (op ∷ ops) h₀ h steps (can_op, can_all) =
    Steps-all ops h₀ (perform op h) (then_ op steps can_op) can_all

length-names_of : (files : List (ℕ × ℕ)) → length (names_of files) ≡ length files
length-names_of [] = refl
length-names_of (f ∷ files) = ap suc (length-names_of files)

holders_of-view :
    {S : Type 0} (held : Bool) (w : World S)
    → w.held ≡ held
    → IsCounted w
    → holders_of (view w) ≡ w.strong
holders_of-view true w e v = let same_length = length-names_of w.files in rw e (ground arith)
holders_of-view false w e v = let same_length = length-names_of w.files in rw e (ground arith)

made-Stands :
    (raw : ℕ) (v : View) (h : Heap)
    → holders_of v ≡ 1
    → any (is_at sftp raw) h.blocks ≡ false
    → Stands raw v (perform (makes sftp (some raw)) h)
unfolding perform from_raw_opt
made-Stands raw v h one fresh = record { counted = ground arith; single = ground arith }

made-view :
    {S : Type 0} (raw : ℕ) (e : Option Error) (s : S) (w : World S)
    → Handles.from_raw_opt (some raw) e s ≡ ok w
    → IsCounted w × (holders_of (view w) ≡ 1)
unfolding Handles.from_raw_opt
made-view raw e s w made = (ground arith, ground arith)

-- Whatever a program does with an SFTP subsystem that it makes in a heap with a `Session` in it, and
-- with the files of that subsystem, however libssh2 answers: if no other subsystem has the same
-- pointer, the changes of the counted references that its calls make, by their outcomes, are ones
-- that a program can make, each on a value that is there; and after them the heap has as many
-- references to the subsystem as the subsystem's own state counts.
pub translated-Steps :
    {S : Type 0} (api : Api S) (raw : ℕ) (e : Option Error) (s : S) (ops : List (Handles.Op S))
    (w : World S) (h₀ h : Heap)
    → Handles.from_raw_opt (some raw) e s ≡ ok w
    → Steps h₀ h
    → ltb 0 h.sessions ≡ true
    → any (is_at sftp raw) h.blocks ≡ false
    → let h' = perform_all (translated raw api ops w) (perform (makes sftp (some raw)) h) in
      Steps h₀ h' × (refs sftp raw h'.blocks ≡ (run api ops w).1.strong)
translated-Steps api raw e s ops w h₀ h made steps alive fresh =
    let (v, one) = made-view raw e s w made in
    let w' = (run api ops w).1 in
    let h₁ = perform (makes sftp (some raw)) h in
    let (can_all, s') =
      translated-Agrees raw api ops w h₁ v (made-Stands raw (view w) h one fresh) in
    (
      Steps-all (translated raw api ops w) h₀ h₁ (then_ (makes sftp (some raw)) steps alive)
          can_all,
      s'.counted ∙ holders_of-view w'.held w' refl (run-IsSafe api ops w v).1,
    )
