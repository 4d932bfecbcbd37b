-- ===== src/Sftp/ObjectTests.antt =====
-- A program on an SFTP subsystem of src/sftp.rs among the objects of a session.
use ssh2_rs.Base.{◌≡◌, refl, none, some, [], ◌∷◌}
use ssh2_rs.Base.Int.{pos}
use ssh2_rs.Objects.{Heap, session_init, sftp, refs, clones, releases, makes, perform, Steps, start}
use ssh2_rs.Objects.Subsystem.{perform_all}
use ssh2_rs.Objects.SubsystemTrace.{translated, translated-Steps}
use ssh2_rs.Paths.{path2bytes}
use ssh2_rs.Errors.{strict_rc}
use ssh2_rs.Sftp.Handles.{
  from_raw_opt, step, open_mode, lock, opened, close, lock_file, drop_sftp, dropped_sftp, release,
  closed,
}
use ssh2_rs.Sftp.Lifetime.{run}
use ssh2_rs.Sftp.Tests.{quiet, program, fresh}

abbrev one_session : Heap
one_session = record { sessions = 1; strong = 1; blocks = []; calls = session_init ∷ [] }

-- A file is opened, the `Sftp` goes, and then the file.
file_outlives_sftp :
    translated 5 quiet program fresh ≡ clones sftp 5 ∷ releases sftp 5 ∷ releases sftp 5 ∷ []
unfolding step open_mode path2bytes lock opened close lock_file drop_sftp dropped_sftp release
    closed strict_rc
file_outlives_sftp = refl

translated-Steps_example :
    let h =
      perform_all (translated 5 quiet program fresh) (perform (makes sftp (some 5)) one_session) in
    Steps one_session h × (refs sftp 5 h.blocks ≡ (run quiet program fresh).1.strong)
unfolding from_raw_opt
translated-Steps_example =
    translated-Steps quiet 5 none (pos 0) program fresh one_session one_session refl start refl refl
