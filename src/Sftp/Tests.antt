-- ===== src/Sftp/Tests.antt =====
-- A libssh2 whose whole state is the blocking flag of the session, and what the SFTP code does
-- with it.
use ssh2_rs.Base.{
  ◌⊎◌, ◌≢◌, ◌^◌, ◌-◌, ◌≡◌, refl, true, false, none, some, List, [], ◌∷◌, length, ltb, if◌then◌else◌,
  arith,
}
use ssh2_rs.Base.Int.{negsuc, ◌+ℤ◌, ℤ, pos}
use ssh2_rs.Base.Text.{Bytes}
use ssh2_rs.Sys.{error_eagain, error_buffer_too_small, error_bad_use}
use ssh2_rs.Errors.{Error, ok, err, from_errno}
use ssh2_rs.Errors.Session.{Session}
use ssh2_rs.Sftp.Stat.{Attributes, FileStat, from_raw, raw}
use ssh2_rs.Sftp.StatLaws.{from_raw-raw}
use ssh2_rs.Sftp.Raw.{Api}
use ssh2_rs.Sftp.Handles.{
  close, forget, lock_file, World, Op, opens, closes, shuts_down, drops_sftp, step, shutdown,
  from_raw_opt,
}
use ssh2_rs.Sftp.Counted.{IsCounted, holders, is_some}
use ssh2_rs.Sftp.Lifetime.{run, run-fresh, AllReturn}
use ssh2_rs.Sftp.Abstract.{view, Behaves}
use ssh2_rs.Sftp.Refinement.{run-Behaves}
use ssh2_rs.Sftp.Shutdown.{shutdown_failed, gone_for_good}
use ssh2_rs.Sftp.Closing.{close_outcome}
use ssh2_rs.Sftp.Blocking.{KeepsBlocking, blocks}
use ssh2_rs.Sftp.Mode.{LeavesBlocking, run-mode}
use ssh2_rs.Sftp.AttributeLaws.{raw-from_raw}
use ssh2_rs.Paths.Arguments.{unless_refused}
use ssh2_rs.Sftp.PathLaws.{request, renames, paths, of_subsystem, request_outcome}
use ssh2_rs.Sftp.Seek.{current, at, seek}
use ssh2_rs.Sftp.SeekLaws.{seek-current_sum}
use ssh2_rs.Sftp.Buffers.{readlink_op, readdir}
use ssh2_rs.Sftp.BufferLaws.{LinksTo, readlink_op-target, readdir-stuck}

abbrev blocking_session : Session ℤ
blocking_session = record {
  last_error = λ s. (pos 0, none);
  get_blocking = λ s. s;
  set_blocking = λ b s. b;
}

abbrev pub target : Bytes
target = 47 ∷ 116 ∷ []

abbrev pub no_attributes : Attributes
no_attributes = record {
  flags = 0;
  filesize = 0;
  uid = 0;
  gid = 0;
  permissions = 0;
  atime = 0;
  mtime = 0;
}

-- Opening succeeds, a shutdown would block, every name in a directory is too long, and every link
-- leads to `target`.
abbrev pub quiet : Api ℤ
quiet = record {
  session = blocking_session;
  open_ex = λ sftp filename flags mode open_type s. (some 7, s);
  close_handle = λ h s. (pos 0, s);
  shutdown = λ p s. (error_eagain, s);
  mkdir_ex = λ p path mode s. (pos 0, s);
  rmdir_ex = λ p path s. (pos 0, s);
  unlink_ex = λ p path s. (pos 0, s);
  rename_ex = λ p src dst flags s. (pos 0, s);
  stat_ex = λ p path kind attrs s. ((pos 0, attrs), s);
  symlink = λ p path link s. (pos 0, s);
  symlink_ex = λ p path cap op s.
      if ltb (length target) cap
      then ((pos (length target), target), s)
      else ((error_buffer_too_small, []), s);
  fstat_ex = λ h attrs set s. ((pos 0, attrs), s);
  readdir_ex = λ h cap s. ((error_buffer_too_small, [], no_attributes), s);
  fstatvfs = λ h s. ((pos 0, []), s);
  fsync = λ h s. (pos 0, s);
  read = λ h len s. ((pos 0, []), s);
  write = λ h buf s. (pos (length buf), s);
  tell64 = λ h s. (0, s);
  seek64 = λ h n s. s;
}

abbrev pub fresh : World ℤ
fresh = record { held = true; strong = 1; wrapped = some 5; files = []; lib = pos 0 }

abbrev with_file : World ℤ
with_file = record { held = true; strong = 2; wrapped = some 5; files = (1, 7) ∷ []; lib = pos 0 }

abbrev gone : World ℤ
gone = record { held = false; strong = 0; wrapped = none; files = []; lib = pos 0 }

abbrev pub program : List (Op ℤ)
program = opens 1 target 1 (pos 0) (pos 0) ∷ drops_sftp ∷ closes 1 ∷ shuts_down ∷ []

run-fresh_example :
    let (rs, w) = run quiet program fresh in
    AllReturn rs × (w.strong ≡ holders w.held w.files) × (is_some w.wrapped ≡ ltb 0 w.strong)
unfolding from_raw_opt
run-fresh_example = run-fresh quiet 5 none (pos 0) program fresh refl

run-Behaves_example :
    let (rs, w) = run quiet program fresh in
    Behaves (view w) program (record { held = true; names = [] }) rs
unfolding from_raw_opt
run-Behaves_example = run-Behaves quiet 5 none (pos 0) program fresh refl

with_file-IsCounted : IsCounted with_file
with_file-IsCounted = record { counted = refl; alive = refl }

gone-IsCounted : IsCounted gone
gone-IsCounted = record { counted = refl; alive = refl }

shutdown_failed_example :
    let (r, w) = shutdown quiet fresh in
    ((e : Error) × (r ≡ err e) × (e.code ≡ error_eagain))
    × (w.wrapped ≡ none)
    × (shutdown quiet w ≡ (err (from_errno error_bad_use), w))
shutdown_failed_example = shutdown_failed quiet fresh 5 36 refl refl refl refl

gone_for_good_example :
    (gone.held ≡ false) × (gone.files ≡ []) × ((op : Op ℤ) → (step quiet op gone).1 ≡ gone)
gone_for_good_example = gone_for_good quiet gone gone-IsCounted refl

quiet-KeepsBlocking : KeepsBlocking quiet
quiet-KeepsBlocking = record { get_set = λ b s. refl }

quiet-LeavesBlocking : LeavesBlocking quiet
quiet-LeavesBlocking = record {
  flag = quiet-KeepsBlocking;
  open_ex = λ p path flags mode kind s. refl;
  close_handle = λ h s. refl;
  shutdown = λ p s. refl;
}

run-mode_example : blocks quiet (run quiet program fresh).1.lib ≡ blocks quiet (pos 0)
run-mode_example = run-mode quiet quiet-LeavesBlocking program fresh (tt, (tt, (tt, (tt, tt))))

quiet-LinksTo : LinksTo quiet 5 [] (pos 1) target
quiet-LinksTo cap s = ground arith

readlink_op-target_example : readlink_op quiet 1 5 [] (pos 1) (pos 0) ≡ some (ok target, pos 0)
readlink_op-target_example = readlink_op-target quiet 5 [] (pos 1) target quiet-LinksTo 0 (pos 0)

readdir-stuck_example : readdir quiet 1000 7 (pos 0) ≡ none
readdir-stuck_example = readdir-stuck quiet 7 (λ s. refl) 1000 (pos 0)

-- Five bytes before the start.
seek-current_sum_example :
    seek quiet 1 (current (negsuc 4)) with_file ≡ (at (2 ^ 64 - 5), with_file)
unfolding ◌+ℤ◌
seek-current_sum_example =
    seek-current_sum quiet 1 7 5 0 (pos 0) (negsuc 4) with_file refl refl refl (omega arith) refl

close_outcome_example :
    ((pos 0 ≡ pos 0) × (close quiet 1 with_file ≡ (ok tt, forget quiet 1 with_file)))
    ⊎ ((pos 0 ≢ pos 0)
        × (close quiet 1 with_file ≡ (err (from_errno (pos 0)), with_file))
        × (lock_file quiet 1 with_file ≡ (ok 7, with_file)))
close_outcome_example = close_outcome quiet 1 7 5 (pos 0) (pos 0) with_file refl refl refl

request_outcome_example :
    request quiet (renames target (0 ∷ []) none) with_file
    ≡ unless_refused
        (paths (renames target (0 ∷ []) none))
        err
        (of_subsystem quiet (renames target (0 ∷ []) none))
        with_file
request_outcome_example =
    request_outcome quiet (renames target (0 ∷ []) none) with_file (omega arith, (omega arith, tt))

-- Size and permissions are reported; the extended flag and the times are not handed back.
abbrev reported : Attributes
reported = record {
  flags = 0x80000005;
  filesize = 7;
  uid = 0;
  gid = 0;
  permissions = 33188;
  atime = 3;
  mtime = 4;
}

raw-from_raw_example : raw (from_raw reported) ≡ record reported { flags = 5; atime = 0; mtime = 0 }
raw-from_raw_example = raw-from_raw reported (omega arith) (omega arith) (omega arith)

-- Only an owner is given, and no group.
abbrev owned_by : FileStat
owned_by = record {
  size = some 10;
  uid = some 1000;
  gid = none;
  perm = some 420;
  atime = none;
  mtime = none;
}

from_raw-raw_example : from_raw (raw owned_by) ≡ record owned_by { gid = some 0 }
from_raw-raw_example = from_raw-raw owned_by (omega arith) tt (omega arith)
