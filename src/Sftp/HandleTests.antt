-- ===== src/Sftp/HandleTests.antt =====
-- A libssh2 whose state is how many handles of files are open.
use ssh2_rs.Base.{ℕ, true, suc, ◌-◌, ◌≡◌, none, some, List, [], ◌∷◌, length}
use ssh2_rs.Base.Int.{pos}
use ssh2_rs.Sftp.Raw.{Api}
use ssh2_rs.Sftp.Handles.{World, Op, opens, closes, uses_file, drops_sftp}

abbrev counting : Api ℕ
counting = record {
  session = record {
    last_error = λ s. (pos 0, none);
    get_blocking = λ s. pos 0;
    set_blocking = λ b s. s;
  };
  open_ex = λ sftp filename flags mode open_type s. (some 7, suc s);
  close_handle = λ h s. (pos 0, s - 1);
  shutdown = λ p s. (pos 0, s);
  mkdir_ex = λ p path mode s. (pos 0, s);
  rmdir_ex = λ p path s. (pos 0, s);
  unlink_ex = λ p path s. (pos 0, s);
  rename_ex = λ p src dst flags s. (pos 0, s);
  stat_ex = λ p path kind attrs s. ((pos 0, attrs), s);
  symlink = λ p path link s. (pos 0, s);
  symlink_ex = λ p path cap op s. ((pos 0, []), s);
  fstat_ex = λ h attrs set s. ((pos 0, attrs), s);
  readdir_ex = λ h cap s. (
    (
      pos 0,
      [],
      record { flags = 0; filesize = 0; uid = 0; gid = 0; permissions = 0; atime = 0; mtime = 0 },
    ),
    s,
  );
  fstatvfs = λ h s. ((pos 0, []), s);
  fsync = λ h s. (pos 0, s);
  read = λ h len s. ((pos 0, []), s);
  write = λ h buf s. (pos (length buf), s);
  tell64 = λ h s. (0, s);
  seek64 = λ h n s. s;
}

abbrev Counts : List ℕ → ℕ → Type 0
Counts hs s = length hs ≡ s

abbrev program : List (Op ℕ)
program =
    opens 1 [] 1 (pos 0) (pos 0)
    ∷ opens 2 [] 1 (pos 0) (pos 0)
    ∷ closes 1
    ∷ closes 1
    ∷ uses_file 2 (λ h s. (pos 0, s))
    ∷ drops_sftp
    ∷ []

abbrev fresh : World ℕ
fresh = record { held = true; strong = 1; wrapped = some 5; files = []; lib = 0 }
