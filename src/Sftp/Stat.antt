-- ===== src/Sftp/Stat.antt =====
-- src/sftp.rs, `FileStat` and `FileType`: a file's metadata and its raw form.
-- A c_ulong has 64 bits.
use ssh2_rs.Base.{ℕ, ◌%◌, ◌^◌, bit_and, bit_or, Bool, Option, none, some, ◌==◌, if◌then◌else◌}
use ssh2_rs.Sys.{
  attr_size, attr_uidgid, attr_permissions, attr_acmodtime, s_ifmt, s_ifdir, s_ifreg, s_iflnk,
}

pub record FileStat : Type 0 where
  pub size : Option ℕ
  pub uid : Option ℕ
  pub gid : Option ℕ
  pub perm : Option ℕ
  pub atime : Option ℕ
  pub mtime : Option ℕ

-- LIBSSH2_SFTP_ATTRIBUTES.
pub record Attributes : Type 0 where
  pub flags : ℕ
  pub filesize : ℕ
  pub uid : ℕ
  pub gid : ℕ
  pub permissions : ℕ
  pub atime : ℕ
  pub mtime : ℕ

-- `val`: a field that the flags say is there.
abbrev pub val : ℕ → ℕ → ℕ → Option ℕ
val flags field flag = if bit_and flags flag == 0 then none else some field

-- `.map(|s| s as u32)`.
abbrev pub map_u32 : Option ℕ → Option ℕ
map_u32 none = none
map_u32 (some s) = some (s % 2 ^ 32)

-- `FileStat::from_raw`.
unfoldable pub from_raw : Attributes → FileStat
from_raw raw = record {
  size = val raw.flags raw.filesize attr_size;
  uid = map_u32 (val raw.flags raw.uid attr_uidgid);
  gid = map_u32 (val raw.flags raw.gid attr_uidgid);
  perm = map_u32 (val raw.flags raw.permissions attr_permissions);
  atime = val raw.flags raw.atime attr_acmodtime;
  mtime = val raw.flags raw.mtime attr_acmodtime;
}

-- `flag`.
abbrev pub flag_of : Option ℕ → ℕ → ℕ
flag_of none flag = 0
flag_of (some x) flag = flag

-- `unwrap_or(0)`.
abbrev pub or_zero : Option ℕ → ℕ
or_zero none = 0
or_zero (some x) = x

abbrev pub or_flags : ℕ → ℕ → ℕ → ℕ → ℕ → ℕ → ℕ
or_flags a b c d e f = bit_or (bit_or (bit_or (bit_or (bit_or a b) c) d) e) f

-- `FileStat::raw`.
unfoldable pub raw : FileStat → Attributes
raw stat = record {
  flags =
      or_flags (flag_of stat.size attr_size) (flag_of stat.uid attr_uidgid)
        (flag_of stat.gid attr_uidgid) (flag_of stat.perm attr_permissions)
        (flag_of stat.atime attr_acmodtime) (flag_of stat.mtime attr_acmodtime);
  filesize = or_zero stat.size;
  uid = or_zero stat.uid;
  gid = or_zero stat.gid;
  permissions = or_zero stat.perm;
  atime = or_zero stat.atime;
  mtime = or_zero stat.mtime;
}

pub record FileType : Type 0 where
  pub perm : ℕ

-- `FileStat::file_type`.
unfoldable pub file_type : FileStat → FileType
file_type stat = record { perm = or_zero stat.perm }

-- `FileType::is`.
unfoldable pub is : FileType → ℕ → Bool
is t perm = bit_and t.perm s_ifmt == perm

unfoldable pub is_dir : FileType → Bool
unfolding is
is_dir t = is t s_ifdir

unfoldable pub is_file : FileType → Bool
unfolding is
is_file t = is t s_ifreg

unfoldable pub is_symlink : FileType → Bool
unfolding is
is_symlink t = is t s_iflnk

-- `FileStat::is_dir` and `FileStat::is_file`.
unfoldable pub stat_is_dir : FileStat → Bool
unfolding is_dir file_type
stat_is_dir stat = is_dir (file_type stat)

unfoldable pub stat_is_file : FileStat → Bool
unfolding is_file file_type
stat_is_file stat = is_file (file_type stat)
