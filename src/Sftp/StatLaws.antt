-- ===== src/Sftp/StatLaws.antt =====
-- `FileStat` of src/sftp.rs and its raw form, and the tests of `FileType`.
use ssh2_rs.Base.{ℕ, ◌/◌, ◌%◌, ◌^◌, ◌<◌, ◌≡◌, ◌↔◌, true, Option, none, some, arith}
use ssh2_rs.Base.Bits.{bit_and-format}
use ssh2_rs.Sftp.Stat.{FileStat, FileType, from_raw, raw, is_dir, is_file, is_symlink}

-- A u32, if it is there.
abbrev pub IsU32 : Option ℕ → Type 0
IsU32 none = Unit
IsU32 (some x) = x < 2 ^ 32

-- The fields that share one flag come together.
abbrev pub paired : Option ℕ → Option ℕ → Option ℕ
paired none none = none
paired none (some y) = some 0
paired (some x) other = some x

module _ (stat : FileStat) where
  -- What comes back from a `FileStat` with u32 owner, group and permissions: size and permissions
  -- as they were; of owner and group, and of the two times, both if either was there, where the
  -- missing one has become 0.
  pub from_raw-raw :
      IsU32 stat.uid
      → IsU32 stat.gid
      → IsU32 stat.perm
      → from_raw (raw stat) ≡ record stat {
        uid = paired stat.uid stat.gid;
        gid = paired stat.gid stat.uid;
        atime = paired stat.atime stat.mtime;
        mtime = paired stat.mtime stat.atime;
      }
  unfolding from_raw raw
  from_raw-raw u g p = ground arith

-- A file type is a directory, a regular file or a symbolic link exactly if the four bits from bit
-- 12 on are 4, 8 or 10.
pub file_type_exclusive :
    (t : FileType)
    → ((is_dir t ≡ true) ↔ (t.perm / 4096 % 16 ≡ 4))
      × ((is_file t ≡ true) ↔ (t.perm / 4096 % 16 ≡ 8))
      × ((is_symlink t ≡ true) ↔ (t.perm / 4096 % 16 ≡ 10))
unfolding is_dir is_file is_symlink
file_type_exclusive t = ground (arith, bit_and-format t.perm)
