-- ===== src/Sftp/AttributeLaws.antt =====
-- What libssh2 reports of a file, read and handed back: `from_raw` and `raw` of src/sftp.rs.
use ssh2_rs.Base.{ℕ, ◌/◌, ◌%◌, ◌^◌, ◌<◌, ◌≡◌, ◌==◌, arith, if◌then◌else◌}
use ssh2_rs.Base.Bits.{bit_and-1, bit_and-2, bit_and-4, bit_and-8}
use ssh2_rs.Sftp.Stat.{Attributes, from_raw, raw}

-- A field that its flag makes count.
abbrev pub counted : ℕ → ℕ → ℕ
counted bit field = if bit == 0 then 0 else field

-- What libssh2 reports of a file, with 32-bit owner, group and permissions, is handed back as it was
-- by `raw` of what `from_raw` makes of it: of the flags the four that the crate knows, and every
-- field whose flag is set; a field whose flag is not set comes back as 0.
pub raw-from_raw :
    (a : Attributes)
    → a.uid < 2 ^ 32
    → a.gid < 2 ^ 32
    → a.permissions < 2 ^ 32
    → raw (from_raw a) ≡ record {
      flags = a.flags % 16;
      filesize = counted (a.flags % 2) a.filesize;
      uid = counted (a.flags / 2 % 2) a.uid;
      gid = counted (a.flags / 2 % 2) a.gid;
      permissions = counted (a.flags / 4 % 2) a.permissions;
      atime = counted (a.flags / 8 % 2) a.atime;
      mtime = counted (a.flags / 8 % 2) a.mtime;
    }
unfolding raw from_raw
raw-from_raw a u g p =
    rw (bit_and-1 a.flags, bit_and-2 a.flags, bit_and-4 a.flags, bit_and-8 a.flags) (ground arith)
