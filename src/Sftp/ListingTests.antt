-- ===== src/Sftp/ListingTests.antt =====
-- A directory with the entries `.` and `a`.
use ssh2_rs.Base.{◌≡◌, refl, some, List, [], ◌∷◌, ◌++◌, if◌then◌else◌, arith}
use ssh2_rs.Base.Int.{ℤ, pos, ◌==ℤ◌}
use ssh2_rs.Base.Text.{Bytes, bytes_eq}
use ssh2_rs.Errors.{ok}
use ssh2_rs.Sftp.Raw.{Api}
use ssh2_rs.Sftp.Stat.{Attributes, from_raw}
use ssh2_rs.Paths.{path2bytes}
use ssh2_rs.Sftp.Requests.{opendir}
use ssh2_rs.Sftp.Handles.{
  World, open_mode, drop_file, lock, opened, dropped, release, close_blocking,
}
use ssh2_rs.Sftp.Listing.{PathLib, sftp_readdir}
use ssh2_rs.Sftp.ListingLaws.{Lists, sftp_readdir-Lists}
use ssh2_rs.Sftp.Tests.{quiet, fresh, target, no_attributes}

abbrev entry_at : ℤ → (ℤ × Bytes × Attributes) × ℤ
entry_at s =
    if s ==ℤ pos 0
    then ((pos 1, 46 ∷ [], no_attributes), pos 1)
    else if s ==ℤ pos 1
    then ((pos 1, 97 ∷ [], no_attributes), pos 2)
    else ((pos 0, [], no_attributes), pos 2)

abbrev small_directory : Api ℤ
small_directory = record quiet { readdir_ex = λ h cap s. entry_at s }

abbrev plain_paths : PathLib
plain_paths = record { join = λ dir name. dir ++ (47 ∷ name); path_eq = bytes_eq }

abbrev entries : List ((Bytes × Attributes) × ℤ)
entries = ((46 ∷ [], no_attributes), pos 1) ∷ ((97 ∷ [], no_attributes), pos 2) ∷ []

abbrev opened_directory : World ℤ
opened_directory = record fresh { strong = 2; files = (1, 7) ∷ [] }

small_directory-Lists : Lists small_directory 7 (pos 0) entries (pos 2)
small_directory-Lists = (λ e. cc, refl, (λ e. cc, refl, (([], no_attributes), refl)))

-- The directory is closed at the end, in blocking mode, and the mode is restored.
sftp_readdir-Lists_example :
    sftp_readdir small_directory plain_paths target 1 1 3 fresh
    ≡ some
        (ok ((target ++ (47 ∷ 97 ∷ []), from_raw no_attributes) ∷ []), record fresh { lib = pos 1 })
unfolding opendir open_mode drop_file path2bytes lock opened dropped release close_blocking
sftp_readdir-Lists_example =
    sftp_readdir-Lists small_directory plain_paths target 1 7 5 entries 0 3 fresh opened_directory
      (pos 2) refl refl refl small_directory-Lists (omega arith)
