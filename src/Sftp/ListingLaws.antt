-- ===== src/Sftp/ListingLaws.antt =====
-- What `Sftp::readdir` of src/sftp.rs collects of a directory.
use ssh2_rs.Base.{
  ℕ, zero, suc, ◌≡◌, ◌≢◌, refl, ◌<◌, some, List, [], ◌∷◌, length, arith, if◌then◌else◌,
}
use ssh2_rs.Base.Int.{pos}
use ssh2_rs.Base.Text.{Bytes}
use ssh2_rs.Errors.{ok}
use ssh2_rs.Sftp.Raw.{Api}
use ssh2_rs.Sftp.Stat.{Attributes, from_raw}
use ssh2_rs.Sftp.Handles.{World, find, lock_file, locked_file, drop_file}
use ssh2_rs.Sftp.Buffers.{readdir, initial_capacity}
use ssh2_rs.Sftp.BufferLaws.{Yields, readdir_entry, readdir_end}
use ssh2_rs.Sftp.Listing.{
  PathLib, Entry, in_world, readdir_locked, file_readdir, round, collect, dropping, listed,
  sftp_readdir,
}
use ssh2_rs.Sftp.Requests.{opendir}

module _ {S : Type 0} (api : Api S) (handle : ℕ) where
  -- From `s` on, libssh2 gives these entries, none of them without a name, each of them with room in
  -- the first buffer, then the end; it is in `s'` after that.
  abbrev pub Lists : S → List ((Bytes × Attributes) × S) → S → Type 0
  Lists s [] s' =
      (rest : Bytes × Attributes) × (api.readdir_ex handle initial_capacity s
        ≡ ((pos 0, rest.0, rest.1), s'))
  Lists s (((name, stat), t) ∷ entries) s' =
      (name ≢ []) × Yields api handle s name stat t × Lists t entries s'

-- The entries but `.` and `..`, under the name of the directory.
abbrev pub kept : {S : Type 0} → PathLib → Bytes → List ((Bytes × Attributes) × S) → List Entry
kept lib dirname [] = []
kept lib dirname (((name, stat), t) ∷ entries) =
    if lib.path_eq name (46 ∷ [])
    then kept lib dirname entries
    else if lib.path_eq name (46 ∷ 46 ∷ [])
    then kept lib dirname entries
    else (lib.join dirname name, from_raw stat) ∷ kept lib dirname entries

module _ {S : Type 0} (api : Api S) (lib : PathLib) (dirname : Bytes) (dir handle p : ℕ) where
  file_readdir-lib :
      (fuel : ℕ) (w : World S)
      → find dir w.files ≡ some handle
      → w.wrapped ≡ some p
      → file_readdir api fuel dir w ≡ in_world api w (readdir api fuel handle w.lib)
  unfolding file_readdir readdir_locked lock_file locked_file
  file_readdir-lib fuel w f there = rw (f, there) refl

  -- The loop of `Sftp::readdir` gives every entry of the directory but `.` and `..`, in order, each
  -- joined to the directory's name; one more round than there are entries is enough.
  pub collect-Lists :
      (entries : List ((Bytes × Attributes) × S)) (inner fuel : ℕ) (w : World S) (s' : S)
      → find dir w.files ≡ some handle
      → w.wrapped ≡ some p
      → Lists api handle w.lib entries s'
      → length entries < fuel
      → collect api lib dirname dir (suc inner) fuel w
        ≡ some (ok (kept lib dirname entries), record w { lib = s' })
  unfolding collect
  collect-Lists entries inner zero w s' f there h enough = absurd (omega arith)
  collect-Lists [] inner (suc fuel) w s' f there h enough =
      rw
        (
          file_readdir-lib (suc inner) w f there,
          readdir_end api handle inner w.lib s' h.0.0 h.0.1 h.1,
        )
        refl
  collect-Lists (((name, stat), t) ∷ entries) inner (suc fuel) w s' f there h enough =
      let later =
        collect-Lists entries inner fuel (record w { lib = t }) s' f there h.2 (omega arith) in
      rw
        (
          file_readdir-lib (suc inner) w f there,
          readdir_entry api handle inner w.lib t name stat h.0 h.1,
        )
        (after later)
    where
      after :
          collect api lib dirname dir (suc inner) fuel (record w { lib = t })
            ≡ some (ok (kept lib dirname entries), record w { lib = s' })
          → round lib dirname
              (some (ok (name, from_raw stat), record w { lib = t }))
              (collect api lib dirname dir (suc inner) fuel)
            ≡ some (ok (kept lib dirname (((name, stat), t) ∷ entries)), record w { lib = s' })
      after later = ground arith

  -- Where a directory opens and libssh2 gives its entries one by one, each with a name that fits
  -- into the first buffer, and then the end, `Sftp::readdir` gives the entries but `.` and `..`,
  -- in order, each joined to the directory's name, and drops the directory; one more round than
  -- there are entries is enough.
  pub sftp_readdir-Lists :
      (entries : List ((Bytes × Attributes) × S)) (inner fuel : ℕ) (w w' : World S) (s' : S)
      → opendir api dir dirname w ≡ (ok tt, w')
      → find dir w'.files ≡ some handle
      → w'.wrapped ≡ some p
      → Lists api handle w'.lib entries s'
      → length entries < fuel
      → sftp_readdir api lib dirname dir (suc inner) fuel w
        ≡ some (ok (kept lib dirname entries), (drop_file api dir (record w' { lib = s' })).1)
  unfolding sftp_readdir listed dropping
  sftp_readdir-Lists entries inner fuel w w' s' opens f there h enough =
      rw (opens, collect-Lists entries inner fuel w' s' f there h enough) refl
