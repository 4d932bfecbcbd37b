-- ===== src/Sftp/BufferLaws.antt =====
-- When the loops of src/sftp.rs that grow a buffer end, and with what.
use ssh2_rs.Base.{
  ℕ, zero, suc, ◌≤◌, ◌<◌, ◌≡◌, ◌≢◌, refl, none, some, [], ◌∷◌, length, take, arith, ltb, Bool-cases,
  inl, inr, if◌then◌else◌,
}
use ssh2_rs.Base.Int.{ℤ, pos}
use ssh2_rs.Base.Text.{Bytes}
use ssh2_rs.Paths.Slices.{c_slice}
use ssh2_rs.Sys.{error_buffer_too_small, error_file}
use ssh2_rs.Errors.{new, ok, err}
use ssh2_rs.Sftp.Raw.{Api}
use ssh2_rs.Sftp.Stat.{Attributes, from_raw}
use ssh2_rs.Sftp.Buffers.{
  reserve, initial_capacity, readlink_loop, readlink_op, readdir_loop, readdir,
}

-- Reserving as much as there is already gives nothing: the vector's length is still 0.
reserve_self : (cap : ℕ) → reserve cap cap ≡ cap
unfolding reserve
reserve_self cap = ground arith

pub take_all : (b : Bytes) → take (length b) b ≡ b
take_all [] = refl
take_all (x ∷ b) = ground (arith, take_all b)

-- libssh2's documented answer for a link to `target`: the target, if the buffer has room for it
-- and a zero byte, and else BUFFER_TOO_SMALL; at any time.
abbrev pub LinksTo : {S : Type 0} → Api S → ℕ → Bytes → ℤ → Bytes → Type 0
LinksTo {S} api sftp path op target =
    (cap : ℕ) (s : S)
    → (length target < cap
        → (api.symlink_ex sftp (c_slice path) cap op s).0 ≡ (pos (length target), target))
      × (cap ≤ length target
          → (api.symlink_ex sftp (c_slice path) cap op s).0.0 ≡ error_buffer_too_small)

module _ {S : Type 0} (api : Api S) (sftp : ℕ) (path : Bytes) (op : ℤ) where
  readlink_loop-stuck :
      (target : Bytes)
      → LinksTo api sftp path op target
      → (fuel cap : ℕ) (s : S) → cap ≤ length target
      → readlink_loop api fuel sftp path op cap s ≡ none
  unfolding readlink_loop
  readlink_loop-stuck target links zero cap s h = refl
  readlink_loop-stuck target links (suc fuel) cap s h =
      let s' = (api.symlink_ex sftp (c_slice path) cap op s).1 in
      let again = readlink_loop-stuck target links fuel cap s' h in
      rw ((links cap s).1 h, reserve_self cap) again

  -- Where libssh2 answers for a link as it documents, giving the target if the buffer has room
  -- for it and a zero byte and BUFFER_TOO_SMALL if not: a target shorter than 128 bytes is read
  -- whole, in one round; for a longer one no fuel is enough, as the buffer does not grow.
  pub readlink_op-target :
      (target : Bytes)
      → LinksTo api sftp path op target
      → (fuel : ℕ) (s : S)
      → readlink_op api (suc fuel) sftp path op s ≡ (
          if ltb (length target) initial_capacity
          then some (ok target, (api.symlink_ex sftp (c_slice path) initial_capacity op s).1)
          else none)
  unfolding readlink_op
  readlink_op-target target links fuel s =
      elim (Bool-cases (ltb (length target) initial_capacity)) [
        | inl short ↦ ground (arith, (links initial_capacity s).0, take_all target)
        | inr long ↦
            let stuck =
              readlink_loop-stuck target links (suc fuel) initial_capacity s (ground arith) in
            rw (long, readlink_op, stuck) refl
      ]

-- One answer of `libssh2_sftp_readdir_ex`: the next entry's name and metadata, or the end.
abbrev pub Yields : {S : Type 0} → Api S → ℕ → S → Bytes → Attributes → S → Type 0
Yields api handle s name stat s' =
    api.readdir_ex handle initial_capacity s ≡ ((pos (length name), name, stat), s')

module _ {S : Type 0} (api : Api S) (handle : ℕ) where
  readdir_loop-stuck :
      ((s : S) → (api.readdir_ex handle initial_capacity s).0.0 ≡ error_buffer_too_small)
      → (fuel : ℕ) (s : S) → readdir_loop api fuel handle initial_capacity s ≡ none
  unfolding readdir_loop
  readdir_loop-stuck small zero s = refl
  readdir_loop-stuck small (suc fuel) s =
      let again = readdir_loop-stuck small fuel (api.readdir_ex handle initial_capacity s).1 in
      rw (small s, reserve_self initial_capacity) again

  pub readdir_entry :
      (fuel : ℕ) (s s' : S) (name : Bytes) (stat : Attributes)
      → name ≢ []
      → Yields api handle s name stat s'
      → readdir api (suc fuel) handle s ≡ some (ok (name, from_raw stat), s')
  unfolding readdir
  readdir_entry fuel s s' [] stat h e = absurd (h refl)
  readdir_entry fuel s s' (b ∷ name) stat h e = ground (arith, take_all (b ∷ name))

  pub readdir_end :
      (fuel : ℕ) (s s' : S) (buffer : Bytes) (stat : Attributes)
      → api.readdir_ex handle initial_capacity s ≡ ((pos 0, buffer, stat), s')
      → readdir api (suc fuel) handle s ≡ some (err (new error_file "no more files"), s')
  unfolding readdir
  readdir_end fuel s s' buffer stat e = ground arith

  -- While every answer to a buffer of 128 bytes is BUFFER_TOO_SMALL, no fuel is enough for
  -- `File::readdir`.
  pub readdir-stuck :
      ((s : S) → (api.readdir_ex handle initial_capacity s).0.0 ≡ error_buffer_too_small)
      → (fuel : ℕ) (s : S) → readdir api fuel handle s ≡ none
  unfolding readdir
  readdir-stuck small fuel s = rw (readdir_loop-stuck small fuel s, readdir)
