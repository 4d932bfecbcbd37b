-- ===== src/Channel.antt =====
-- src/channel.rs: channels and their streams. A channel is shared by its streams (`Arc`), so the
-- calls of a stream pass the `ChannelInner` along with the state of libssh2; the session's mutex
-- makes each call one step.
pub mod Raw
pub mod Requests
pub mod RequestLaws
pub mod Limit
pub mod Memory
pub mod Streams
mod StreamTests
pub mod Tests
use ssh2_rs.Base.{
  ℕ, ◌-◌, ◌%◌, ◌^◌, Bool, true, false, ◌||◌, Option, none, some, List, [], ◌∷◌, length, ltb, ◌==◌,
  if◌then◌else◌,
}
use ssh2_rs.Base.Int.{ℤ, pos, is_set, as_c_int, as_u64}
use ssh2_rs.Base.Text.{Bytes}
use ssh2_rs.Errors.{
  Error, unknown, ErrorKind, Result, ok, err, panic, Call, pure, raw, fail, abort, ◌>>=◌, ◌>>◌,
}
use ssh2_rs.Errors.Session.{rc}
use Raw.{Api}

pub record ChannelInner : Type 0 where
  pub unsafe_raw : ℕ
  pub read_limit : Option ℕ

-- `Channel::from_raw_opt`: a null pointer is an error, that of the session or `unknown`.
unfoldable pub from_raw_opt : Option ℕ → Option Error → Result ChannelInner
from_raw_opt none none = err unknown
from_raw_opt none (some e) = err e
from_raw_opt (some p) e = ok (record { unsafe_raw = p; read_limit = none })

-- `Channel::limit_read`.
unfoldable pub limit_read : ℕ → ChannelInner → ChannelInner
limit_read limit c = record c { read_limit = some limit }

-- A channel together with the state of libssh2.
pub record Shared (S : Type 0) : Type 0 where
  pub inner : ChannelInner
  pub lib : S

abbrev pub at_limit : Option ℕ → Bool
at_limit none = false
at_limit (some amt) = amt == 0

-- `&mut data[..cmp::min(*amt as usize, len)]`: the length of the buffer that libssh2 sees.
abbrev pub window : Option ℕ → ℕ → ℕ
window none len = len
window (some amt) len = if ltb amt len then amt else len

-- `**amt -= n as u64`, which panics where it would go below 0.
abbrev pub charge : Option ℕ → ℕ → Option (Option ℕ)
charge none n = some none
charge (some amt) n = if ltb amt n then none else some (some (amt - n))

module _ {S : Type 0} (api : Api S) where
  -- A call of libssh2 on the channel's raw pointer.
  abbrev on_raw : {A : Type 0} → (ℕ → S → A × S) → Call (Shared S) A
  on_raw f w = let (a, s) = f w.inner.unsafe_raw w.lib in (ok a, record w { lib = s })

  -- `locked.sess.rc(n)`.
  abbrev sess_rc : ℤ → Call (Shared S) (Unit {0})
  sess_rc n w = let (r, s) = rc api.session n w.lib in (r, record w { lib = s })

  -- `LockedStream::eof`, and `Channel::eof`.
  unfoldable pub eof : Call (Shared S) Bool
  eof w =
      if at_limit w.inner.read_limit
      then (ok true, w)
      else (on_raw api.eof >>= λ n. pure (is_set n)) w

  -- The limit goes down by what was read.
  unfoldable pub charge_limit : ℕ → Call (Shared S) (Unit {0})
  charge_limit n w = elim (charge w.inner.read_limit n) [
    | none ↦ (panic, w)
    | some limit ↦
        (ok tt, record w { inner = record { unsafe_raw = w.inner.unsafe_raw; read_limit = limit } })
  ]

  -- What `Stream::read` does with the return code of `libssh2_channel_read_ex`.
  unfoldable pub settle : ℤ → Bytes → Call (Shared S) (ℕ × Bytes)
  unfolding rc charge_limit
  settle n written = do sess_rc (as_c_int n); charge_limit (as_u64 n); pure (as_u64 n, written)

  -- The part of `Stream::read` below the test for the end: the count, and the bytes that were put
  -- at the start of a buffer of `len` bytes.
  unfoldable pub read_some : ℤ → ℕ → Call (Shared S) (ℕ × Bytes)
  unfolding settle
  read_some id len w =
      let ((n, written), s) =
        api.read_ex w.inner.unsafe_raw id (window w.inner.read_limit len) w.lib in
      settle n written (record w { lib = s })

  unfoldable pub read_unless : Bool → ℤ → ℕ → Call (Shared S) (ℕ × Bytes)
  read_unless true id len = pure (0, [])
  read_unless false id len = read_some id len

  -- `Read for Stream`.
  unfoldable pub read : ℤ → ℕ → Call (Shared S) (ℕ × Bytes)
  read id len = do ended ← eof; read_unless ended id len

  -- `Write for Stream`: the count of bytes that were taken from `buf`.
  unfoldable pub write : ℤ → Bytes → Call (Shared S) ℕ
  unfolding rc
  write id buf = do n ← on_raw (λ p. api.write_ex p id buf); sess_rc (as_c_int n); pure (as_u64 n)

  unfoldable pub flush : ℤ → Call (Shared S) (Unit {0})
  unfolding rc
  flush id = do n ← on_raw (λ p. api.flush_ex p id); sess_rc n

  -- `Read` and `Write` for `Channel` are those of stream 0.
  unfoldable pub channel_read : ℕ → Call (Shared S) (ℕ × Bytes)
  unfolding read
  channel_read = read (pos 0)

  unfoldable pub channel_write : Bytes → Call (Shared S) ℕ
  unfolding write
  channel_write = write (pos 0)

  unfoldable pub channel_flush : Call (Shared S) (Unit {0})
  unfolding flush
  channel_flush = flush (pos 0)

  -- `Drop for ChannelInner`.
  unfoldable pub drop : Shared S → S
  drop w = (api.free w.inner.unsafe_raw w.lib).1
