-- ===== src/Session/Laws.antt =====
-- src/session.rs, `scp_recv`: the limit on what can be read of the channel.
use ssh2_rs.Base.{ℕ, ◌+◌, ◌^◌, ◌<◌, ◌≡◌, ◌≢◌, refl, ◌∙◌, ap, some, List, length, All, arith}
use mathlib.Core.Path.{subst}
use ssh2_rs.Base.Int.{ℤ, pos, as_u64}
use ssh2_rs.Base.Text.{Bytes}
use ssh2_rs.Errors.Bind.{bind_rule}
use ssh2_rs.Errors.{Result, ok, err, panic}
use ssh2_rs.Channel.{ChannelInner}
use ssh2_rs.Channel.Raw as ChannelRaw
use ssh2_rs.Channel.Limit.{ReadsWithin, read_each, handed, read_each-limit}
use ssh2_rs.Session.Raw.{Api, ScpStat}
use ssh2_rs.Session.Open.{scp_recv, limited, receive, c_path, ScpFileStat, size}

-- The channel of an outcome is limited to the size that it reports.
abbrev Limits : Result (ChannelInner × ScpFileStat) → Type 0
Limits (ok (c, file)) = c.read_limit ≡ some (as_u64 file.stat.st_size)
Limits (err e) = Unit
Limits panic = Unit

module _ {S : Type 0} (api : Api S) (channels : ChannelRaw.Api S)
    (within : ReadsWithin channels) where
  limited-Limits : (sb : ScpStat) (r : Result ChannelInner) → Limits (limited api sb r)
  unfolding limited
  limited-Limits sb (ok c) = refl
  limited-Limits sb (err e) = tt
  limited-Limits sb panic = tt

  scp_recv-Limits : (path : Bytes) (s : S) → Limits (scp_recv api path s).0
  unfolding scp_recv
  scp_recv-Limits path s =
      bind_rule (λ o. Limits o.0) (c_path api path) (receive api) s (λ p _. limited-Limits _ _)
        (λ _ _. tt) (λ _. tt)

  -- A channel from a `scp_recv` that announced a size of `n` bytes below 2 ^ 63 hands out at most
  -- `n` bytes, and `n` is the size reported: whatever is read of its streams, in buffers shorter
  -- than 2 GiB and of a libssh2 that reports what it put into the buffer, no read panics, and what
  -- was handed out and what is left make up `n`.
  pub scp_recv-limit :
      (path : Bytes) (c : ChannelInner) (file : ScpFileStat) (s s' t : S) (n : ℕ)
      (reads : List (ℤ × ℕ))
      → scp_recv api path s ≡ (ok (c, file), s')
      → file.stat.st_size ≡ pos n
      → n < 2 ^ 63
      → All (λ (id, len). len < 2 ^ 31) reads
      → let (rs, w) = read_each channels reads (record { inner = c; lib = t }) in
        All (λ r. r ≢ panic) rs
        × ((left : ℕ) × (w.inner.read_limit ≡ some left) × (length (handed rs) + left ≡ n))
        × (size file ≡ n)
  unfolding size
  scp_recv-limit path c file s s' t n reads e sized fits short =
      let limit = subst (λ o. Limits o.0) e (scp_recv-Limits path s) in
      let (alive, rest) =
        read_each-limit channels within reads n (record { inner = c; lib = t }) short
          (limit ∙ ground arith) in
      (alive, rest, ap as_u64 sized ∙ omega arith)
