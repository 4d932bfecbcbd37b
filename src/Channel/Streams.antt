-- ===== src/Channel/Streams.antt =====
-- Reading the streams of a channel, src/channel.rs, in turns and through buffers of any sizes.
use mathlib.Core.List.{append_assoc}
use ssh2_rs.Base.{
  ℕ, ◌^◌, ◌≤◌, ◌<◌, ◌≡◌, refl, sym, ap, ◌∙◌, Bool, true, false, List, [], ◌∷◌, ◌++◌, All,
  if◌then◌else◌, arith,
}
use ssh2_rs.Base.Int.{ℤ, pos, negsuc, ◌==ℤ◌}
use ssh2_rs.Base.Text.{Bytes}
use ssh2_rs.Errors.{Result}
use ssh2_rs.Errors.Bind.{bind_rule}
use ssh2_rs.Channel.{Shared, read, read_some, settle, read_unless, eof, window}
use ssh2_rs.Channel.Raw.{Api}
use ssh2_rs.Channel.Limit.{ReadsWithin, got}

-- The bytes that `libssh2_channel_read_ex` has still to give for each stream: a read takes those
-- that it reports from the front of its stream and none from another, and a failure and a test for
-- the end take none.
pub record Delivers {S : Type 0} (api : Api S) : Type 0 where
  pub ahead : S → ℤ → Bytes
  pub within : ReadsWithin api
  pub taken :
      (p : ℕ) (id : ℤ) (len : ℕ) (s : S) (n : ℕ) (i : ℤ)
      → (api.read_ex p id len s).0.0 ≡ pos n
      → ahead s i
        ≡ (if id ==ℤ i then (api.read_ex p id len s).0.1 else [])
          ++ ahead (api.read_ex p id len s).1 i
  pub failed :
      (p : ℕ) (id : ℤ) (len : ℕ) (s : S) (k : ℕ) (i : ℤ)
      → (api.read_ex p id len s).0.0 ≡ negsuc k
      → ahead (api.read_ex p id len s).1 i ≡ ahead s i
  pub tested : (p : ℕ) (s : S) (i : ℤ) → ahead (api.eof p s).1 i ≡ ahead s i

-- What the reads of one stream hand out, in the order of the reads.
abbrev pub of_stream : ℤ → List (ℤ × Bytes) → Bytes
of_stream i [] = []
of_stream i ((id, bytes) ∷ rest) = if id ==ℤ i then bytes ++ of_stream i rest else of_stream i rest

-- Reads of any streams, one after the other: what each hands out, and the channel.
pub read_all : {S : Type 0} → Api S → List (ℤ × ℕ) → Shared S → List (ℤ × Bytes) × Shared S
read_all api [] w = ([], w)
read_all api ((id, len) ∷ reads) w =
    let (r, w') = read api id len w in
    let (later, w'') = read_all api reads w' in ((id, got r) ∷ later, w'')

joined :
    (mine : Bool) (xs ys rest : Bytes) {before between : Bytes}
    → before ≡ (if mine then xs else []) ++ between
    → between ≡ ys ++ rest
    → before ≡ (if mine then xs ++ ys else ys) ++ rest
joined true xs ys rest e e' = e ∙ ap (λ l. xs ++ l) e' ∙ sym (append_assoc xs ys rest)
joined false xs ys rest e e' = e ∙ e'

module _ {S : Type 0} (api : Api S) where
  settle-lib : (n : ℤ) (written : Bytes) (w : Shared S) → (settle api n written w).1.lib ≡ w.lib
  unfolding settle
  settle-lib n written w = ground arith

  settle-got :
      (n len : ℕ) (written : Bytes) (w : Shared S)
      → len < 2 ^ 31
      → n ≤ window w.inner.read_limit len
      → got (settle api (pos n) written w).0 ≡ written
  unfolding settle
  settle-got n len written w h fits = ground arith

  settle-failed :
      (k : ℕ) (written : Bytes) (w : Shared S)
      → k < 2 ^ 31
      → got (settle api (negsuc k) written w).0 ≡ []
  unfolding settle
  settle-failed k written w h = ground arith

module _ {S : Type 0} (api : Api S) (delivers : Delivers api) (i : ℤ) where
  -- What is handed out, if it is for stream `i`, and what is still ahead make up what was ahead.
  abbrev InOrder : ℤ → S → Result (ℕ × Bytes) × Shared S → Type 0
  InOrder id s (r, w) =
      delivers.ahead s i ≡ (if id ==ℤ i then got r else []) ++ delivers.ahead w.lib i

  nothing : (id : ℤ) (bytes : Bytes) → (if id ==ℤ i then [] else []) ++ bytes ≡ bytes
  nothing id bytes = ground arith

  settle-InOrder :
      (n : ℤ) (len : ℕ) (written : Bytes) (id : ℤ) (s : S) (w : Shared S)
      → len < 2 ^ 31
      → ((k : ℕ)
          → n ≡ pos k
          → (k ≤ window w.inner.read_limit len)
            × (delivers.ahead s i ≡ (if id ==ℤ i then written else []) ++ delivers.ahead w.lib i))
      → ((k : ℕ) → n ≡ negsuc k → (k < 2 ^ 31) × (delivers.ahead w.lib i ≡ delivers.ahead s i))
      → InOrder id s (settle api n written w)
  settle-InOrder (pos n) len written id s w short good bad =
      let (fits, front) = good n refl in
      rw (settle-got api n len written w short fits, settle-lib api (pos n) written w) front
  settle-InOrder (negsuc k) len written id s w short good bad =
      let (small, same) = bad k refl in
      rw (settle-failed api k written w small, settle-lib api (negsuc k) written w)
        (sym same ∙ sym (nothing id (delivers.ahead w.lib i)))

  read_some-InOrder :
      (id : ℤ) (len : ℕ) (w : Shared S) → len < 2 ^ 31 → InOrder id w.lib (read_some api id len w)
  unfolding read_some
  read_some-InOrder id len w short =
      let p = w.inner.unsafe_raw in
      let size = window w.inner.read_limit len in
      let ((n, written), s) = api.read_ex p id size w.lib in
      settle-InOrder n len written id w.lib (record w { lib = s }) short
        (λ k e.
          ((delivers.within.count p id size w.lib k e).0, delivers.taken p id size w.lib k i e))
        (λ k e.
          (delivers.within.failure p id size w.lib k e, delivers.failed p id size w.lib k i e))

  eof-ahead : (w : Shared S) → delivers.ahead (eof api w).1.lib i ≡ delivers.ahead w.lib i
  unfolding eof
  eof-ahead w = ground (arith, delivers.tested w.inner.unsafe_raw w.lib i)

  read_unless-InOrder :
      (ended : Bool) (id : ℤ) (len : ℕ) (w : Shared S)
      → len < 2 ^ 31
      → InOrder id w.lib (read_unless api ended id len w)
  unfolding read_unless
  read_unless-InOrder true id len w short = sym (nothing id (delivers.ahead w.lib i))
  read_unless-InOrder false id len w short = read_some-InOrder id len w short

  read-InOrder :
      (id : ℤ) (len : ℕ) (w : Shared S) → len < 2 ^ 31 → InOrder id w.lib (read api id len w)
  unfolding read
  read-InOrder id len w short =
      bind_rule (InOrder id w.lib) (eof api) (λ ended. read_unless api ended id len) w
        (λ ended _. sym (eof-ahead w) ∙ read_unless-InOrder ended id len (eof api w).1 short)
        (λ _ _. quiet) (λ _. quiet)
    where
      quiet :
          delivers.ahead w.lib i
          ≡ (if id ==ℤ i then [] else []) ++ delivers.ahead (eof api w).1.lib i
      quiet = sym (eof-ahead w) ∙ sym (nothing id (delivers.ahead (eof api w).1.lib i))

  -- Where libssh2 delivers the bytes of each stream in order: however the reads of the streams of a
  -- channel, limited or not, take turns, in buffers shorter than 2 GiB and with failures among
  -- them, what the reads of one stream hand out, joined, and what is still ahead on it make up what
  -- was ahead on it, so no byte is lost, repeated, reordered or handed to another stream.
  pub read_all-InOrder :
      (reads : List (ℤ × ℕ)) (w : Shared S)
      → All (λ (id, len). len < 2 ^ 31) reads
      → let (handed, w') = read_all api reads w in
        delivers.ahead w.lib i ≡ of_stream i handed ++ delivers.ahead w'.lib i
  unfolding read_all
  read_all-InOrder [] w h = refl
  read_all-InOrder ((id, len) ∷ reads) w h =
      let (r, w') = read api id len w in
      let (handed, w'') = read_all api reads w' in
      let first = read-InOrder id len w h.0 in
      let rest = read_all-InOrder reads w' h.1 in
      joined (id ==ℤ i) (got r) (of_stream i handed) (delivers.ahead w''.lib i) first rest
