-- ===== src/Channel/Limit.antt =====
-- Reading through src/channel.rs, and the artificial read limit that `scp_recv` sets.
use ssh2_rs.Base.{
  ℕ, ◌+◌, ◌-◌, ◌^◌, ◌≤◌, ◌<◌, ◌≡◌, ◌≢◌, refl, ◌∙◌, ap, Bool, true, false, Option, some, List, [],
  ◌∷◌, length, length-append, All, ◌++◌, arith,
}
use ssh2_rs.Base.Int.{ℤ, pos, negsuc}
use ssh2_rs.Base.Text.{Bytes}
use ssh2_rs.Errors.{Result, ok, err, panic}
use ssh2_rs.Errors.Bind.{bind_rule, bind_ok}
use ssh2_rs.Channel.{Shared, read, read_some, settle, read_unless, eof, window}
use ssh2_rs.Channel.Raw.{Api}

-- `libssh2_channel_read_ex` gives back how many bytes it put into the buffer, at most its length,
-- or a negative c_int.
pub record ReadsWithin {S : Type 0} (api : Api S) : Type 0 where
  pub count :
      (p : ℕ) (id : ℤ) (len : ℕ) (s : S) (n : ℕ)
      → (api.read_ex p id len s).0.0 ≡ pos n
      → (n ≤ len) × (length (api.read_ex p id len s).0.1 ≡ n)
  pub failure :
      (p : ℕ) (id : ℤ) (len : ℕ) (s : S) (k : ℕ)
      → (api.read_ex p id len s).0.0 ≡ negsuc k
      → k < 2 ^ 31

-- What a read of at most `len` bytes does to a limit: it takes off what it hands out, and a
-- failure takes off nothing. No read panics.
abbrev pub Charged : ℕ → ℕ → Result (ℕ × Bytes) → Option ℕ → Type 0
Charged limit len (ok (n, written)) rest =
    (n ≤ len) × (n ≤ limit) × (length written ≡ n) × (rest ≡ some (limit - n))
Charged limit len (err e) rest = rest ≡ some limit
Charged limit len panic rest = ⊥

window_le :
    (l : Option ℕ) (limit len : ℕ) → l ≡ some limit → (window l len ≤ len) × (window l len ≤ limit)
window_le l limit len e = ground arith

module _ {S : Type 0} (api : Api S) where
  settle-Charged :
      (n : ℤ) (written : Bytes) (limit len : ℕ) (w : Shared S)
      → w.inner.read_limit ≡ some limit
      → len < 2 ^ 31
      → ((k : ℕ) → n ≡ pos k → (k ≤ len) × (k ≤ limit) × (length written ≡ k))
      → ((k : ℕ) → n ≡ negsuc k → k < 2 ^ 31)
      → let (r, w') = settle api n written w in Charged limit len r w'.inner.read_limit
  unfolding settle
  settle-Charged (pos n) written limit len w e h count failure = ground (arith, count n refl)
  settle-Charged (negsuc k) written limit len w e h count failure = ground (arith, failure k refl)

module _ {S : Type 0} (api : Api S) (within : ReadsWithin api) where
  read_some-Charged :
      (id : ℤ) (limit len : ℕ) (w : Shared S)
      → len < 2 ^ 31
      → w.inner.read_limit ≡ some limit
      → let (r, w') = read_some api id len w in Charged limit len r w'.inner.read_limit
  unfolding read_some
  read_some-Charged id limit len w h e =
      settle-Charged api n written limit len (record w { lib = s }) e h fits
        (λ k q. within.failure p id size w.lib k q)
    where
      p : ℕ
      p = w.inner.unsafe_raw

      size : ℕ
      size = window w.inner.read_limit len

      n : ℤ
      n = (api.read_ex p id size w.lib).0.0

      written : Bytes
      written = (api.read_ex p id size w.lib).0.1

      s : S
      s = (api.read_ex p id size w.lib).1

      fits : (k : ℕ) → n ≡ pos k → (k ≤ len) × (k ≤ limit) × (length written ≡ k)
      fits k q =
          let (most, full) = within.count p id size w.lib k q in
          let room = window_le w.inner.read_limit limit len e in (omega arith, omega arith, full)

  eof-inner : (w : Shared S) → (eof api w).1.inner ≡ w.inner
  unfolding eof
  eof-inner w = ground arith

  eof-returns : (w : Shared S) → (eof api w).0 ≢ panic
  unfolding eof
  eof-returns w = ground arith

  read_unless-Charged :
      (ended : Bool) (id : ℤ) (limit len : ℕ) (w : Shared S)
      → len < 2 ^ 31
      → w.inner.read_limit ≡ some limit
      → let (r, w') = read_unless api ended id len w in Charged limit len r w'.inner.read_limit
  unfolding read_unless
  read_unless-Charged true id limit len w h e = ground arith
  read_unless-Charged false id limit len w h e = read_some-Charged id limit len w h e

  -- Where a read of libssh2 reports as its count what it put into the buffer, within the length
  -- of the buffer, or a negative c_int: one read through any stream of a limited channel, of a
  -- buffer shorter than 2 GiB, does not panic; a success hands out as many bytes as it reports,
  -- at most the buffer and at most the limit, and the limit goes down by them; a failure leaves
  -- the limit as it was.
  pub read-Charged :
      (id : ℤ) (limit len : ℕ) (w : Shared S)
      → len < 2 ^ 31
      → w.inner.read_limit ≡ some limit
      → let (r, w') = read api id len w in Charged limit len r w'.inner.read_limit
  unfolding read
  read-Charged id limit len w h e =
      bind_rule (λ o. Charged limit len o.0 o.1.inner.read_limit) (eof api)
        (λ ended. read_unless api ended id len) w
        (λ ended _. read_unless-Charged ended id limit len (eof api w).1 h (kept e)) (λ _ _. kept e)
        (λ p. absurd (eof-returns w p))
    where
      kept : w.inner.read_limit ≡ some limit → (eof api w).1.inner.read_limit ≡ some limit
      kept q = ap (λ c. c.read_limit) (eof-inner w) ∙ q

-- The bytes that a read hands out.
abbrev pub got : Result (ℕ × Bytes) → Bytes
got (ok (n, written)) = written
got (err e) = []
got panic = []

abbrev pub handed : List (Result (ℕ × Bytes)) → Bytes
handed [] = []
handed (r ∷ rs) = got r ++ handed rs

-- Reads of any streams of one channel, one after the other: their outcomes, and the channel.
pub read_each :
    {S : Type 0} → Api S → List (ℤ × ℕ) → Shared S → List (Result (ℕ × Bytes)) × Shared S
read_each api [] w = ([], w)
read_each api ((id, len) ∷ reads) w =
    let (r, w') = read api id len w in let (rs, w'') = read_each api reads w' in (r ∷ rs, w'')

Charged-returns :
    (limit len : ℕ) (r : Result (ℕ × Bytes)) (rest : Option ℕ)
    → Charged limit len r rest
    → r ≢ panic
Charged-returns limit len (ok (n, written)) rest h = λ e. cc
Charged-returns limit len (err e) rest h = λ e. cc
Charged-returns limit len panic rest h = absurd h

got-Charged :
    (limit len : ℕ) (r : Result (ℕ × Bytes)) (rest : Option ℕ)
    → Charged limit len r rest
    → (left : ℕ) × (rest ≡ some left) × (length (got r) + left ≡ limit)
got-Charged limit len (ok (n, written)) rest h = (limit - n, h.3, omega arith)
got-Charged limit len (err e) rest h = (limit, h, omega arith)
got-Charged limit len panic rest h = absurd h

module _ {S : Type 0} (api : Api S) (within : ReadsWithin api) where
  -- Where a read of libssh2 reports as its count what it put into the buffer, within the length
  -- of the buffer, or a negative c_int: whatever is read from the streams of a limited channel,
  -- in buffers shorter than 2 GiB, no read panics, and the bytes handed out and what is left of the
  -- limit make up the limit.
  pub read_each-limit :
      (reads : List (ℤ × ℕ)) (limit : ℕ) (w : Shared S)
      → All (λ (id, len). len < 2 ^ 31) reads
      → w.inner.read_limit ≡ some limit
      → let (rs, w') = read_each api reads w in
        All (λ r. r ≢ panic) rs
        × ((left : ℕ) × (w'.inner.read_limit ≡ some left) × (length (handed rs) + left ≡ limit))
  unfolding read_each
  read_each-limit [] limit w h e = (tt, (limit, e, omega arith))
  read_each-limit ((id, len) ∷ reads) limit w h e =
      let (r, w') = read api id len w in
      let charged = read-Charged api within id limit len w h.0 e in
      let once = got-Charged limit len r w'.inner.read_limit charged in
      let (alive, rest) = read_each-limit reads once.0 w' h.1 once.1 in
      let joined = length-append (got r) (handed (read_each api reads w').0) in
      (
        (Charged-returns limit len r w'.inner.read_limit charged, alive),
        (rest.0, rest.1, omega arith),
      )

eof-at_limit :
    {S : Type 0} (api : Api S) (w : Shared S)
    → w.inner.read_limit ≡ some 0
    → eof api w ≡ (ok true, w)
unfolding eof
eof-at_limit api w e = simp e

-- Once the limit is used up every read gives 0 bytes, the channel counts as ended, and the state
-- is left as it was.
pub read-at_limit :
    {S : Type 0} (api : Api S) (id : ℤ) (len : ℕ) (w : Shared S)
    → w.inner.read_limit ≡ some 0
    → (read api id len w ≡ (ok (0, []), w)) × (eof api w ≡ (ok true, w))
unfolding read read_unless
read-at_limit api id len w e = (
  bind_ok (eof api) (λ ended. read_unless api ended id len) w w true (eof-at_limit api w e),
  eof-at_limit api w e,
)
