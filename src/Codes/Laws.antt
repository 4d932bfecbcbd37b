-- ===== src/Codes/Laws.antt =====
-- How the numbers of the enums of src/lib.rs are read back.
use ssh2_rs.Base.{
  ℕ, sym, ap, ◌∙◌, if◌then◌else◌, ◌==◌, ◌*◌, ◌/◌, ◌%◌, ◌^◌, ◌<◌, ◌≡◌, refl, ◌≢◌, ◌↔◌, arith,
}
use ssh2_rs.Base.Int.{ℤ, pos, ==ℤ_iff}
use ssh2_rs.Sys.{knownhost_key_rsa1}
use ssh2_rs.Codes.{
  HostKeyType, host_key_code, host_key_kind, KnownHostKeyFormat, key_format_code, add_flags,
  CheckResult, check_code, check_result, matched, mismatch, not_found, failure, block_directions_of,
  inbound, outbound, both,
}

-- Each host key type is read back from its number, and any other number is `Unknown`.
pub host_key_kind-code :
    ((t : HostKeyType) → host_key_kind (host_key_code t) ≡ t)
    × ((kind : ℤ)
        → ((t : HostKeyType) → host_key_code t ≢ kind)
        → host_key_kind kind ≡ HostKeyType.unknown)
unfolding host_key_kind host_key_code
host_key_kind-code = (known, others)
  where
    known : (t : HostKeyType) → host_key_kind (host_key_code t) ≡ t
    known HostKeyType.unknown = refl
    known _ = refl

    others :
        (kind : ℤ)
        → ((t : HostKeyType) → host_key_code t ≢ kind)
        → host_key_kind kind ≡ HostKeyType.unknown
    others kind h = ground (
      arith,
      ==ℤ_iff kind (pos 1),
      ==ℤ_iff kind (pos 2),
      ==ℤ_iff kind (pos 3),
      ==ℤ_iff kind (pos 4),
      ==ℤ_iff kind (pos 5),
      ==ℤ_iff kind (pos 6),
      h HostKeyType.rsa,
      h HostKeyType.dss,
      h HostKeyType.ecdsa256,
      h HostKeyType.ecdsa384,
      h HostKeyType.ecdsa521,
      h HostKeyType.ed255219,
    )

-- Each check result is read back from its number, and any other number, negative ones included,
-- is `Failure`: an error is never taken for a match.
check_result-code :
    ((r : CheckResult) → check_result (check_code r) ≡ r)
    × ((rc : ℤ) → ((r : CheckResult) → check_code r ≢ rc) → check_result rc ≡ failure)
unfolding check_result check_code
check_result-code = (known, others)
  where
    known : (r : CheckResult) → check_result (check_code r) ≡ r
    known failure = refl
    known _ = refl

    others : (rc : ℤ) → ((r : CheckResult) → check_code r ≢ rc) → check_result rc ≡ failure
    others rc h = ground (
      arith,
      ==ℤ_iff rc (pos 0),
      ==ℤ_iff rc (pos 1),
      ==ℤ_iff rc (pos 2),
      h matched,
      h mismatch,
      h not_found,
    )

flag_fields :
    (fmt : KnownHostKeyFormat)
    → (add_flags fmt % 2 ^ 16 ≡ 1)
      × (add_flags fmt / 2 ^ 16 % 4 ≡ 1)
      × (add_flags fmt / 2 ^ 18 * knownhost_key_rsa1 ≡ key_format_code fmt)
unfolding add_flags
flag_fields KnownHostKeyFormat.unknown = (refl, refl, refl)
flag_fields _ = (refl, refl, refl)

format_of : ℕ → KnownHostKeyFormat
format_of flags =
    if flags / 2 ^ 18 == 1
    then KnownHostKeyFormat.rsa1
    else if flags / 2 ^ 18 == 2
    then KnownHostKeyFormat.ssh_rsa
    else if flags / 2 ^ 18 == 3
    then KnownHostKeyFormat.ssh_dss
    else if flags / 2 ^ 18 == 4
    then KnownHostKeyFormat.ecdsa256
    else if flags / 2 ^ 18 == 5
    then KnownHostKeyFormat.ecdsa384
    else if flags / 2 ^ 18 == 6
    then KnownHostKeyFormat.ecdsa521
    else if flags / 2 ^ 18 == 7
    then KnownHostKeyFormat.ed255219
    else KnownHostKeyFormat.unknown

format_of-add_flags : (fmt : KnownHostKeyFormat) → format_of (add_flags fmt) ≡ fmt
unfolding format_of add_flags
format_of-add_flags KnownHostKeyFormat.unknown = refl
format_of-add_flags _ = refl

-- The flags of `add` keep three fields apart: the name's type in the low 16 bits is PLAIN, the
-- key's encoding in the next two is RAW, and the rest is the format's own number. Formats with one
-- number are one format.
add_flags_fields :
    (fmt : KnownHostKeyFormat)
    → (add_flags fmt % 2 ^ 16 ≡ 1)
      × (add_flags fmt / 2 ^ 16 % 4 ≡ 1)
      × (add_flags fmt / 2 ^ 18 * knownhost_key_rsa1 ≡ key_format_code fmt)
      × ((other : KnownHostKeyFormat) → add_flags other ≡ add_flags fmt → other ≡ fmt)
add_flags_fields fmt = (
  (flag_fields fmt).0,
  (flag_fields fmt).1,
  (flag_fields fmt).2,
  λ other e. sym (format_of-add_flags other) ∙ ap format_of e ∙ format_of-add_flags fmt,
)

-- Inbound is blocked exactly if the low bit of the mask is set, outbound exactly if the next one
-- is, for the masks that libssh2 documents, 0 to 3.
pub block_directions_bits :
    (dir : ℕ)
    → dir < 4
    → ((block_directions_of (pos dir) ≡ inbound) ↔ ((dir % 2 ≡ 1) × (dir / 2 ≡ 0)))
      × ((block_directions_of (pos dir) ≡ outbound) ↔ ((dir % 2 ≡ 0) × (dir / 2 ≡ 1)))
      × ((block_directions_of (pos dir) ≡ both) ↔ ((dir % 2 ≡ 1) × (dir / 2 ≡ 1)))
unfolding block_directions_of
block_directions_bits dir h = ground arith
