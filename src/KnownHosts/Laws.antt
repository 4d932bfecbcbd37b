-- ===== src/KnownHosts/Laws.antt =====
-- Looking hosts up, removing them, writing them out and checking them, src/knownhosts.rs.
use ssh2_rs.Base.{
  ℕ, suc, ◌+◌, ◌≤◌, ◌<◌, ◌≡◌, ◌≢◌, refl, inl, inr, ltb, Bool-cases, ◌↔◌, true, false, Option, none,
  some, List, [], ◌∷◌, length, take, arith,
}
use ssh2_rs.Base.Int.{ℤ, pos, ==ℤ_iff}
use ssh2_rs.Base.Text.{Bytes, from_utf8, has_nul}
use ssh2_rs.Sys.{error_buffer_too_small, error_bad_use}
use ssh2_rs.Codes.{KnownHostFileKind, file_kind_code, matched, check_result, check_flags}
use ssh2_rs.Errors.{Error, new, Result, ok, err, panic, c_string}
use ssh2_rs.Errors.Session.{rc}
use ssh2_rs.Sftp.Buffers.{reserve, initial_capacity}
use ssh2_rs.Walk.Laws.{Holds, values, first, all_of-Holds, resolve-Holds}
use ssh2_rs.KnownHosts.{
  Host, host_eq, from_raw, hosts, resolve_to_raw_host, remove, delete, write_loop, write_host,
  written, write_string, check_port_, check_name,
}
use ssh2_rs.KnownHosts.Raw.{Api}

module _ {S : Type 0} (api : Api S) (hosts_raw : ℕ) (s : S) where
  -- What the collection holds: the hosts, by the pointers to their nodes.
  abbrev pub Contains : List (ℕ × Host) → Type 0
  Contains items = Holds (api.get hosts_raw) (λ p t. from_raw (api.node p t)) s none items

  -- Of a collection that stands still while it is walked, `hosts` gives every host, in order,
  -- with one more round than there are hosts.
  pub hosts-Contains :
      (items : List (ℕ × Host)) (fuel : ℕ)
      → Contains items
      → length items < fuel
      → hosts api hosts_raw fuel s ≡ some (ok (values items), s)
  unfolding hosts
  hosts-Contains items fuel h enough = all_of-Holds api.session _ _ s items fuel none h enough

  resolve-Contains :
      (items : List (ℕ × Host)) (host : Host) (fuel : ℕ)
      → Contains items
      → length items < fuel
      → resolve_to_raw_host api hosts_raw fuel host s
        ≡ some (ok (first (λ current. host_eq current host) items), s)
  unfolding resolve_to_raw_host
  resolve-Contains items host fuel h enough =
      resolve-Holds api.session _ _ s _ items fuel none h enough

  -- What a removal does of a node that was found, or of none.
  abbrev pub deleted : Option ℕ → Result (Unit {0}) × S
  deleted none = (ok tt, s)
  deleted (some p) = let (n, s') = api.del hosts_raw p s in rc api.session n s'

  -- Of a collection that stands still while it is walked, with one more round than there are
  -- hosts, `remove` gives the outcome of asking libssh2 to delete the first host that is equal to
  -- the given one; where there is none it succeeds and changes nothing.
  pub remove-Contains :
      (items : List (ℕ × Host)) (host : Host) (fuel : ℕ)
      → Contains items
      → length items < fuel
      → remove api hosts_raw fuel host s
        ≡ some (deleted (first (λ current. host_eq current host) items))
  unfolding remove delete ssh2_rs.Walk.resume
  remove-Contains items host fuel h enough =
      let found = resolve-Contains items host fuel h enough in
      rw found (delete_once (first (λ current. host_eq current host) items))
    where
      delete_once : (p : Option ℕ) → some (delete api hosts_raw p s) ≡ some (deleted p)
      delete_once none = refl
      delete_once (some p) = refl

-- libssh2's documented answer of `libssh2_knownhost_writeline` for one node: the line, if the
-- buffer has room for it and a zero byte, and else BUFFER_TOO_SMALL; its length either way.
abbrev pub WritesLine : {S : Type 0} → Api S → ℕ → ℕ → ℤ → Bytes → Type 0
WritesLine {S} api hosts_raw p kind line =
    (cap : ℕ) (t : S)
    → (length line < cap → (api.writeline hosts_raw p cap kind t).0 ≡ (pos 0, length line, line))
      × (cap ≤ length line
          → ((api.writeline hosts_raw p cap kind t).0.0 ≡ error_buffer_too_small)
            × ((api.writeline hosts_raw p cap kind t).0.1 ≡ length line))

reserve-enough : (cap n : ℕ) → n ≤ reserve cap n
unfolding reserve
reserve-enough cap n = ground arith

take_all : (b : Bytes) → take (length b) b ≡ b
take_all [] = refl
take_all (x ∷ b) = ground (arith, take_all b)

module _ {S : Type 0} (api : Api S) (hosts_raw : ℕ) where
  write_loop-room :
      (p : ℕ) (kind : ℤ) (line : Bytes) (fuel cap : ℕ) (t : S)
      → WritesLine api hosts_raw p kind line
      → from_utf8 line ≡ some line
      → length line < cap
      → write_loop api hosts_raw (suc fuel) cap p kind t
        ≡ some (ok line, (api.writeline hosts_raw p cap kind t).1)
  unfolding write_loop rc
  write_loop-room p kind line fuel cap t writes text room =
      rw ((writes cap t).0 room, take_all line, text) refl

  write_loop-line :
      (p : ℕ) (kind : ℤ) (line : Bytes) (fuel cap : ℕ) (t : S)
      → WritesLine api hosts_raw p kind line
      → from_utf8 line ≡ some line
      → (t' : S) × (write_loop api hosts_raw (suc (suc fuel)) cap p kind t ≡ some (ok line, t'))
  unfolding write_loop
  write_loop-line p kind line fuel cap t writes text = elim (Bool-cases (ltb (length line) cap)) [
    | inl room ↦ (_, write_loop-room p kind line (suc fuel) cap t writes text (ground arith))
    | inr tight ↦
        let more = reserve-enough cap (length line + 1) in
        let t' = (api.writeline hosts_raw p cap kind t).1 in
        let small = (writes cap t).1 (ground arith) in
        let again =
          write_loop-room p kind line fuel (reserve cap (length line + 1)) t' writes text
            (omega arith) in
        (
          (api.writeline hosts_raw p (reserve cap (length line + 1)) kind t').1,
          rw (small.0, small.1) again,
        )
  ]

  -- Of a collection that stands still while it is walked, `write_string` of a host that is in it
  -- gives the whole line that libssh2 writes for the first equal node, however long it is, if the
  -- line is UTF-8 and libssh2 answers as it documents: the line if the buffer has room for it and
  -- a zero byte, and else BUFFER_TOO_SMALL with its length. One more round than there are hosts,
  -- and two at the least, are enough.
  pub write_string-Contains :
      (items : List (ℕ × Host)) (host : Host) (kind : KnownHostFileKind) (fuel p : ℕ) (line : Bytes)
      (s : S)
      → Contains api hosts_raw s items
      → length items < suc (suc fuel)
      → first (λ current. host_eq current host) items ≡ some p
      → WritesLine api hosts_raw p (file_kind_code kind) line
      → from_utf8 line ≡ some line
      → (t : S) × (write_string api hosts_raw (suc (suc fuel)) host kind s ≡ some (ok line, t))
  unfolding write_string written write_host
  write_string-Contains items host kind fuel p line s h enough there writes text =
      let found = resolve-Contains api hosts_raw s items host (suc (suc fuel)) h enough in
      let (t, run) =
        write_loop-line p (file_kind_code kind) line fuel initial_capacity s writes text in
      (t, rw (found, there) run)

  -- Of a collection that stands still while it is walked, `write_string` of a host that is not in
  -- it is refused with BAD_USE and changes nothing, with one more round than there are hosts.
  write_string-missing :
      (items : List (ℕ × Host)) (host : Host) (kind : KnownHostFileKind) (fuel : ℕ) (s : S)
      → Contains api hosts_raw s items
      → length items < fuel
      → first (λ current. host_eq current host) items ≡ none
      → write_string api hosts_raw fuel host kind s
        ≡ some (err (new error_bad_use "Host is not in the set of known hosts"), s)
  unfolding write_string written write_host
  write_string-missing items host kind fuel s h enough missing =
      let found = resolve-Contains api hosts_raw s items host fuel h enough in
      rw (found, missing) refl

  -- A check gives `Match` exactly if the host has no zero byte and libssh2 answers 0; it panics
  -- exactly if the host has a zero byte, and never gives an error.
  pub check_port-match :
      (host key : Bytes) (port : ℤ) (s : S)
      → (((check_port_ api hosts_raw host port key s).0 ≡ ok matched) ↔ (
          (has_nul host ≡ false) × ((api.checkp hosts_raw host port key check_flags s).0 ≡ pos 0)))
        × (((check_port_ api hosts_raw host port key s).0 ≡ panic) ↔ (has_nul host ≡ true))
        × ((e : Error) → (check_port_ api hosts_raw host port key s).0 ≢ err e)
  unfolding check_port_ check_name c_string check_result
  check_port-match host key port s =
      let n = (api.checkp hosts_raw host port key check_flags s).0 in
      ground (arith, ==ℤ_iff n (pos 0))
