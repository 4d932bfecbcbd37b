-- ===== src/Walk.antt =====
-- The loops that walk over a collection of libssh2: `KnownHosts::hosts` and `resolve_to_raw_host` of
-- src/knownhosts.rs, `Agent::identities` and `resolve_raw_identity` of src/agent.rs. They take fuel,
-- and `none` means that the fuel ran out.
pub mod Laws
use ssh2_rs.Base.{ℕ, zero, suc, Bool, true, false, Option, none, some, List, [], ◌∷◌, if◌then◌else◌}
use ssh2_rs.Base.Int.{ℤ, pos, ◌==ℤ◌}
use ssh2_rs.Errors.{Result, ok, err, panic, Call}
use ssh2_rs.Errors.Session.{Session, from_session_error_raw}

-- What a loop gives when it ends.
abbrev pub Outcome : Type 0 → Type 0 → Type 0
Outcome S A = Option (Result A × S)

-- `res.push(item)` before the rest of the walk; `none` for an item that panics.
unfoldable pub pushed : {S A : Type 0} → S → Option A → Outcome S (List A) → Outcome S (List A)
pushed s none rest = some (panic, s)
pushed s (some a) none = none
pushed s (some a) (some (ok items, s')) = some (ok (a ∷ items), s')
pushed s (some a) (some (err e, s')) = some (err e, s')
pushed s (some a) (some (panic, s')) = some (panic, s')

-- The walk goes on unless the item is the one looked for.
unfoldable pub compared :
    {S A : Type 0} → (A → Bool) → ℕ → S → Option A → Outcome S (Option ℕ) → Outcome S (Option ℕ)
compared same next s none rest = some (panic, s)
compared same next s (some a) rest = if same a then some (ok (some next), s) else rest

-- What follows a loop, with `?` on its result.
unfoldable pub resume : {S A B : Type 0} → Outcome S A → (A → Call S B) → Outcome S B
resume none k = none
resume (some (ok a, s)) k = some (k a s)
resume (some (err e, s)) k = some (err e, s)
resume (some (panic, s)) k = some (panic, s)

-- `?` on the result of a loop before another one.
unfoldable pub and_then : {S A B : Type 0} → Outcome S A → (A → S → Outcome S B) → Outcome S B
and_then none k = none
and_then (some (ok a, s)) k = k a s
and_then (some (err e, s)) k = some (err e, s)
and_then (some (panic, s)) k = some (panic, s)

-- `get prev` stores a pointer to the item after `prev`, to the first one after a null pointer, and
-- gives 0, or 1 at the end; `read` makes an item of the memory behind the pointer.
module _ {S A : Type 0} (session : Session S) (get : Option ℕ → S → (ℤ × ℕ) × S)
    (read : ℕ → S → Option A) where
  unfoldable pub all_of : ℕ → Option ℕ → S → Outcome S (List A)
  unfolding pushed
  all_of zero prev s = none
  all_of (suc fuel) prev s =
      let ((rc, next), s') = get prev s in
      let rest = all_of fuel (some next) s' in
      if rc ==ℤ pos 0
      then pushed s' (read next s') rest
      else if rc ==ℤ pos 1
      then some (ok [], s')
      else some (err (from_session_error_raw session rc s'), s')

  unfoldable pub resolve : (A → Bool) → ℕ → Option ℕ → S → Outcome S (Option ℕ)
  unfolding compared
  resolve same zero prev s = none
  resolve same (suc fuel) prev s =
      let ((rc, next), s') = get prev s in
      let rest = resolve same fuel (some next) s' in
      if rc ==ℤ pos 0
      then compared same next s' (read next s') rest
      else if rc ==ℤ pos 1
      then some (ok none, s')
      else some (err (from_session_error_raw session rc s'), s')
