-- ===== src/Objects/Monitor.antt =====
-- The order in which libssh2 accepts the calls that make, use and free its pointers, from its
-- documentation: a pointer is made and used while the session is there, it is freed once and not
-- used after, and the session is freed once, when all that was made from it has been freed.
use ssh2_rs.Base.{
  ℕ, Bool, true, false, ◌&&◌, Option, none, some, List, [], ◌∷◌, ◌==◌, if◌then◌else◌,
}
use ssh2_rs.Objects.{Kind, same, Event, session_init, session_free, made, used, freed, Block}

-- Whether the session is there, and the pointers that have been made and not freed.
pub record Alive : Type 0 where
  pub session : Bool
  pub pointers : List (Kind × ℕ)

abbrev pub has : Kind → ℕ → List (Kind × ℕ) → Bool
has kind raw [] = false
has kind raw ((k, r) ∷ pointers) = if same k kind && (r == raw) then true else has kind raw pointers

abbrev pub without : Kind → ℕ → List (Kind × ℕ) → List (Kind × ℕ)
without kind raw [] = []
without kind raw ((k, r) ∷ pointers) =
    if same k kind && (r == raw) then pointers else (k, r) ∷ without kind raw pointers

abbrev pub is_empty : List (Kind × ℕ) → Bool
is_empty [] = true
is_empty (p ∷ pointers) = false

-- `none`: a call that must not be made.
abbrev pub check : Event → Option Alive → Option Alive
check session_init none = some (record { session = true; pointers = [] })
check session_init (some a) = none
check e none = none
check session_free (some a) =
    if a.session && is_empty a.pointers then some (record a { session = false }) else none
check (made kind raw) (some a) =
    if a.session then some (record a { pointers = (kind, raw) ∷ a.pointers }) else none
check (used kind raw) (some a) = if a.session && has kind raw a.pointers then some a else none
check (freed kind raw) (some a) =
    if a.session && has kind raw a.pointers
    then some (record a { pointers = without kind raw a.pointers })
    else none

-- The calls, the latest first, of which the first must be `session_init`.
abbrev pub watch : List Event → Option Alive
watch [] = none
watch (e ∷ earlier) = check e (watch earlier)

abbrev pub pointers_of : List Block → List (Kind × ℕ)
pointers_of [] = []
pointers_of (b ∷ blocks) = (b.kind, b.raw) ∷ pointers_of blocks
