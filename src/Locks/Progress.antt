-- ===== src/Locks/Progress.antt =====
-- Threads that call into src/ do not block each other for good.
use ssh2_rs.Base.{◌≡◌, Bool, true, false, none, some, List, [], ◌∷◌, ◌++◌}
use ssh2_rs.Locks.{take_session, Thread, Free, Step}
use ssh2_rs.Locks.Laws.{All-at}

-- Some thread can do its next act.
abbrev pub CanStep : List Thread → Type 0
CanStep ts =
    (before : List Thread) × (t : Thread) × (after : List Thread) × (ts' : List Thread) × Step
      before t after ts ts'

-- The first thread that passes a test.
abbrev Split : (Thread → Bool) → List Thread → Type 0
Split p ts =
    (before : List Thread) × (t : Thread) × (after : List Thread) × (ts ≡ before ++ (t ∷ after))
    × (p t ≡ true)

abbrev holds_limit : Thread → Bool
holds_limit t = elim t.limit [ none ↦ false | some c ↦ true ]

abbrev is_unfinished : Thread → Bool
is_unfinished t = elim t.rest [ [] ↦ false | a ∷ rest ↦ true ]

-- A prompter that calls the session of its own authentication never comes back, whatever the other
-- threads do: a thread that holds the session and takes it again can never do so.
locked_out :
    (before after : List Thread) (t : Thread)
    → t.session ≡ true
    → Free take_session (before ++ (t ∷ after))
    → ⊥
locked_out before after t held free =
    absurd (cc (All-at (λ u. u.session ≡ false) before after t free))
