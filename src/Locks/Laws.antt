-- ===== src/Locks/Laws.antt =====
-- The order in which src/ takes its mutexes, and threads that take turns.
use mathlib.Core.Path.{subst}
use ssh2_rs.Base.{
  ℕ, ◌≡◌, refl, Bool, true, false, Option, none, some, List, [], ◌∷◌, ◌++◌, All, map, arith,
}
use ssh2_rs.Locks.{
  Act, take_session, free_session, take_limit, free_limit, Call, unlocked, locks_session, seeks,
  streams, tests_eof, receives, closes_file, drops_file, drops_sftp, interacts, Quiet, acts_of,
  acts_of_all, Thread, begin, acted, Step, acts, Reach, here, later,
}

-- A thread that holds the session, or not, and a limit, or none, does the acts in order: it takes
-- what it does not hold, the session only while it holds no limit, frees what it holds, and holds
-- nothing at the end.
abbrev pub Ordered : Bool → Option ℕ → List Act → Type 0
Ordered s l [] = (s ≡ false) × (l ≡ none)
Ordered s l (take_session ∷ rest) = (s ≡ false) × (l ≡ none) × Ordered true l rest
Ordered s l (free_session ∷ rest) = (s ≡ true) × Ordered false l rest
Ordered s l (take_limit c ∷ rest) = (l ≡ none) × Ordered s (some c) rest
Ordered s l (free_limit c ∷ rest) = (l ≡ some c) × Ordered s none rest

Ordered-append :
    (s : Bool) (l : Option ℕ) (xs ys : List Act)
    → Ordered s l xs
    → Ordered false none ys
    → Ordered s l (xs ++ ys)
Ordered-append s l [] ys o o' = rw (o.0, o.1) o'
Ordered-append s l (take_session ∷ xs) ys o o' = (o.0, o.1, Ordered-append true l xs ys o.2 o')
Ordered-append s l (free_session ∷ xs) ys o o' = (o.0, Ordered-append false l xs ys o.1 o')
Ordered-append s l (take_limit c ∷ xs) ys o o' = (o.0, Ordered-append s (some c) xs ys o.1 o')
Ordered-append s l (free_limit c ∷ xs) ys o o' = (o.0, Ordered-append s none xs ys o.1 o')

acts_of-Ordered : (c : Call) → Quiet c → Ordered false none (acts_of c)
unfolding acts_of
acts_of-Ordered unlocked q = ground arith
acts_of-Ordered locks_session q = ground arith
acts_of-Ordered seeks q = ground arith
acts_of-Ordered (streams channel) q = ground arith
acts_of-Ordered (tests_eof channel) q = ground arith
acts_of-Ordered (receives channel) q = ground arith
acts_of-Ordered (closes_file true) q = ground arith
acts_of-Ordered (closes_file false) q = ground arith
acts_of-Ordered (drops_file true) q = ground arith
acts_of-Ordered (drops_file false) q = ground arith
acts_of-Ordered (drops_sftp true) q = ground arith
acts_of-Ordered (drops_sftp false) q = ground arith
acts_of-Ordered (interacts prompter) q = rw q (refl, refl, (refl, (refl, refl)))

acts_of_all-Ordered : (calls : List Call) → All Quiet calls → Ordered false none (acts_of_all calls)
unfolding acts_of_all
acts_of_all-Ordered [] q = (refl, refl)
acts_of_all-Ordered (c ∷ calls) (q, qs) =
    Ordered-append false none (acts_of c) (acts_of_all calls) (acts_of-Ordered c q)
      (acts_of_all-Ordered calls qs)

abbrev pub IsOrdered : Thread → Type 0
IsOrdered t = Ordered t.session t.limit t.rest

pub begin-IsOrdered :
    (calls : List (List Call)) → All (All Quiet) calls → All IsOrdered (map begin calls)
begin-IsOrdered [] q = tt
begin-IsOrdered (c ∷ calls) (q, qs) = (acts_of_all-Ordered c q, begin-IsOrdered calls qs)

acted-IsOrdered :
    (a : Act) (rest : List Act) (t : Thread)
    → Ordered t.session t.limit (a ∷ rest)
    → IsOrdered (acted a rest t)
acted-IsOrdered take_session rest t o = o.2
acted-IsOrdered free_session rest t o = o.1
acted-IsOrdered (take_limit c) rest t o = o.1
acted-IsOrdered (free_limit c) rest t o = o.1

All-replace :
    (P : Thread → Type 0) (before after : List Thread) (t t' : Thread)
    → (P t → P t')
    → All P (before ++ (t ∷ after))
    → All P (before ++ (t' ∷ after))
All-replace P [] after t t' f (p, rest) = (f p, rest)
All-replace P (b ∷ before) after t t' f (p, rest) = (p, All-replace P before after t t' f rest)

pub All-at :
    (P : Thread → Type 0) (before after : List Thread) (t : Thread)
    → All P (before ++ (t ∷ after))
    → P t
All-at P [] after t (p, rest) = p
All-at P (b ∷ before) after t (p, rest) = All-at P before after t rest

Step-IsOrdered :
    {before after : List Thread} {t : Thread} {ts ts' : List Thread}
    → Step before t after ts ts'
    → All IsOrdered ts
    → All IsOrdered ts'
Step-IsOrdered {before} {after} {t} (acts {a} {rest} e free) ordered =
    All-replace IsOrdered before after t (acted a rest t)
      (λ o. acted-IsOrdered a rest t (subst (Ordered t.session t.limit) e o)) ordered

pub Reach-IsOrdered :
    {start ts : List Thread} → All IsOrdered start → Reach start ts → All IsOrdered ts
Reach-IsOrdered ordered here = ordered
Reach-IsOrdered ordered (later reach step) = Step-IsOrdered step (Reach-IsOrdered ordered reach)
