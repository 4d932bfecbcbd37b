-- ===== src/Locks/Work.antt =====
-- How much threads have left to do, and how much they have done.
use ssh2_rs.Base.{ℕ, suc, ◌+◌, ◌≡◌, refl, ap, List, [], ◌∷◌, ◌++◌, length, arith}
use ssh2_rs.Locks.{
  Act, take_session, free_session, take_limit, free_limit, Thread, acted, Step, acts, Reach, here,
  later,
}

-- The acts that the threads have before them.
unfoldable pub work : List Thread → ℕ
work [] = 0
work (t ∷ ts) = length t.rest + work ts

-- How many acts a run has made.
unfoldable pub steps : {start ts : List Thread} → Reach start ts → ℕ
steps here = 0
steps (later run step) = suc (steps run)

work-++ :
    (before : List Thread) (t : Thread) (after : List Thread)
    → work (before ++ (t ∷ after)) ≡ length t.rest + (work before + work after)
unfolding work
work-++ [] t after = omega arith
work-++ (u ∷ before) t after = let rest = work-++ before t after in omega (arith, rest)

rest-acted : (a : Act) (rest : List Act) (t : Thread) → (acted a rest t).rest ≡ rest
rest-acted take_session rest t = refl
rest-acted free_session rest t = refl
rest-acted (take_limit c) rest t = refl
rest-acted (free_limit c) rest t = refl

-- A step is one act.
pub Step-work :
    {before : List Thread} {t : Thread} {after ts ts' : List Thread}
    → Step before t after ts ts'
    → work ts ≡ suc (work ts')
Step-work {before} {t} {after} (acts {a} {rest} e free) =
    let whole = work-++ before t after in
    let left = work-++ before (acted a rest t) after in
    let taken = ap length e in
    let kept = ap length (rest-acted a rest t) in omega (arith, whole, left, taken, kept)

-- What is done and what is left is all there was.
pub Reach-work : {start ts : List Thread} (run : Reach start ts) → steps run + work ts ≡ work start
unfolding steps
Reach-work here = omega arith
Reach-work (later run step) = let sum = Reach-work run in let one = Step-work step in omega arith
