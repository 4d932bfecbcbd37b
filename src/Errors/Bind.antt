-- ===== src/Errors/Bind.antt =====
-- A rule for the bind of calls: a property of every outcome, one case for each way in which the
-- first call ends.
use ssh2_rs.Base.{◌≡◌, refl, ap}
use ssh2_rs.Errors.{Error, Result, ok, err, panic, Call, ◌>>=◌}

module _ {S A B : Type 0} (P : Result B × S → Type 0) (m : Call S A) (f : A → Call S B)
    (s : S) where
  pub bind_rule :
      ((a : A) → (m s).0 ≡ ok a → P (f a (m s).1))
      → ((e : Error) → (m s).0 ≡ err e → P (err e, (m s).1))
      → ((m s).0 ≡ panic → P (panic, (m s).1))
      → P ((m >>= f) s)
  bind_rule good bad dead = go (m s).0 refl
    where
      go :
          (r : Result A)
          → (m s).0 ≡ r
          → P (elim r [ ok a ↦ f a (m s).1 | err e ↦ (err e, (m s).1) | panic ↦ (panic, (m s).1) ])
      go (ok a) e = good a e
      go (err x) e = bad x e
      go panic e = dead e

module _ {S A B : Type 0} (m : Call S A) (f : A → Call S B) where
  -- How the bind goes on from an outcome of the first call.
  abbrev go_on : Result A × S → Result B × S
  go_on o = elim o.0 [ ok a ↦ f a o.1 | err e ↦ (err e, o.1) | panic ↦ (panic, o.1) ]

  pub bind_ok : (s t : S) (a : A) → m s ≡ (ok a, t) → (m >>= f) s ≡ f a t
  bind_ok s t a e = ap go_on e

  pub bind_err : (s t : S) (x : Error) → m s ≡ (err x, t) → (m >>= f) s ≡ (err x, t)
  bind_err s t x e = ap go_on e
