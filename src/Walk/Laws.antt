-- ===== src/Walk/Laws.antt =====
-- The walks over a collection that does not change while they run.
use ssh2_rs.Base.{
  ℕ, zero, suc, ◌≡◌, refl, ◌<◌, Bool, Option, none, some, List, [], ◌∷◌, length, arith,
  if◌then◌else◌,
}
use ssh2_rs.Base.Int.{ℤ, pos}
use ssh2_rs.Errors.{ok}
use ssh2_rs.Errors.Session.{Session}
use ssh2_rs.Walk.{all_of, resolve}

module _ {S A : Type 0} (get : Option ℕ → S → (ℤ × ℕ) × S) (read : ℕ → S → Option A) (s : S) where
  -- From `prev` on, the collection holds these items, by the pointers to them.
  abbrev pub Holds : Option ℕ → List (ℕ × A) → Type 0
  Holds prev [] = ((get prev s).0.0 ≡ pos 1) × ((get prev s).1 ≡ s)
  Holds prev ((p, a) ∷ items) =
      (get prev s ≡ ((pos 0, p), s)) × (read p s ≡ some a) × Holds (some p) items

abbrev pub values : {A : Type 0} → List (ℕ × A) → List A
values [] = []
values ((p, a) ∷ items) = a ∷ values items

-- The pointer to the first item that is the one looked for.
abbrev pub first : {A : Type 0} → (A → Bool) → List (ℕ × A) → Option ℕ
first same [] = none
first same ((p, a) ∷ items) = if same a then some p else first same items

module _ {S A : Type 0} (session : Session S) (get : Option ℕ → S → (ℤ × ℕ) × S)
    (read : ℕ → S → Option A) (s : S) where
  pub all_of-Holds :
      (items : List (ℕ × A)) (fuel : ℕ) (prev : Option ℕ)
      → Holds get read s prev items
      → length items < fuel
      → all_of session get read fuel prev s ≡ some (ok (values items), s)
  unfolding all_of
  all_of-Holds items zero prev h enough = absurd (omega arith)
  all_of-Holds [] (suc fuel) prev h enough = ground arith
  all_of-Holds ((p, a) ∷ items) (suc fuel) prev h enough =
      rw (h.0, h.1, all_of-Holds items fuel (some p) h.2 (omega arith)) refl

  pub resolve-Holds :
      (same : A → Bool) (items : List (ℕ × A)) (fuel : ℕ) (prev : Option ℕ)
      → Holds get read s prev items
      → length items < fuel
      → resolve session get read same fuel prev s ≡ some (ok (first same items), s)
  unfolding resolve
  resolve-Holds same items zero prev h enough = absurd (omega arith)
  resolve-Holds same [] (suc fuel) prev h enough = ground arith
  resolve-Holds same ((p, a) ∷ items) (suc fuel) prev h enough =
      let later = resolve-Holds same items fuel (some p) h.2 (omega arith) in
      rw (h.0, h.1) (ground arith)
