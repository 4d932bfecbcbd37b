-- ===== src/KnownHosts/Programs.antt =====
-- Programs that list, add and remove known hosts, src/knownhosts.rs: what they see, and what a bag of
-- hosts would let them see.
use ssh2_rs.Base.{
  ℕ, ◌≡◌, ◌==◌, ◌||◌, Bool, true, false, none, some, Option, List, [], ◌∷◌, ◌++◌, if◌then◌else◌,
}
use ssh2_rs.Base.Int.{is_nonneg}
use ssh2_rs.Base.Text.{Bytes, has_nul, from_utf8}
use ssh2_rs.Codes.{KnownHostKeyFormat}
use ssh2_rs.Errors.{nul_error, Result, ok, err, panic}
use ssh2_rs.Walk.{Outcome}
use ssh2_rs.KnownHosts.{Host, hosts, add, remove}
use ssh2_rs.KnownHosts.Raw.{Api}
use ssh2_rs.KnownHosts.Laws.{Contains}
use ssh2_rs.KnownHosts.Bag.{Bag, bag_of, put, take_out}

pub data Op : Type 0 where
  lists : Op
  adds : Bytes → Bytes → Bytes → KnownHostKeyFormat → Op
  removes : Host → Op

pub data Answer : Type 0 where
  listed : List Host → Answer
  done : Answer

-- The answers of a program, one for each call that was made: an error does not end it.
abbrev pub Answers : Type 0
Answers = List (Result Answer)

abbrev pub answered : {A : Type 0} → (A → Answer) → Result A → Result Answer
answered f (ok a) = ok (f a)
answered f (err e) = err e
answered f panic = panic

abbrev pub outcome : {S A : Type 0} → (A → Answer) → Outcome S A → Option (Result Answer × S)
outcome f none = none
outcome f (some (r, s)) = some (answered f r, s)

abbrev pub before : {S : Type 0} → Result Answer → Option (Answers × S) → Option (Answers × S)
before r none = none
before r (some (rs, s)) = some (r ∷ rs, s)

abbrev pub then_run :
    {S : Type 0} → Option (Result Answer × S) → (S → Option (Answers × S)) → Option (Answers × S)
then_run none rest = none
then_run (some (r, s)) rest = before r (rest s)

module _ {S : Type 0} (api : Api S) (hosts_raw fuel : ℕ) where
  unfoldable pub perform : Op → S → Option (Result Answer × S)
  perform lists s = outcome listed (hosts api hosts_raw fuel s)
  perform (adds host key comment fmt) s =
      outcome (λ _. done) (some (add api hosts_raw host key comment fmt s))
  perform (removes host) s = outcome (λ _. done) (remove api hosts_raw fuel host s)

  unfoldable pub run_hosts : List Op → S → Option (Answers × S)
  unfolding perform
  run_hosts [] s = some ([], s)
  run_hosts (op ∷ ops) s = then_run (perform op s) (run_hosts ops)

-- What a bag of hosts allows: `key_text key` is how libssh2 writes an added key, in base64.
module _ (key_text : Bytes → Bytes) where
  abbrev pub added : Bytes → Bytes → Host
  added host key = record { name = from_utf8 host; key = key_text key }

  -- The list has what the bag holds, in some order; adding puts one host in, or fails and changes
  -- nothing, as it does for a name with a zero byte; removing takes one occurrence out.
  abbrev pub Allows : Bag → Op → Result Answer → Bag → Type 0
  Allows b lists (ok (listed hosts)) b' = (bag_of hosts ≡ b) × (b' ≡ b)
  Allows b lists (ok done) b' = ⊥
  Allows b (adds host key comment fmt) (ok done) b' =
      (has_nul host ≡ false) × (b' ≡ put (added host key) b)
  Allows b (adds host key comment fmt) (ok (listed hosts)) b' = ⊥
  Allows b (adds host key comment fmt) (err e) b' = (has_nul host ≡ true → e ≡ nul_error) × (b' ≡ b)
  Allows b (removes host) (ok done) b' = b' ≡ take_out host b
  Allows b (removes host) (ok (listed hosts)) b' = ⊥
  Allows b op (err e) b' = ⊥
  Allows b op panic b' = ⊥

  abbrev pub Behaves : Bag → List Op → Answers → Bag → Type 0
  Behaves b [] [] b' = b' ≡ b
  Behaves b [] (r ∷ rs) b' = ⊥
  Behaves b (op ∷ ops) [] b' = ⊥
  Behaves b (op ∷ ops) (r ∷ rs) b'' = (b' : Bag) × Allows b op r b' × Behaves b' ops rs b''

-- Nodes by the pointers to them.
abbrev pub has : ℕ → List (ℕ × Host) → Bool
has p [] = false
has p ((q, h) ∷ items) = (q == p) || has p items

abbrev pub without : ℕ → List (ℕ × Host) → List (ℕ × Host)
without p [] = []
without p ((q, h) ∷ items) = if q == p then items else (q, h) ∷ without p items

abbrev pub IsDistinct : List (ℕ × Host) → Type 0
IsDistinct [] = Unit
IsDistinct ((p, h) ∷ items) = (has p items ≡ false) × IsDistinct items

-- libssh2's documented part, for the nodes that a collection has in a state: a walk passes them and
-- changes nothing, a deletion of one of them takes that node out, and an addition either puts one
-- more node somewhere or fails and changes nothing.
pub record Keeps {S : Type 0} (api : Api S) (hosts_raw : ℕ) (key_text : Bytes → Bytes)
    (nodes : S → List (ℕ × Host)) : Type 0 where
  pub walks : (s : S) → Contains api hosts_raw s (nodes s)
  pub distinct : (s : S) → IsDistinct (nodes s)
  pub deletes :
      (s : S) (p : ℕ)
      → has p (nodes s) ≡ true
      → (is_nonneg (api.del hosts_raw p s).0 ≡ true)
        × (nodes (api.del hosts_raw p s).1 ≡ without p (nodes s))
  pub refuses :
      (s : S) (name key comment : Bytes) (flags : ℕ)
      → is_nonneg (api.addc hosts_raw name key comment flags s).0 ≡ false
      → nodes (api.addc hosts_raw name key comment flags s).1 ≡ nodes s
  pub adds :
      (s : S) (name key comment : Bytes) (flags : ℕ)
      → is_nonneg (api.addc hosts_raw name key comment flags s).0 ≡ true
      → (front : List (ℕ × Host)) × (back : List (ℕ × Host)) × (p : ℕ) × (nodes s ≡ front ++ back)
        × (nodes (api.addc hosts_raw name key comment flags s).1
            ≡ front ++ ((p, added key_text name key) ∷ back))
