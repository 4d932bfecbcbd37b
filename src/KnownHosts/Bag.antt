-- ===== src/KnownHosts/Bag.antt =====
-- A collection of known hosts without its order: what it holds, and how often. Two hosts are the
-- same if `PartialEq` of src/knownhosts.rs says so.
use mathlib.Core.Quot
use mathlib.Core.Quot.{Quot, Quot-set}
use ssh2_rs.Base.{
  ℕ, ◌+◌, ◌-◌, ◌≡◌, refl, sym, ap, ◌∙◌, inl, inr, true, false, none, some, List, [], ◌∷◌, ◌++◌,
  Option, arith, Bool-cases, if◌then◌else◌,
}
use ssh2_rs.Base.Text.{Bytes, bytes_eq→eq, bytes_eq_refl}
use ssh2_rs.KnownHosts.{Host, name_eq, host_eq}

pub host_eq_refl : (h : Host) → host_eq h h ≡ true
host_eq_refl h = rw (name_refl h.name, bytes_eq_refl h.key) refl
  where
    name_refl : (n : Option Bytes) → name_eq n n ≡ true
    name_refl none = refl
    name_refl (some b) = bytes_eq_refl b

pub host_eq→eq : (a b : Host) → host_eq a b ≡ true → a ≡ b
host_eq→eq a b h = ground (arith, name_same a.name b.name, bytes_eq→eq a.key b.key)
  where
    name_same : (m n : Option Bytes) → name_eq m n ≡ true → m ≡ n
    name_same none none e = refl
    name_same none (some y) e = cc
    name_same (some x) none e = cc
    name_same (some x) (some y) e = ap some (bytes_eq→eq x y e)

-- How often a host is listed.
abbrev pub count : Host → List Host → ℕ
count h [] = 0
count h (x ∷ xs) = (if host_eq x h then 1 else 0) + count h xs

pub count-append : (h : Host) (xs ys : List Host) → count h (xs ++ ys) ≡ count h xs + count h ys
count-append h [] ys = omega arith
count-append h (x ∷ xs) ys = omega (arith, count-append h xs ys)

-- The list without the first host that is the same.
abbrev pub drop_one : Host → List Host → List Host
drop_one h [] = []
drop_one h (x ∷ xs) = if host_eq x h then xs else x ∷ drop_one h xs

count-drop_one :
    (g h : Host) (xs : List Host)
    → count g (drop_one h xs) ≡ (if host_eq h g then count g xs - 1 else count g xs)
count-drop_one g h [] = ground arith
count-drop_one g h (x ∷ xs) = elim (Bool-cases (host_eq x h)) [
  | inl same ↦ rw (host_eq→eq x h same) (ground (arith, host_eq_refl h))
  | inr other ↦ elim (Bool-cases (host_eq h g)) [
    | inl same ↦
        let elsewhere : host_eq x g ≡ false = ap (host_eq x) (sym (host_eq→eq h g same)) ∙ other in
        rw (other, same, elsewhere) (ground (arith, count-drop_one g h xs))
    | inr distinct ↦ rw (other, distinct) (ground (arith, count-drop_one g h xs))
  ]
]

-- Two lists hold the same hosts, as often.
abbrev pub SameHosts : List Host → List Host → Type 0
SameHosts xs ys = (h : Host) → count h xs ≡ count h ys

abbrev pub Bag : Type 0
Bag = Quot SameHosts

abbrev pub bag_of : List Host → Bag
bag_of = Quot.mk

pub put : Host → Bag → Bag
put h =
    Quot.lift Quot-set (λ xs. bag_of (h ∷ xs)) λ xs ys same. Quot.sound λ g. omega (arith, same g)

drop_one-SameHosts :
    (h : Host) (xs ys : List Host) → SameHosts xs ys → SameHosts (drop_one h xs) (drop_one h ys)
drop_one-SameHosts h xs ys same g =
    ground (arith, count-drop_one g h xs, count-drop_one g h ys, same g)

-- One occurrence less, if there is one.
pub take_out : Host → Bag → Bag
take_out h =
    Quot.lift Quot-set (λ xs. bag_of (drop_one h xs))
      λ xs ys same. Quot.sound (drop_one-SameHosts h xs ys same)

pub put-bag_of : (h : Host) (xs : List Host) → put h (bag_of xs) ≡ bag_of (h ∷ xs)
unfolding put
put-bag_of h xs = refl

pub take_out-bag_of : (h : Host) (xs : List Host) → take_out h (bag_of xs) ≡ bag_of (drop_one h xs)
unfolding take_out
take_out-bag_of h xs = refl

-- Where a host is put does not matter.
pub put-between :
    (h : Host) (xs ys : List Host) → bag_of (xs ++ (h ∷ ys)) ≡ put h (bag_of (xs ++ ys))
unfolding put
put-between h xs ys =
    Quot.sound λ g. omega (arith, count-append g xs (h ∷ ys), count-append g xs ys)

-- The bag knows how often it holds a host.
pub occurrences : Host → Bag → ℕ
occurrences h = Quot.lift (hlevel) (count h) λ xs ys same. same h

-- A host that was put in and taken out again leaves the bag as it was.
take_out-put : (h : Host) (b : Bag) → take_out h (put h b) ≡ b
unfolding take_out put
take_out-put h = Quot.ind (λ b. Quot-set _ _) λ xs. rw (host_eq_refl h) refl
