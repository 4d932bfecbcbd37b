-- ===== src/KnownHosts/BagTests.antt =====
-- A collection with room for one host, at pointer 4, and a program that fills and empties it.
use ssh2_rs.Base.{ℕ, ◌≡◌, refl, true, false, Option, none, some, List, [], ◌∷◌, ◌++◌, arith}
use ssh2_rs.Base.Int.{ℤ, pos, negsuc, is_nonneg}
use ssh2_rs.Base.Text.{Bytes, bytes}
use ssh2_rs.Codes.{KnownHostKeyFormat}
use ssh2_rs.Errors.Session.{Session}
use ssh2_rs.Walk.Laws.{values}
use ssh2_rs.KnownHosts.{Host, from_raw}
use ssh2_rs.KnownHosts.Raw.{Api}
use ssh2_rs.KnownHosts.Laws.{Contains}
use ssh2_rs.KnownHosts.Bag.{bag_of}
use ssh2_rs.KnownHosts.Programs.{
  Op, lists, adds, removes, Answers, run_hosts, Behaves, has, without, IsDistinct, Keeps, added,
}
use ssh2_rs.KnownHosts.Refinement.{run_hosts-Behaves}

-- The name of the host, if there is one.
abbrev Slot : Type 0
Slot = Option Bytes

abbrev key : Bytes
key = bytes "c3No"

abbrev key_text : Bytes → Bytes
key_text k = key

abbrev calm : Session Slot
calm = record {
  last_error = λ s. (pos 0, none);
  get_blocking = λ s. pos 1;
  set_blocking = λ b s. s;
}

abbrev get_slot : Option ℕ → Slot → (ℤ × ℕ) × Slot
get_slot none none = ((pos 1, 0), none)
get_slot none (some name) = ((pos 0, 4), some name)
get_slot (some p) s = ((pos 1, 0), s)

abbrev fill_slot : Bytes → Slot → ℤ × Slot
fill_slot name none = (pos 0, some name)
fill_slot name (some old) = (negsuc 5, some old)

abbrev slot : Api Slot
slot = record {
  session = calm;
  readfile = λ r path kind s. (pos 0, s);
  readline = λ r text kind s. (pos 0, s);
  writefile = λ r path kind s. (pos 0, s);
  writeline = λ r p cap kind s. ((pos 0, 0, []), s);
  get = λ r prev s. get_slot prev s;
  node = λ p s. record { name = s; key = some key };
  del = λ r p s. (pos 0, none);
  checkp = λ r name port k flags s. (pos 2, s);
  addc = λ r name k comment flags s. fill_slot name s;
  free = λ r s. none;
}

abbrev slot_nodes : Slot → List (ℕ × Host)
slot_nodes none = []
slot_nodes (some name) = (4, added key_text name key) ∷ []

slot-Contains : (s : Slot) → Contains slot 1 s (slot_nodes s)
unfolding from_raw
slot-Contains none = (refl, refl)
slot-Contains (some name) = (refl, refl, (refl, refl))

slot-IsDistinct : (s : Slot) → IsDistinct (slot_nodes s)
slot-IsDistinct none = tt
slot-IsDistinct (some name) = (refl, tt)

slot-Keeps : Keeps slot 1 key_text slot_nodes
slot-Keeps = record {
  walks = slot-Contains;
  distinct = slot-IsDistinct;
  deletes = deletes_lem;
  refuses = refuses_lem;
  adds = adds_lem;
}
  where
    deletes_lem :
        (s : Slot) (p : ℕ)
        → has p (slot_nodes s) ≡ true
        → (true ≡ true) × (slot_nodes none ≡ without p (slot_nodes s))
    deletes_lem none p there = cc
    deletes_lem (some name) p there = (refl, ground arith)

    refuses_lem :
        (s : Slot) (name k comment : Bytes) (flags : ℕ)
        → is_nonneg (fill_slot name s).0 ≡ false
        → slot_nodes (fill_slot name s).1 ≡ slot_nodes s
    refuses_lem none name k comment flags e = cc
    refuses_lem (some old) name k comment flags e = refl

    adds_lem :
        (s : Slot) (name k comment : Bytes) (flags : ℕ)
        → is_nonneg (fill_slot name s).0 ≡ true
        → (front : List (ℕ × Host)) × (back : List (ℕ × Host)) × (p : ℕ) × (slot_nodes s
            ≡ front ++ back)
          × (slot_nodes (fill_slot name s).1 ≡ front ++ ((p, added key_text name k) ∷ back))
    adds_lem none name k comment flags e = ([], [], 4, refl, refl)
    adds_lem (some old) name k comment flags e = cc

abbrev program : List Op
program =
    adds (bytes "a.org") [] [] KnownHostKeyFormat.ssh_rsa
    ∷ adds (bytes "b.org") [] [] KnownHostKeyFormat.ssh_rsa
    ∷ removes (added key_text (bytes "a.org") key)
    ∷ lists
    ∷ []

run_hosts-Behaves_example :
    (rs : Answers) × (s' : Slot) × (run_hosts slot 1 6 program none ≡ some (rs, s'))
    × Behaves key_text (bag_of []) program rs (bag_of (values (slot_nodes s')))
run_hosts-Behaves_example =
    run_hosts-Behaves slot 1 key_text slot_nodes slot-Keeps program 6 none (omega arith)
