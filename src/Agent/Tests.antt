-- ===== src/Agent/Tests.antt =====
-- An agent with one key, at pointer 4.
use ssh2_rs.Base.{ℕ, ◌≡◌, refl, none, some, List, [], ◌∷◌, arith}
use ssh2_rs.Base.Int.{ℤ, pos}
use ssh2_rs.Base.Text.{Bytes, has_nul}
use ssh2_rs.Errors.{ok}
use ssh2_rs.Errors.Session.{Session, rc}
use ssh2_rs.Agent.{PublicKey, from_raw, userauth}
use ssh2_rs.Agent.Raw.{Api}
use ssh2_rs.Agent.Laws.{Offers, userauth-Offers}

abbrev pub idle : Session ℤ
idle = record { last_error = λ s. (pos 0, none); get_blocking = λ s. s; set_blocking = λ b s. b }

abbrev pub public_key : PublicKey
public_key = record { blob = 1 ∷ 2 ∷ []; comment = [] }

abbrev pub one_key : Api ℤ
one_key = record {
  session = idle;
  connect = λ r s. (pos 0, s);
  disconnect = λ r s. (pos 0, s);
  list_identities = λ r s. (pos 0, s);
  get_identity = λ r prev s. elim prev [ none ↦ ((pos 0, 4), s) | some p ↦ ((pos 1, 0), s) ];
  node = λ p s. record { blob = 1 ∷ 2 ∷ []; comment = none };
  userauth = λ r name p s. (pos 0, pos 1);
  free = λ r s. s;
  to_string_lossy = λ b. b;
}

abbrev pub items : List (ℕ × PublicKey)
items = (4, public_key) ∷ []

one_key-Offers : Offers one_key 3 (pos 0) items
unfolding from_raw
one_key-Offers = (refl, refl, (refl, refl))

abbrev pub root : Bytes
root = 114 ∷ []

userauth-Offers_example : userauth one_key 3 2 root public_key (pos 0) ≡ some (ok tt, pos 1)
unfolding has_nul rc
userauth-Offers_example =
    userauth-Offers one_key 3 (pos 0) items public_key root 2 one_key-Offers (omega arith)
