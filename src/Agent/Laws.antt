-- ===== src/Agent/Laws.antt =====
-- The keys of an agent and the authentication with one of them, src/agent.rs.
use ssh2_rs.Base.{
  ℕ, ◌≡◌, refl, ◌<◌, Bool, true, false, Option, none, some, List, length, Bool-cases, inl, inr,
}
use ssh2_rs.Base.Text.{Bytes, has_nul}
use ssh2_rs.Sys.{error_bad_use}
use ssh2_rs.Errors.{new, Result, ok, err, nul_error, c_string}
use ssh2_rs.Errors.Session.{rc}
use ssh2_rs.Walk.{resume}
use ssh2_rs.Walk.Laws.{Holds, values, first, all_of-Holds, resolve-Holds}
use ssh2_rs.Agent.{
  PublicKey, key_eq, from_raw, identities, resolve_raw_identity, userauth, userauth_name,
  authenticate,
}
use ssh2_rs.Agent.Raw.{Api}

module _ {S : Type 0} (api : Api S) (agent_raw : ℕ) (s : S) where
  -- What the agent holds: the keys, by the pointers to them.
  abbrev pub Offers : List (ℕ × PublicKey) → Type 0
  Offers items =
      Holds (api.get_identity agent_raw) (λ p t. some (from_raw api agent_raw (api.node p t))) s
        none items

  -- Of an agent whose keys stand still while they are walked, `identities` gives every key, in
  -- order, with one more round than there are keys.
  pub identities-Offers :
      (items : List (ℕ × PublicKey)) (fuel : ℕ)
      → Offers items
      → length items < fuel
      → identities api agent_raw fuel s ≡ some (ok (values items), s)
  unfolding identities
  identities-Offers items fuel h enough = all_of-Holds api.session _ _ s items fuel none h enough

  resolve-Offers :
      (items : List (ℕ × PublicKey)) (identity : PublicKey) (fuel : ℕ)
      → Offers items
      → length items < fuel
      → resolve_raw_identity api agent_raw fuel identity s
        ≡ some (ok (first (λ this_ident. key_eq this_ident identity) items), s)
  unfolding resolve_raw_identity
  resolve-Offers items identity fuel h enough =
      resolve-Holds api.session _ _ s _ items fuel none h enough

  -- What an authentication does of a user name and of the key that was found.
  abbrev pub authenticated : Bool → Bytes → Option ℕ → Result (Unit {0}) × S
  authenticated true username found = (err nul_error, s)
  authenticated false username none = (err (new error_bad_use "Identity not found in agent"), s)
  authenticated false username (some p) =
      let (n, s') = api.userauth agent_raw username p s in rc api.session n s'

  -- Of an agent whose keys stand still while they are walked, with one more round than there are
  -- keys: a user name with a zero byte is refused as such; otherwise `userauth` gives the outcome
  -- of asking libssh2 to authenticate with the first key that is equal to the given one, and a
  -- key that the agent does not hold is refused with BAD_USE.
  pub userauth-Offers :
      (items : List (ℕ × PublicKey)) (identity : PublicKey) (username : Bytes) (fuel : ℕ)
      → Offers items
      → length items < fuel
      → userauth api agent_raw fuel username identity s
        ≡ some (
            authenticated
              (has_nul username)
              username
              (first (λ this_ident. key_eq this_ident identity) items))
  unfolding userauth userauth_name c_string authenticate resume
  userauth-Offers items identity username fuel h enough = elim (Bool-cases (has_nul username)) [
    | inl t ↦ rw t refl
    | inr f ↦
        rw (f, resolve-Offers items identity fuel h enough)
          (authenticate_once (first (λ this_ident. key_eq this_ident identity) items))
  ]
    where
      authenticate_once :
          (p : Option ℕ)
          → resume (some (ok p, s)) (authenticate api agent_raw username)
            ≡ some (authenticated false username p)
      authenticate_once none = refl
      authenticate_once (some p) = refl
