-- ===== src/Agent.antt =====
-- src/agent.rs: the keys of an SSH agent.
pub mod Raw
pub mod Laws
pub mod Tests
use ssh2_rs.Base.{ℕ, Bool, ◌&&◌, Option, none, some, List, []}
use ssh2_rs.Base.Int.{ℤ}
use ssh2_rs.Base.Text.{Bytes, bytes_eq}
use ssh2_rs.Sys.{error_bad_use}
use ssh2_rs.Errors.{Error, unknown, new, Result, ok, err, panic, Call, raw, c_string, fail, ◌>>=◌}
use ssh2_rs.Errors.Session.{rc}
use ssh2_rs.Walk.{Outcome, all_of, resolve, resume}
use Raw.{Api, Node}

pub record PublicKey : Type 0 where
  pub blob : Bytes
  pub comment : Bytes

-- `#[derive(PartialEq)]` of `PublicKey`.
abbrev pub key_eq : PublicKey → PublicKey → Bool
key_eq a b = bytes_eq a.blob b.blob && bytes_eq a.comment b.comment

-- `Agent::from_raw_opt`: the handle of the agent.
unfoldable pub from_raw_opt : Option ℕ → Option Error → Result ℕ
from_raw_opt none none = err unknown
from_raw_opt none (some e) = err e
from_raw_opt (some p) e = ok p

module _ {S : Type 0} (api : Api S) (agent_raw : ℕ) where
  abbrev comment_of : Option Bytes → Bytes
  comment_of none = []
  comment_of (some c) = api.to_string_lossy c

  -- `PublicKey::from_raw`.
  unfoldable pub from_raw : Node → PublicKey
  from_raw raw = record { blob = raw.blob; comment = comment_of raw.comment }

  abbrev read : ℕ → S → Option PublicKey
  read p s = some (from_raw (api.node p s))

  unfoldable pub connect : Call S (Unit {0})
  unfolding rc
  connect = raw (api.connect agent_raw) >>= rc api.session

  unfoldable pub disconnect : Call S (Unit {0})
  unfolding rc
  disconnect = raw (api.disconnect agent_raw) >>= rc api.session

  unfoldable pub list_identities : Call S (Unit {0})
  unfolding rc
  list_identities = raw (api.list_identities agent_raw) >>= rc api.session

  unfoldable pub identities : ℕ → S → Outcome S (List PublicKey)
  identities fuel s = all_of api.session (api.get_identity agent_raw) read fuel none s

  unfoldable pub resolve_raw_identity : ℕ → PublicKey → S → Outcome S (Option ℕ)
  resolve_raw_identity fuel identity s =
      resolve api.session (api.get_identity agent_raw) read
        (λ this_ident. key_eq this_ident identity) fuel none s

  unfoldable pub authenticate : Bytes → Option ℕ → Call S (Unit {0})
  unfolding rc
  authenticate username none = fail (new error_bad_use "Identity not found in agent")
  authenticate username (some raw_ident) = do
    n ← raw (api.userauth agent_raw username raw_ident)
    rc api.session n

  unfoldable pub userauth_name : ℕ → Result Bytes → PublicKey → S → Outcome S (Unit {0})
  unfolding authenticate
  userauth_name fuel (ok username) identity s =
      resume (resolve_raw_identity fuel identity s) (authenticate username)
  userauth_name fuel (err e) identity s = some (err e, s)
  userauth_name fuel panic identity s = some (panic, s)

  unfoldable pub userauth : ℕ → Bytes → PublicKey → S → Outcome S (Unit {0})
  unfolding userauth_name c_string
  userauth fuel username identity s = userauth_name fuel (c_string username) identity s

  -- `Drop for Agent`.
  unfoldable pub drop : S → S
  drop s = api.free agent_raw s
