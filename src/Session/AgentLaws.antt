-- ===== src/Session/AgentLaws.antt =====
-- `Session::userauth_agent` of src/session.rs.
use ssh2_rs.Base.{ℕ, ◌≡◌, refl, ap, ◌∙◌, ◌<◌, true, false, some, List, ◌∷◌, length}
use ssh2_rs.Base.Text.{Bytes, bytes_eq_refl, has_nul}
use ssh2_rs.Errors.{ok, ◌>>◌}
use ssh2_rs.Errors.Bind.{bind_ok}
use ssh2_rs.Errors.Session.{rc}
use ssh2_rs.Walk.{Outcome, and_then}
use ssh2_rs.Walk.Laws.{values, first}
use ssh2_rs.Agent as Agent
use ssh2_rs.Agent.{PublicKey, key_eq, connect, list_identities, identities, userauth}
use ssh2_rs.Agent.Raw as AgentRaw
use ssh2_rs.Agent.Laws.{Offers, identities-Offers, userauth-Offers, authenticated}
use ssh2_rs.Session.Raw.{Api}
use ssh2_rs.Session.Open.{agent, auth_first, auth_with, agent_dropped, userauth_agent}

key_eq_refl : (k : PublicKey) → key_eq k k ≡ true
key_eq_refl k = rw (bytes_eq_refl k.blob, bytes_eq_refl k.comment) refl

module _ {S : Type 0} (api : Api S) (agents : AgentRaw.Api S) (s s1 s2 s3 : S) (handle : ℕ) where
  auth_with-first :
      (username : Bytes) (p : ℕ) (key : PublicKey) (rest : List (ℕ × PublicKey)) (fuel : ℕ)
      → connect agents handle s1 ≡ (ok tt, s2)
      → list_identities agents handle s2 ≡ (ok tt, s3)
      → Offers agents handle s3 ((p, key) ∷ rest)
      → length ((p, key) ∷ rest) < fuel
      → has_nul username ≡ false
      → let (n, t) = agents.userauth handle username p s3 in
        auth_with api agents fuel username handle s1 ≡ some (rc agents.session n t)
  unfolding auth_with auth_first and_then
  auth_with-first username p key rest fuel connects lists h enough clean =
      ap (λ o. and_then (some o) walk) both
      ∙ ap (λ o. and_then o (auth_first api agents fuel username handle)) keys
      ∙ auth
      ∙ rw (clean, key_eq_refl key) refl
    where
      walk : Unit {0} → S → Outcome S (Unit {0})
      walk _ t =
          and_then (identities agents handle fuel t) (auth_first api agents fuel username handle)

      both : (connect agents handle >> list_identities agents handle) s1 ≡ (ok tt, s3)
      both =
          bind_ok (connect agents handle) (λ _. list_identities agents handle) s1 s2 tt connects
          ∙ lists

      keys : identities agents handle fuel s3 ≡ some (ok (key ∷ values rest), s3)
      keys = identities-Offers agents handle s3 ((p, key) ∷ rest) fuel h enough

      auth :
          userauth agents handle fuel username key s3
          ≡ some (
              authenticated agents handle s3
                (has_nul username)
                username
                (first (λ k. key_eq k key) ((p, key) ∷ rest)))
      auth = userauth-Offers agents handle s3 ((p, key) ∷ rest) key username fuel h enough

  -- Where an agent opens, connects and lists its keys, which stand still while they are walked
  -- and are at least one, `userauth_agent` with a user name without a zero byte gives the outcome
  -- of asking libssh2 to authenticate with the first key, and frees the agent after it; one more
  -- round than there are keys is enough.
  pub userauth_agent-first :
      (username : Bytes) (p : ℕ) (key : PublicKey) (rest : List (ℕ × PublicKey)) (fuel : ℕ)
      → agent api s ≡ (ok handle, s1)
      → connect agents handle s1 ≡ (ok tt, s2)
      → list_identities agents handle s2 ≡ (ok tt, s3)
      → Offers agents handle s3 ((p, key) ∷ rest)
      → length ((p, key) ∷ rest) < fuel
      → has_nul username ≡ false
      → let (n, t) = agents.userauth handle username p s3 in
        let (r, u) = rc agents.session n t in
        userauth_agent api agents fuel username s ≡ some (r, Agent.drop agents handle u)
  unfolding userauth_agent agent_dropped and_then
  userauth_agent-first username p key rest fuel opens connects lists h enough clean =
      let inside = auth_with-first username p key rest fuel connects lists h enough clean in
      ap (λ o. and_then (some o) use_agent) opens
      ∙ ap (agent_dropped api agents fuel username handle) inside
    where
      use_agent : ℕ → S → Outcome S (Unit {0})
      use_agent h' t =
          agent_dropped api agents fuel username h' (auth_with api agents fuel username h' t)
