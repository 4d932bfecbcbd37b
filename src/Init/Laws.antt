-- ===== src/Init/Laws.antt =====
-- `init` of libssh2-sys/lib.rs, called any number of times.
use ssh2_rs.Base.{ℕ, zero, suc, ◌≡◌, refl, ap, ◌∙◌, List, [], ◌∷◌, arith}
use ssh2_rs.Base.{if◌then◌else◌}
use ssh2_rs.Base.Int.{pos, ◌==ℤ◌}
use ssh2_rs.Errors.{Result, ok, panic}
use ssh2_rs.Init.{
  incomplete, complete, poisoned, Process, Api, asserted, platform_init, registered, completed,
  first_time, call_once, init,
}

module _ {S : Type 0} (api : Api S) where
  -- `n` calls of `init`, with their outcomes.
  pub inits : ℕ → Process S → List (Result (Unit {0})) × Process S
  inits zero p = ([], p)
  inits (suc n) p = let (r, p') = init api p in let (rs, p'') = inits n p' in (r ∷ rs, p'')

  abbrev pub same : {A : Type 0} → ℕ → A → List A
  same zero a = []
  same (suc n) a = a ∷ same n a

  -- What `init` leaves behind is complete or poisoned, and a call on it gives the same outcome.
  abbrev Settled : Result (Unit {0}) × Process S → Type 0
  Settled (r, p) = init api p ≡ (r, p)

  init-Settled : (p : Process S) → p.once ≡ incomplete → Settled (init api p)
  unfolding init call_once first_time platform_init registered completed asserted
  init-Settled p fresh = ground arith

  repeated :
      (n : ℕ) (r : Result (Unit {0})) (p : Process S)
      → init api p ≡ (r, p)
      → inits n p ≡ (same n r, p)
  unfolding inits
  repeated zero r p e = refl
  repeated (suc n) r p e =
      ap (λ o. (o.0 ∷ (inits n o.1).0, (inits n o.1).1)) e
      ∙ ap (λ o. (r ∷ o.0, o.1)) (repeated n r p e)

  -- What the first call does to the system: the initialisation of OpenSSL, that of libssh2, and, if
  -- the code of that is 0, the registration of the clean-up; it is complete if both codes are 0.
  abbrev pub initialised : S → Result (Unit {0}) × Process S
  initialised s =
      let (n, s₁) = api.libssh2_init (api.openssl_init s) in
      let (m, s₂) = api.atexit s₁ in
      if n ==ℤ pos 0
      then (if m ==ℤ pos 0
          then (ok tt, record { once = complete; lib = s₂ })
          else (panic, record { once = poisoned; lib = s₂ }))
      else (panic, record { once = poisoned; lib = s₁ })

  init-initialised : (p : Process S) → p.once ≡ incomplete → init api p ≡ initialised p.lib
  unfolding init call_once first_time platform_init registered completed asserted
  init-initialised p fresh = ground arith

  -- However often `init` is called in a process in which it has not run, the system sees these calls
  -- once: OpenSSL is initialised, then libssh2, and if that gives 0 the clean-up is registered with
  -- `atexit`. Every call of `init` returns if both codes are 0, and every call panics if one is not.
  pub init-once :
      (n : ℕ) (p : Process S)
      → p.once ≡ incomplete
      → let (r, p') = initialised p.lib in inits (suc n) p ≡ (same (suc n) r, p')
  unfolding inits
  init-once n p fresh =
      let (r, p') = init api p in
      ap (λ o. (r ∷ o.0, o.1)) (repeated n r p' (init-Settled p fresh))
      ∙ ap (λ o. (same (suc n) o.0, o.1)) (init-initialised p fresh)
