-- ===== src/Init.antt =====
-- libssh2-sys/lib.rs, `init`, which src/lib.rs passes on as `init`: libssh2 is initialised once for
-- the process, through `std::sync::Once`.
pub mod Laws
mod Tests
use ssh2_rs.Base.{ℕ}
use ssh2_rs.Base.Int.{ℤ, pos, ◌==ℤ◌}
use ssh2_rs.Base.{if◌then◌else◌}
use ssh2_rs.Errors.{Result, ok, panic, Call}

-- `Once`: its closure has not run, has returned, or has panicked, after which every `call_once`
-- panics.
pub data Once : Type 0 where
  incomplete complete poisoned : Once

pub record Process (S : Type 0) : Type 0 where
  pub once : Once
  pub lib : S

-- What is called on the system: `openssl_sys::init` (nothing on Windows), `libssh2_init` with the
-- flag of the platform, and `libc::atexit`.
pub record Api (S : Type 0) : Type 0 where
  pub openssl_init : S → S
  pub libssh2_init : S → ℤ × S
  pub atexit : S → ℤ × S

module _ {S : Type 0} (api : Api S) where
  -- `assert_eq!(code, 0)` in the closure.
  unfoldable pub asserted : ℤ → Call (Process S) (Unit {0})
  asserted n p = if n ==ℤ pos 0 then (ok tt, p) else (panic, record p { once = poisoned })

  unfoldable pub platform_init : Call (Process S) (Unit {0})
  unfolding asserted
  platform_init p =
      let (n, s) = api.libssh2_init (api.openssl_init p.lib) in asserted n (record p { lib = s })

  unfoldable pub registered : Result (Unit {0}) → Call (Process S) (Unit {0})
  unfolding asserted
  registered (ok u) p = let (n, s) = api.atexit p.lib in asserted n (record p { lib = s })
  registered r p = (r, p)

  unfoldable pub completed : Result (Unit {0}) → Call (Process S) (Unit {0})
  completed (ok u) p = (ok tt, record p { once = complete })
  completed r p = (r, p)

  -- The closure of `call_once`.
  unfoldable pub first_time : Call (Process S) (Unit {0})
  unfolding platform_init registered completed
  first_time p = let (r, p₁) = platform_init p in let (r', p₂) = registered r p₁ in completed r' p₂

  unfoldable pub call_once : Once → Call (Process S) (Unit {0})
  unfolding first_time
  call_once incomplete p = first_time p
  call_once complete p = (ok tt, p)
  call_once poisoned p = (panic, p)

  unfoldable pub init : Call (Process S) (Unit {0})
  unfolding call_once
  init p = call_once p.once p
