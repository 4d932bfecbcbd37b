-- ===== src/Session/Keyboard.antt =====
-- src/session.rs, `userauth_keyboard_interactive`: the callback together with the call of libssh2
-- that makes the requests. `Env` and `prompt` stand in Session/Prompt.
use ssh2_rs.Base.{ℕ, Option, none, some, List, ◌==◌, if◌then◌else◌}
use ssh2_rs.Base.Int.{ℤ}
use ssh2_rs.Base.Text.{Bytes}
use ssh2_rs.Paths.Slices.{c_slice}
use ssh2_rs.Errors.{Result}
use ssh2_rs.Errors.Session.{Session, rc}
use ssh2_rs.Session.Prompt.{Env, RawPrompt, Response, prompt, with_abstract}

-- A run of `libssh2_userauth_keyboard_interactive_ex`: it returns a code, or it calls the callback
-- and goes on from the responses. Beside each stands the state of libssh2 at that time.
pub data Dialogue (S : Type 0) : Type 0 where
  returns : ℤ → S → Dialogue S
  asks :
      S → Bytes → Bytes → List RawPrompt → List Response → (List Response → Dialogue S) → Dialogue S

-- The calls of libssh2 that are made here; `get` and `set` read and write the abstract pointer.
pub record KeyboardApi (S : Type 0) : Type 0 where
  pub session : Session S
  pub get : S → ℕ
  pub set : ℕ → S → S
  pub userauth_keyboard_interactive_ex : Bytes → S → Dialogue S

module _ {S P : Type 0} (api : KeyboardApi S) (env : Env P) where
  -- The callback takes the abstract pointer for one to the prompter, which is at `place`; elsewhere
  -- nothing is known of what it would do, so the outcome is `none`.
  unfoldable pub converse : ℕ → P → Dialogue S → Option (ℤ × P × S)
  converse place prompter (returns n s) = some (n, prompter, s)
  converse place prompter (asks s username instruction prompts responses next) =
      let (written, prompter') = prompt env prompter username instruction prompts responses in
      let rest = converse place prompter' (next written) in
      if api.get s == place then rest else none

  unfoldable pub concluded : S → Option (ℤ × P × S) → Option (Result (Unit {0}) × P) × S
  concluded s none = (none, s)
  concluded s (some (n, prompter, s')) =
      let (r, s'') = rc api.session n s' in (some (r, prompter), s'')

  unfoldable pub userauth_keyboard_interactive :
      Bytes → ℕ → P → S → Option (Result (Unit {0}) × P) × S
  unfolding converse concluded
  userauth_keyboard_interactive username place prompter = with_abstract api.get api.set place λ s.
      concluded s
        (converse place prompter (api.userauth_keyboard_interactive_ex (c_slice username) s))
