-- ===== src/Session/KeyboardLaws.antt =====
-- The keyboard-interactive authentication of src/session.rs as a conversation.
use ssh2_rs.Base.{
  ℕ, ◌≡◌, refl, ap, ◌∙◌, Option, none, some, List, map, length, ==_iff, if◌then◌else◌,
}
use ssh2_rs.Base.Int.{ℤ}
use ssh2_rs.Base.Text.{Bytes}
use ssh2_rs.Paths.Slices.{c_slice}
use ssh2_rs.Errors.Session.{rc}
use ssh2_rs.Session.Prompt.{Env, RawPrompt, Response, prompt, to_prompt, with_abstract}
use ssh2_rs.Session.PromptLaws.{answered_if, prompt-answered}
use ssh2_rs.Session.Keyboard.{
  Dialogue, returns, asks, KeyboardApi, converse, concluded, userauth_keyboard_interactive,
}

module _ {S P : Type 0} (env : Env P) where
  -- The conversation of a prompter with libssh2, to the prompter after it, the code and the state
  -- of libssh2: each request reaches the prompter, once and in order, and libssh2 goes on from the
  -- prompter's answers.
  pub data Talks (last : P) (n : ℤ) (t : S) : P → Dialogue S → Type 0 where
    ends : Talks last n t last (returns n t)
    replies :
        {prompter prompter' : P} {s : S} {username instruction : Bytes} {prompts : List RawPrompt}
        {responses : List Response} {next : List Response → Dialogue S}
        (answers : Option (List Bytes))
        → env.prompt prompter
            (env.from_utf8_lossy username)
            (env.from_utf8_lossy instruction)
            (map (to_prompt env) prompts)
          ≡ (answers, prompter')
        → Talks last n t prompter' (next (answered_if env answers responses))
        → Talks last n t prompter (asks s username instruction prompts responses next)

  -- What libssh2 documents: it leaves the abstract pointer to the application, and hands the
  -- callback as many responses as prompts.
  abbrev pub Keeps : KeyboardApi S → ℕ → Dialogue S → Type 0
  Keeps api place (returns n s) = Unit
  Keeps api place (asks s username instruction prompts responses next) =
      (api.get s ≡ place)
      × (length prompts ≡ length responses)
      × ((written : List Response) → Keeps api place (next written))

module _ {S P : Type 0} (api : KeyboardApi S) (env : Env P) where
  converse-Talks :
      (place : ℕ) (prompter : P) (d : Dialogue S)
      → Keeps env api place d
      → (last : P) × (n : ℤ) × (t : S) × (converse api env place prompter d ≡ some (n, last, t))
        × Talks env last n t prompter d
  unfolding converse
  converse-Talks place prompter (returns n s) keeps = (prompter, n, s, refl, ends)
  converse-Talks place prompter (asks s username instruction prompts responses next) keeps =
      let (here, sizes, later) = keeps in
      let (answers, prompter') =
        env.prompt prompter (env.from_utf8_lossy username) (env.from_utf8_lossy instruction)
          (map (to_prompt env) prompts) in
      let written = prompt-answered env prompter username instruction prompts responses sizes in
      let asked = prompt env prompter username instruction prompts responses in
      let (last, n, t, e, talk) =
        converse-Talks place prompter' (next (answered_if env answers responses)) (later _) in
      (
        last,
        n,
        t,
        ap (λ b. if b then converse api env place asked.1 (next asked.0) else none)
              ((==_iff (api.get s) place).1 here)
            ∙ ap (λ o. converse api env place o.1 (next o.0)) written
            ∙ e,
        replies answers refl talk,
      )

  -- Where libssh2 leaves the abstract pointer alone and hands the callback as many responses as
  -- prompts, and what is written to the pointer can be read back: the prompter that was passed, and
  -- no other, is asked each request of libssh2 once, in order, and libssh2 goes on from its
  -- answers; the result is that of libssh2's code, and the abstract pointer is what it was before.
  pub keyboard_interactive-Talks :
      (username : Bytes) (place : ℕ) (prompter : P) (s : S)
      → ((v : ℕ) (t : S) → api.get (api.set v t) ≡ v)
      → Keeps env api place
          (api.userauth_keyboard_interactive_ex (c_slice username) (api.set place s))
      → (last : P) × (n : ℤ) × (t : S) × Talks env last n t prompter
          (api.userauth_keyboard_interactive_ex (c_slice username) (api.set place s))
        × (let (o, s') = userauth_keyboard_interactive api env username place prompter s in
            (o ≡ some ((rc api.session n t).0, last)) × (api.get s' ≡ api.get s))
  unfolding userauth_keyboard_interactive with_abstract concluded
  keyboard_interactive-Talks username place prompter s law keeps =
      let d = api.userauth_keyboard_interactive_ex (c_slice username) (api.set place s) in
      let (last, n, t, e, talk) = converse-Talks place prompter d keeps in
      (last, n, t, talk, (ap (λ o. (concluded api env (api.set place s) o).0) e, law (api.get s) _))
