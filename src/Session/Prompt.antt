-- ===== src/Session/Prompt.antt =====
-- src/session.rs, `userauth_keyboard_interactive`: what the callback writes into the responses that
-- libssh2 hands it, and `with_abstract`.
use ssh2_rs.Base.{
  ℕ, zero, suc, ◌%◌, ◌^◌, Bool, true, false, Option, none, some, List, [], ◌∷◌, ◌++◌, map, length,
  take,
}
use ssh2_rs.Base.Int.{ℤ, is_set}
use ssh2_rs.Base.Text.{Bytes}

pub record Prompt : Type 0 where
  pub text : Bytes
  pub echo : Bool

-- LIBSSH2_USERAUTH_KBDINT_PROMPT.
pub record RawPrompt : Type 0 where
  pub text : Bytes
  pub echo : ℤ

-- LIBSSH2_USERAUTH_KBDINT_RESPONSE: the memory that the text points to, a null pointer as `none`.
pub record Response : Type 0 where
  pub text : Option Bytes
  pub length : ℕ

-- What the callback needs of elsewhere: `String::from_utf8_lossy`, whether `malloc` gives this many
-- bytes, and the implementor `P` of `KeyboardInteractivePrompt`, whose `prompt` gives the answers,
-- `none` where it panics, and changes the implementor.
pub record Env (P : Type 0) : Type 0 where
  pub from_utf8_lossy : Bytes → Bytes
  pub malloc : ℕ → Bool
  pub prompt : P → Bytes → Bytes → List Prompt → Option (List Bytes) × P

-- `responses[i] = response`; `none` for a panic.
abbrev pub write_at : ℕ → Response → List Response → Option (List Response)
write_at i r [] = none
write_at zero r (old ∷ responses) = some (r ∷ responses)
write_at (suc i) r (old ∷ responses) = kept (write_at i r responses)
  where
    kept : Option (List Response) → Option (List Response)
    kept none = none
    kept (some rest) = some (old ∷ rest)

module _ {P : Type 0} (env : Env P) where
  unfoldable pub to_prompt : RawPrompt → Prompt
  to_prompt item = record { text = env.from_utf8_lossy item.text; echo = is_set item.echo }

  -- `strdup_string` and the two fields of a response.
  unfoldable pub to_response : Bytes → Response
  to_response s = elim (env.malloc (suc (length s))) [
    | true ↦ record { text = some (s ++ (0 ∷ [])); length = length s % 2 ^ 32 }
    | false ↦ record { text = none; length = 0 }
  ]

  -- The loop goes on with what was written; a panic is caught, and what was written stays.
  abbrev pub or_stop :
      Option (List Response) → List Response → (List Response → List Response) → List Response
  or_stop none responses rest = responses
  or_stop (some written) responses rest = rest written

  -- The `for` loop, from an index on.
  unfoldable pub fill : ℕ → List Bytes → List Response → List Response
  unfolding to_response
  fill i [] responses = responses
  fill i (answer ∷ answers) responses =
      or_stop (write_at i (to_response answer) responses) responses (fill (suc i) answers)

  -- What `catch_unwind` makes of the answers, of which as many are taken as there are prompts.
  unfoldable pub fill_taken : ℕ → Option (List Bytes) → List Response → List Response
  unfolding fill
  fill_taken n none responses = responses
  fill_taken n (some answers) responses = fill 0 (take n answers) responses

  -- The callback `prompt`, with the implementor behind the abstract pointer.
  unfoldable pub prompt : P → Bytes → Bytes → List RawPrompt → List Response → List Response × P
  unfolding to_prompt fill_taken
  prompt prompter username instruction prompts responses =
      let asked = map to_prompt prompts in
      let (answers, prompter') =
        env.prompt prompter (env.from_utf8_lossy username) (env.from_utf8_lossy instruction)
          asked in
      (fill_taken (length asked) answers responses, prompter')

-- `with_abstract`: `get` and `set` read and write the session's abstract pointer.
unfoldable pub with_abstract : {S A : Type 0} → (S → ℕ) → (ℕ → S → S) → ℕ → (S → A × S) → S → A × S
with_abstract get set new_value f s =
    let old_value = get s in let (res, s') = f (set new_value s) in (res, set old_value s')
