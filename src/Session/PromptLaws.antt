-- ===== src/Session/PromptLaws.antt =====
-- src/session.rs: the keyboard-interactive callback and `with_abstract`.
use ssh2_rs.Base.{
  Option, none, ℕ, suc, ◌≤◌, ◌+◌, ◌%◌, ◌^◌, if◌then◌else◌, ◌≡◌, refl, ◌∙◌, sym, ap, some, List, [],
  ◌∷◌, ◌++◌, map, length, take, length-take-le, arith,
}
use ssh2_rs.Base.Text.{Bytes}
use ssh2_rs.Session.Prompt.{
  Env, Response, RawPrompt, to_response, to_prompt, write_at, fill, fill_taken, or_stop, prompt,
  with_abstract,
}

module _ {P : Type 0} (env : Env P) where
  -- What libssh2 finds where an answer was written: its bytes, a zero byte behind them, and their
  -- number as a c_uint; a null pointer and length 0 where there is no memory for that.
  abbrev pub said : Bytes → Response
  said answer =
      if env.malloc (length answer + 1)
      then record { text = some (answer ++ (0 ∷ [])); length = length answer % 2 ^ 32 }
      else record { text = none; length = 0 }

  to_response_lem : (answer : Bytes) → to_response env answer ≡ said answer
  unfolding to_response
  to_response_lem answer = ground arith

  -- The answers, as many as there is room for, over what was there.
  abbrev pub answered : List Bytes → List Response → List Response
  answered [] responses = responses
  answered (a ∷ answers) [] = []
  answered (a ∷ answers) (old ∷ responses) = said a ∷ answered answers responses

write_at-end :
    (before : List Response) (r old : Response) (rest : List Response)
    → write_at (length before) r (before ++ (old ∷ rest)) ≡ some (before ++ (r ∷ rest))
write_at-end [] r old rest = refl
write_at-end (b ∷ before) r old rest = rw (write_at-end before r old rest) refl

append_one :
    (before : List Response) (r : Response) (rest : List Response)
    → before ++ (r ∷ rest) ≡ (before ++ (r ∷ [])) ++ rest
append_one [] r rest = refl
append_one (b ∷ before) r rest = ap (λ l. b ∷ l) (append_one before r rest)

length-snoc :
    (before : List Response) (r : Response) → length (before ++ (r ∷ [])) ≡ suc (length before)
length-snoc [] r = refl
length-snoc (b ∷ before) r = ap suc (length-snoc before r)

length-map_prompt :
    {P : Type 0} (env : Env P) (prompts : List RawPrompt)
    → length (map (to_prompt env) prompts) ≡ length prompts
length-map_prompt env [] = refl
length-map_prompt env (p ∷ prompts) = ap suc (length-map_prompt env prompts)

fill_step :
    {P : Type 0} (env : Env P) (i : ℕ) (answer : Bytes) (answers : List Bytes)
    (responses written : List Response)
    → write_at i (said env answer) responses ≡ some written
    → fill env i (answer ∷ answers) responses ≡ fill env (suc i) answers written
unfolding fill
fill_step env i answer answers responses written e =
    rw (to_response_lem env answer) (ap (λ o. or_stop env o responses (fill env (suc i) answers)) e)

module _ {P : Type 0} (env : Env P) where
  fill-answered :
      (answers : List Bytes) (before responses : List Response) (i : ℕ)
      → i ≡ length before
      → length answers ≤ length responses
      → fill env i answers (before ++ responses) ≡ before ++ answered env answers responses
  unfolding fill
  fill-answered [] before responses i e h = refl
  fill-answered (a ∷ answers) before [] i e h = absurd (omega arith)
  fill-answered (a ∷ answers) before (old ∷ responses) i e h =
      let r = said env a in
      let more = before ++ (r ∷ []) in
      let more' = before ++ (r ∷ responses) in
      let later =
        fill-answered answers more responses (suc i) (ap suc e ∙ sym (length-snoc before r))
          (omega arith) in
      rw
        (
          e,
          fill_step env (length before) a answers (before ++ (old ∷ responses)) more'
              (write_at-end before r old responses),
        )
        (rw
          (
            append_one before r responses,
            append_one before r (answered env answers responses),
            sym e,
          )
          later)

  answered-take :
      (answers : List Bytes) (responses : List Response)
      → answered env (take (length responses) answers) responses ≡ answered env answers responses
  answered-take [] [] = refl
  answered-take [] (r ∷ responses) = refl
  answered-take (a ∷ answers) [] = refl
  answered-take (a ∷ answers) (r ∷ responses) =
      ap (λ l. said env a ∷ l) (answered-take answers responses)

module _ {P : Type 0} (env : Env P) where
  -- The same where the prompter may have panicked.
  abbrev pub answered_if : Option (List Bytes) → List Response → List Response
  answered_if none responses = responses
  answered_if (some answers) responses = answered env answers responses

  fill_taken-answered :
      (answers : Option (List Bytes)) (responses : List Response)
      → fill_taken env (length responses) answers responses ≡ answered_if answers responses
  unfolding fill_taken
  fill_taken-answered none responses = refl
  fill_taken-answered (some answers) responses =
      fill-answered env (take (length responses) answers) [] responses 0 refl
        (length-take-le (length responses) answers)
      ∙ answered-take env answers responses

  -- The keyboard-interactive callback, with as many responses as prompts, writes the prompter's
  -- answers over the responses one by one until either run out, each with a zero byte behind it and
  -- with its length as a c_uint, or as a null pointer of length 0 where there is no memory for it; the responses that have no answer
  -- stay as they were, answers without a prompt are dropped, and where the prompter panics every
  -- response stays as it was.
  pub prompt-answered :
      (prompter : P) (username instruction : Bytes) (prompts : List RawPrompt)
      (responses : List Response)
      → length prompts ≡ length responses
      → let (answers, prompter') =
          env.prompt prompter
            (env.from_utf8_lossy username)
            (env.from_utf8_lossy instruction)
            (map (to_prompt env) prompts) in
        prompt env prompter username instruction prompts responses
        ≡ (answered_if answers responses, prompter')
  unfolding prompt
  prompt-answered prompter username instruction prompts responses e =
      let (answers, prompter') =
        env.prompt prompter (env.from_utf8_lossy username) (env.from_utf8_lossy instruction)
          (map (to_prompt env) prompts) in
      ap (λ l. (l, prompter'))
        (ap (λ n. fill_taken env n answers responses) (length-map_prompt env prompts ∙ e)
          ∙ fill_taken-answered answers responses)

-- Where what is written to the session's abstract pointer can be read back, the pointer is the
-- new value when the call starts and the old one after it, whatever the call does to it, and the
-- result is that of the call.
pub with_abstract-restores :
    {S A : Type 0} (get : S → ℕ) (set : ℕ → S → S) (new_value : ℕ) (f : S → A × S) (s : S)
    → ((v : ℕ) (t : S) → get (set v t) ≡ v)
    → (get (with_abstract get set new_value f s).1 ≡ get s)
      × ((with_abstract get set new_value f s).0 ≡ (f (set new_value s)).0)
      × (get (set new_value s) ≡ new_value)
unfolding with_abstract
with_abstract-restores get set new_value f s law = (law (get s) _, refl, law new_value s)
