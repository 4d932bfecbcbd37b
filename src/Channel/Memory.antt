-- ===== src/Channel/Memory.antt =====
-- The memory that libssh2 allocates for src/channel.rs, `exit_signal`.
use ssh2_rs.Base.{ℕ, ◌≡◌, ◌∙◌, refl, ap, arith, Option, none, some, List, [], ◌∷◌, ◌++◌}
use ssh2_rs.Base.Int.{ℤ, pos, negsuc}
use ssh2_rs.Channel.Raw.{Api, Block}
use ssh2_rs.Channel.Requests.{exit_signal, texts, convert}

-- The address of a block, if there is one.
abbrev pub at : Option Block → List ℕ
at none = []
at (some block) = block.address ∷ []

-- The addresses that the application has from libssh2 and has not given back. A call for the exit
-- signal adds those of the texts, none on an error, and an address may be given back if it is there.
pub record Allocates {S : Type 0} (api : Api S) : Type 0 where
  pub owned : S → List ℕ
  pub texts :
      (p : ℕ) (s : S) (n : ℕ) (sig msg lang : Option Block) (s' : S)
      → api.get_exit_signal p s ≡ ((pos n, sig, msg, lang), s')
      → owned s' ≡ at sig ++ (at msg ++ (at lang ++ owned s))
  pub refused :
      (p : ℕ) (s : S) (k : ℕ) (sig msg lang : Option Block) (s' : S)
      → api.get_exit_signal p s ≡ ((negsuc k, sig, msg, lang), s')
      → owned s' ≡ owned s
  pub release :
      (address : ℕ) (rest : List ℕ) (s : S)
      → owned s ≡ address ∷ rest
      → owned (api.release address s) ≡ rest

module _ {S : Type 0} (api : Api S) (memory : Allocates api) where
  convert-owned :
      (p : ℕ) (block : Option Block) (rest : List ℕ) (s : S)
      → memory.owned s ≡ at block ++ rest
      → memory.owned (convert api p block s).1 ≡ rest
  unfolding convert
  convert-owned p none rest s e = e
  convert-owned p (some block) rest s e = memory.release block.address rest s e

  texts-state :
      (p n : ℕ) (sig msg lang : Option Block) (s : S)
      → (texts api p (pos n) sig msg lang s).1
        ≡ (convert api p lang (convert api p msg (convert api p sig s).1).1).1
  unfolding texts convert
  texts-state p n sig msg lang s = ground arith

  texts-owned :
      (p : ℕ) (n : ℤ) (sig msg lang : Option Block) (s s' : S)
      → api.get_exit_signal p s ≡ ((n, sig, msg, lang), s')
      → memory.owned (texts api p n sig msg lang s').1 ≡ memory.owned s
  unfolding texts
  texts-owned p (pos n) sig msg lang s s' e =
      ap memory.owned (texts-state p n sig msg lang s')
      ∙ convert-owned p lang (memory.owned s) _ (
          convert-owned p msg (at lang ++ memory.owned s) _ (
            convert-owned p sig (at msg ++ (at lang ++ memory.owned s)) s'
              (memory.texts p s n sig msg lang s' e)))
  texts-owned p (negsuc k) sig msg lang s s' e = memory.refused p s k sig msg lang s' e

  -- Where libssh2 allocates the texts of an exit signal, and none of them on an error: `exit_signal`
  -- gives back each text that it was handed, once, so that at the end the application owns what it
  -- owned before, whether the call succeeds or fails, and whether or not a text is UTF-8.
  pub exit_signal-owned : (p : ℕ) (s : S) → memory.owned (exit_signal api p s).1 ≡ memory.owned s
  unfolding exit_signal
  exit_signal-owned p s = texts-owned p _ _ _ _ s _ refl
