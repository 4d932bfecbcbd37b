-- ===== src/Init/Tests.antt =====
-- A system that counts the calls of `libssh2_init`, and one where `atexit` fails.
use ssh2_rs.Base.{ℕ, suc, ◌≡◌, refl, [], ◌∷◌}
use ssh2_rs.Base.Int.{pos}
use ssh2_rs.Errors.{ok, panic}
use ssh2_rs.Init.{incomplete, complete, poisoned, Process, Api, init}
use ssh2_rs.Init.Laws.{inits, init-once}

abbrev counting : Api ℕ
counting = record {
  openssl_init = λ s. s;
  libssh2_init = λ s. (pos 0, suc s);
  atexit = λ s. (pos 0, s);
}

abbrev full : Api ℕ
full = record {
  openssl_init = λ s. s;
  libssh2_init = λ s. (pos 0, suc s);
  atexit = λ s. (pos 1, s);
}

abbrev untouched : Process ℕ
untouched = record { once = incomplete; lib = 0 }

init-once_example :
    inits counting 3 untouched ≡ (ok tt ∷ ok tt ∷ ok tt ∷ [], record { once = complete; lib = 1 })
unfolding init
init-once_example = init-once counting 2 untouched refl

failed_for_good : inits full 2 untouched ≡ (panic ∷ panic ∷ [], record { once = poisoned; lib = 1 })
unfolding init
failed_for_good = init-once full 1 untouched refl
