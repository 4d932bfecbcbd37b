-- ===== src/Session/CallTests.antt =====
-- A session that opens everything as number 9, and refuses every key.
use ssh2_rs.Base.{arith, ◌≡◌, ◌≢◌, ◌↔◌, refl, true, none, some, [], ◌∷◌}
use ssh2_rs.Base.Int.{ℤ, pos, negsuc, is_nonneg}
use ssh2_rs.Base.Text.{bytes, has_nul}
use ssh2_rs.Errors.{nul_error, ok, err, panic}
use ssh2_rs.Errors.Session.{rc}
use ssh2_rs.Channel.Tests.{idle_session}
use ssh2_rs.Paths.Arguments.{refused}
use ssh2_rs.Session.Auth.{AuthApi}
use ssh2_rs.Session.AuthLaws.{
  Attempt, key_file, authenticate, attempted, secrets, asked, authenticate_outcome,
}
use ssh2_rs.Session.OpenLaws.{Opener, connects}
use ssh2_rs.Session.Tests.{opening}

abbrev refusing : AuthApi ℤ
refusing = record {
  session = idle_session;
  userauth_publickey_fromfile_ex = λ user pubkey key phrase s. (negsuc 17, s);
  userauth_publickey_frommemory = λ user pubkey n key m phrase s. (negsuc 17, s);
  userauth_hostbased_fromfile_ex = λ user pubkey key phrase host local s. (negsuc 17, s);
  userauth_authenticated = λ s. pos 0;
}

abbrev attempt : Attempt
attempt = key_file (bytes "me") none (bytes "/id") (some (0 ∷ []))

authenticate_outcome_example :
    (authenticate opening refusing attempt (pos 0) ≡ attempted opening refusing attempt (pos 0))
    × (((authenticate opening refusing attempt (pos 0)).0 ≡ ok tt) ↔ (
        (refused (secrets opening refusing attempt) ≡ none)
        × (is_nonneg (asked opening refusing attempt (pos 0)).0 ≡ true)))
    × ((authenticate opening refusing attempt (pos 0)).0 ≢ panic)
authenticate_outcome_example =
    authenticate_outcome opening refusing attempt (pos 0) (omega arith, tt)

-- The passphrase is refused.
zero_in_phrase : attempted opening refusing attempt (pos 0) ≡ (err nul_error, pos 0)
unfolding has_nul rc
zero_in_phrase = refl

abbrev connection : Opener
connection = connects (bytes "db") 5432 none
