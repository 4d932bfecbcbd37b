-- ===== src/Session/AuthLaws.antt =====
-- The authentications with keys and with a password, src/session.rs.
use ssh2_rs.Base.{◌^◌, ◌≡◌, ◌≢◌, ◌↔◌, true, Option, none, some, List, [], ◌∷◌, ◌++◌, length, arith}
use ssh2_rs.Base.Int.{ℤ, is_nonneg}
use ssh2_rs.Base.Text.{Bytes}
use ssh2_rs.Errors.{Result, ok, err, panic, c_string}
use ssh2_rs.Errors.Session.{Session, rc}
use ssh2_rs.Paths.{path2bytes}
use ssh2_rs.Paths.Slices.{AllBelow, lengths, slice_whole}
use ssh2_rs.Session.Raw.{Api}
use ssh2_rs.Session.{userauth_password}
use ssh2_rs.Paths.Arguments.{Argument, text, path, refused, unless_refused}
use ssh2_rs.Session.Auth.{
  AuthApi, userauth_pubkey_file, userauth_pubkey_memory, userauth_hostbased_file, len_of, or_user,
}

pub data Attempt : Type 0 where
  password : Bytes → Bytes → Attempt
  key_file : Bytes → Option Bytes → Bytes → Option Bytes → Attempt
  key_memory : Bytes → Option Bytes → Bytes → Option Bytes → Attempt
  host_key : Bytes → Bytes → Bytes → Option Bytes → Bytes → Option Bytes → Attempt

abbrev pub if_given : (Bytes → Argument) → Option Bytes → List Argument
if_given kind none = []
if_given kind (some b) = kind b ∷ []

module _ {S : Type 0} (calls : Api S) (api : AuthApi S) where
  abbrev pub authenticate : Attempt → S → Result (Unit {0}) × S
  authenticate (password user word) s = userauth_password calls user word s
  authenticate (key_file user pubkey key phrase) s =
      userauth_pubkey_file api user pubkey key phrase s
  authenticate (key_memory user pubkey key phrase) s =
      userauth_pubkey_memory api user pubkey key phrase s
  authenticate (host_key user pubkey key phrase host local) s =
      userauth_hostbased_file api user pubkey key phrase host local s

  -- The strings that have to be C strings, in the order in which they are looked at.
  abbrev pub secrets : Attempt → List Argument
  secrets (password user word) = []
  secrets (key_file user pubkey key phrase) =
      if_given path pubkey ++ (path key ∷ if_given text phrase)
  secrets (key_memory user pubkey key phrase) =
      if_given text pubkey ++ (text key ∷ if_given text phrase)
  secrets (host_key user pubkey key phrase host local) =
      path pubkey ∷ path key ∷ if_given text phrase

  -- What libssh2 is asked, with the bytes as they are.
  abbrev pub asked : Attempt → S → ℤ × S
  asked (password user word) s = calls.userauth_password_ex user word s
  asked (key_file user pubkey key phrase) s =
      api.userauth_publickey_fromfile_ex user pubkey key phrase s
  asked (key_memory user pubkey key phrase) s =
      api.userauth_publickey_frommemory user pubkey (len_of pubkey) key (length key) phrase s
  asked (host_key user pubkey key phrase host local) s =
      api.userauth_hostbased_fromfile_ex user pubkey key phrase host (or_user user local) s

  abbrev pub session_of : Attempt → Session S
  session_of (password user word) = calls.session
  session_of _ = api.session

  -- What an attempt comes to: the code that libssh2 gives, if it is asked.
  abbrev pub attempted : Attempt → S → Result (Unit {0}) × S
  attempted a s =
      unless_refused (secrets a) err (λ t. let (n, t') = asked a t in rc (session_of a) n t') s

  -- The strings that go over with a length in 32 bits.
  abbrev pub texts : Attempt → List Bytes
  texts (password user word) = user ∷ word ∷ []
  texts (key_file user pubkey key phrase) = user ∷ []
  texts (key_memory user pubkey key phrase) = []
  texts (host_key user pubkey key phrase host local) = user ∷ host ∷ or_user user local ∷ []

  authenticate-attempted :
      (a : Attempt) (s : S)
      → AllBelow (2 ^ 32) (lengths (texts a))
      → authenticate a s ≡ attempted a s
  unfolding userauth_password userauth_pubkey_file userauth_pubkey_memory userauth_hostbased_file
      c_string path2bytes rc
  authenticate-attempted (password user word) s (e, (e', u)) =
      rw (slice_whole user e, slice_whole word e') (ground arith)
  authenticate-attempted (key_file user none key none) s (e, u) = ground (arith, slice_whole user e)
  authenticate-attempted (key_file user _ key _) s (e, u) = ground (arith, slice_whole user e)
  authenticate-attempted (key_memory user none key none) s u = ground arith
  authenticate-attempted (key_memory user _ key _) s u = ground arith
  authenticate-attempted (host_key user pubkey key phrase host none) s (e, (e', u)) =
      ground (arith, slice_whole user e, slice_whole host e')
  authenticate-attempted (host_key user pubkey key phrase host (some local)) s (e, (e', (f, u))) =
      ground (arith, slice_whole user e, slice_whole host e', slice_whole local f)

  attempted-succeeds :
      (a : Attempt) (s : S)
      → ((attempted a s).0 ≡ ok tt)
        ↔ ((refused (secrets a) ≡ none) × (is_nonneg (asked a s).0 ≡ true))
  unfolding rc
  attempted-succeeds a s = ground arith

  attempted-ne-panic : (a : Attempt) (s : S) → (attempted a s).0 ≢ panic
  unfolding rc
  attempted-ne-panic a s = ground arith

  -- An authentication whose user, password and host names are shorter than 2^32 bytes first refuses
  -- a path, a key or a passphrase with a zero byte, the first one if there are several, and then asks
  -- libssh2 nothing; otherwise it asks libssh2 once, with every string as it was given. So it succeeds
  -- exactly if nothing is refused and libssh2 gives no negative code, and it never panics.
  pub authenticate_outcome :
      (a : Attempt) (s : S)
      → AllBelow (2 ^ 32) (lengths (texts a))
      → (authenticate a s ≡ attempted a s)
        × (((authenticate a s).0 ≡ ok tt)
            ↔ ((refused (secrets a) ≡ none) × (is_nonneg (asked a s).0 ≡ true)))
        × ((authenticate a s).0 ≢ panic)
  authenticate_outcome a s short =
      let same = authenticate-attempted a s short in
      (same, rw same (attempted-succeeds a s), rw same (attempted-ne-panic a s))
