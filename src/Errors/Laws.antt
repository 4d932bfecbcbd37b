-- ===== src/Errors/Laws.antt =====
-- What a return code becomes in src/error.rs: which message, which code, which kind of I/O error.
use text.Mathlib.Text.{◌==◌ as str_eq}
use text.Mathlib.TextEquality.{eq_iff}
use ssh2_rs.Base.{
  ℕ, zero, suc, ◌≤◌, ◌<◌, ◌≡◌, refl, ◌≢◌, ◌↔◌, ◌⊎◌, inl, inr, Bool, true, false, ◌&&◌, List, [],
  ◌∷◌, All, String, arith, leb, Bool-cases, not, if◌then◌else◌,
}
use ssh2_rs.Base.Int.{ℤ, pos, negsuc, is_nonneg, is_negative, ◌==ℤ◌, ==ℤ_iff}
use ssh2_rs.Sys.{error_eagain, error_timeout}
use ssh2_rs.Errors.{borrowed, Error, would_block, timed_out, ok, err, error_kind, from_errno}
use ssh2_rs.Errors.Messages.{errno_message, select, arms}
use ssh2_rs.Errors.Session.{Session, make_error_message, from_session_error_raw, rc}

-- The codes that libssh2-sys names: -2 to -46, and 1 to 21.
abbrev pub IsNamed : ℤ → Type 0
IsNamed (pos n) = (1 ≤ n) × (n ≤ 21)
IsNamed (negsuc n) = (1 ≤ n) × (n ≤ 45)

abbrev is_unnamed : ℤ → Bool
is_unnamed code = str_eq (errno_message code) "unknown error"

dec_range : (n m : ℕ) → Dec ((1 ≤ n) × (n ≤ m))
dec_range n m = elim (Bool-cases (leb 1 n && leb n m)) [
  | inl t ↦ yes (ground arith)
  | inr f ↦ no (λ h. ground arith)
]

-- The test holds of every number below a bound.
passes : (ℕ → Bool) → ℕ → Bool
passes test zero = true
passes test (suc k) = if test k then passes test k else false

passes_at : (test : ℕ → Bool) (k x : ℕ) → x < k → passes test k ≡ true → test x ≡ true
unfolding passes
passes_at test zero x below all = absurd (omega arith)
passes_at test (suc k) x below all = ground (arith, passes_at test k x)

named_below : passes (λ n. not (is_unnamed (pos (suc n)))) 21 ≡ true
unfolding passes errno_message
named_below = refl

named_error_below : passes (λ n. not (is_unnamed (negsuc (suc n)))) 45 ≡ true
unfolding passes errno_message
named_error_below = refl

arms-IsNamed : All (λ arm. IsNamed (arm.0)) arms
unfolding arms
arms-IsNamed = omega arith

-- A code that is none of the arms' falls through to the last one.
select_other :
    (code : ℤ) (table : List (ℤ × String))
    → All (λ arm. IsNamed (arm.0)) table
    → ¬ IsNamed code
    → select code table ≡ "unknown error"
unfolding select
select_other code [] h none_named = refl
select_other code ((c, msg) ∷ rest) h unnamed = elim (Bool-cases (code ==ℤ c)) [
  | inl hit ↦ absurd (unnamed (rw ((==ℤ_iff code c).0 hit) h.0))
  | inr miss ↦ rw miss (select_other code rest h.1 unnamed)
]

named_message-pos : (n : ℕ) → n < 21 → errno_message (pos (suc n)) ≢ "unknown error"
named_message-pos n h e =
    let t = passes_at _ 21 n h named_below in
    cc ((eq_iff (errno_message (pos (suc n))) "unknown error").1 e)

named_message-negsuc : (n : ℕ) → n < 45 → errno_message (negsuc (suc n)) ≢ "unknown error"
named_message-negsuc n h e =
    let t = passes_at _ 45 n h named_error_below in
    cc ((eq_iff (errno_message (negsuc (suc n))) "unknown error").1 e)

zero_unnamed : errno_message (pos 0) ≡ "unknown error"
unfolding errno_message
zero_unnamed = refl

minus_one_unnamed : errno_message (negsuc 0) ≡ "unknown error"
unfolding errno_message
minus_one_unnamed = refl

dec_named : (code : ℤ) → Dec (IsNamed code)
dec_named (pos n) = dec_range n 21
dec_named (negsuc n) = dec_range n 45

IsNamed-only : (code : ℤ) → errno_message code ≢ "unknown error" → IsNamed code
unfolding errno_message
IsNamed-only code h = elim (dec_named code) [
  | yes named ↦ named
  | no unnamed ↦ absurd (h (select_other code arms arms-IsNamed unnamed))
]

-- `from_errno` has a message of its own for exactly the codes that libssh2-sys names.
pub errno_message-IsNamed : (code : ℤ) → (errno_message code ≢ "unknown error") ↔ IsNamed code
errno_message-IsNamed (pos zero) = (λ h. absurd (h zero_unnamed), λ h. absurd (omega arith))
errno_message-IsNamed (pos (suc n)) = (IsNamed-only _, λ h. named_message-pos n (omega arith))
errno_message-IsNamed (negsuc zero) = (λ h. absurd (h minus_one_unnamed), λ h. absurd (omega arith))
errno_message-IsNamed (negsuc (suc n)) = (IsNamed-only _, λ h. named_message-negsuc n (omega arith))

module _ {S : Type 0} (session : Session S) where
  -- A code from libssh2 that is not negative is a success. A negative one is an error that carries
  -- that code, with the session's own message if the session's last error has the same code, and
  -- else the message of the table. The session is left as it was.
  pub rc_outcome :
      (n : ℤ) (s : S)
      → ((is_nonneg n ≡ true) × (rc session n s ≡ (ok tt, s)))
        ⊎ ((is_negative n ≡ true)
            × ((e : Error) × (rc session n s ≡ (err e, s))
                × (e.code ≡ n)
                × ((session.last_error s).0 ≡ n
                    → e.msg ≡ make_error_message (session.last_error s).1)
                × ((session.last_error s).0 ≢ n → e.msg ≡ borrowed (errno_message n))))
  unfolding rc from_session_error_raw from_errno
  rc_outcome (pos n) s = inl (refl, refl)
  rc_outcome (negsuc n) s = inr (
    refl,
    (
      from_session_error_raw session (negsuc n) s,
      refl,
      ground arith,
      λ e. ground (arith, ==ℤ_iff (session.last_error s).0 (negsuc n)),
      λ e. ground (arith, ==ℤ_iff (session.last_error s).0 (negsuc n)),
    ),
  )

-- An error becomes `WouldBlock` exactly if its code is EAGAIN, and `TimedOut` exactly if it is
-- TIMEOUT.
pub error_kind_iff :
    (e : Error)
    → ((error_kind e ≡ would_block) ↔ (e.code ≡ error_eagain))
      × ((error_kind e ≡ timed_out) ↔ (e.code ≡ error_timeout))
unfolding error_kind
error_kind_iff e = ground (arith, ==ℤ_iff e.code error_eagain, ==ℤ_iff e.code error_timeout)
