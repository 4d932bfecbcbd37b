-- ===== src/Errors/Tests.antt =====
-- Codes and sessions at concrete values.
use ssh2_rs.Base.{◌≡◌, ◌≢◌, ◌⊎◌, refl, true, none, some}
use ssh2_rs.Base.Int.{ℤ, pos, negsuc, is_nonneg, is_negative}
use ssh2_rs.Sys.{error_eagain}
use ssh2_rs.Base.Text.{bytes}
use ssh2_rs.Errors.{Error, borrowed, ok, err, from_errno, unknown}
use ssh2_rs.Errors.Messages.{errno_message, select, arms}
use ssh2_rs.Errors.Session.{Session, rc, make_error_message}
use ssh2_rs.Errors.Laws.{rc_outcome}
use ssh2_rs.Errors.Display.{message, digits_before, int_before, display}
use ssh2_rs.Errors.DisplayLaws.{read_error, display_lem}

-- A session whose last error is EAGAIN, with no message.
abbrev blocked : Session ℤ
blocked = record {
  last_error = λ s. (error_eagain, none);
  get_blocking = λ s. s;
  set_blocking = λ b s. b;
}

rc_outcome_example :
    ((is_nonneg (negsuc 36) ≡ true) × (rc blocked (negsuc 36) (pos 0) ≡ (ok tt, pos 0)))
    ⊎ ((is_negative (negsuc 36) ≡ true)
        × ((e : Error) × (rc blocked (negsuc 36) (pos 0) ≡ (err e, pos 0))
            × (e.code ≡ negsuc 36)
            × (error_eagain ≡ negsuc 36 → e.msg ≡ make_error_message none)
            × (error_eagain ≢ negsuc 36 → e.msg ≡ borrowed (errno_message (negsuc 36)))))
rc_outcome_example = rc_outcome blocked (negsuc 36) (pos 0)

display_lem_example :
    read_error (display (from_errno (negsuc 36)))
    ≡ some (negsuc 36, message (borrowed (errno_message (negsuc 36))))
unfolding from_errno
display_lem_example = display_lem (from_errno (negsuc 36))

-- "[-37] operation would block"
blocked_shown : display (from_errno (negsuc 36)) ≡ bytes "[-37] operation would block"
unfolding display int_before digits_before message from_errno errno_message select arms
blocked_shown = refl

-- The code of `Error::unknown`.
unknown_shown : display unknown ≡ bytes "[-2147483648] no other error listed"
unfolding display int_before digits_before message unknown
unknown_shown = refl
