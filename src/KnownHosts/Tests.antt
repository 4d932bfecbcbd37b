-- ===== src/KnownHosts/Tests.antt =====
-- A collection of one host, at pointer 4, and what is done with it.
use ssh2_rs.Base.{
  ℕ, ◌≡◌, ◌≢◌, ◌↔◌, refl, true, false, none, some, List, [], ◌∷◌, ◌++◌, length, ltb, if◌then◌else◌,
  arith,
}
use ssh2_rs.Base.Int.{ℤ, pos}
use ssh2_rs.Base.Text.{Bytes, from_utf8, has_nul}
use ssh2_rs.Sys.{error_buffer_too_small}
use ssh2_rs.Codes.{matched, KnownHostFileKind, file_kind_code}
use ssh2_rs.Errors.{Error, ok, err, panic}
use ssh2_rs.Errors.Session.{Session}
use ssh2_rs.KnownHosts.{Host, from_raw, write_string, check_port_}
use ssh2_rs.KnownHosts.Raw.{Api}
use ssh2_rs.KnownHosts.Laws.{Contains, WritesLine, write_string-Contains, check_port-match}

abbrev idle : Session ℤ
idle = record { last_error = λ s. (pos 0, none); get_blocking = λ s. s; set_blocking = λ b s. b }

-- Longer than the first buffer.
abbrev line : Bytes
line = doubled (doubled (doubled (doubled (doubled (doubled (97 ∷ 32 ∷ 98 ∷ []))))))
  where
    doubled : Bytes → Bytes
    doubled b = b ++ b

abbrev host : Host
host = record { name = some (97 ∷ []); key = 98 ∷ [] }

abbrev one_host : Api ℤ
one_host = record {
  session = idle;
  readfile = λ r path kind s. (pos 1, s);
  readline = λ r text kind s. (pos 0, s);
  writefile = λ r path kind s. (pos 0, s);
  writeline = λ r p cap kind s.
      if ltb (length line) cap
      then ((pos 0, length line, line), s)
      else ((error_buffer_too_small, length line, []), s);
  get = λ r prev s. elim prev [ none ↦ ((pos 0, 4), s) | some p ↦ ((pos 1, 0), s) ];
  node = λ p s. record { name = some (97 ∷ []); key = some (98 ∷ []) };
  del = λ r p s. (pos 0, pos 1);
  checkp = λ r name port key flags s. (pos 0, s);
  addc = λ r name key comment flags s. (pos 0, s);
  free = λ r s. s;
}

abbrev items : List (ℕ × Host)
items = (4, host) ∷ []

one_host-Contains : Contains one_host 3 (pos 0) items
unfolding from_raw
one_host-Contains = (refl, refl, (refl, refl))

one_host-WritesLine : WritesLine one_host 3 4 (pos 1) line
one_host-WritesLine cap t = ground arith

write_string-Contains_example :
    (t : ℤ) × (write_string one_host 3 2 host KnownHostFileKind.open_ssh (pos 0)
      ≡ some (ok line, t))
unfolding file_kind_code from_utf8
write_string-Contains_example =
    write_string-Contains one_host 3 items host KnownHostFileKind.open_ssh 0 4 line (pos 0)
      one_host-Contains (omega arith) refl one_host-WritesLine refl

abbrev stranger : Host
stranger = record { name = none; key = 98 ∷ [] }

check_port-match_example :
    (((check_port_ one_host 3 (97 ∷ []) (pos 22) [] (pos 0)).0 ≡ ok matched)
      ↔ ((has_nul (97 ∷ []) ≡ false) × (pos 0 ≡ pos 0)))
    × (((check_port_ one_host 3 (97 ∷ []) (pos 22) [] (pos 0)).0 ≡ panic)
        ↔ (has_nul (97 ∷ []) ≡ true))
    × ((e : Error) → (check_port_ one_host 3 (97 ∷ []) (pos 22) [] (pos 0)).0 ≢ err e)
check_port-match_example = check_port-match one_host 3 (97 ∷ []) [] (pos 22) (pos 0)
