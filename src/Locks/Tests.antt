-- ===== src/Locks/Tests.antt =====
-- A thread that reads a stream, and one that receives a file over the same session and then closes
-- the last file of a subsystem.
use ssh2_rs.Base.{true, false, some, List, [], ◌∷◌}
use ssh2_rs.Locks.{Call, streams, receives, closes_file, free_limit, Thread, begin}

abbrev programs : List (List Call)
programs = (streams 1 ∷ []) ∷ (receives 1 ∷ closes_file true ∷ []) ∷ []

abbrev receiver : Thread
receiver = begin (receives 1 ∷ closes_file true ∷ [])

-- The reader has freed the session, and still holds the limit.
abbrev reader : Thread
reader = record { session = false; limit = some 1; rest = free_limit 1 ∷ [] }

abbrev waiting : List Thread
waiting = reader ∷ receiver ∷ []
