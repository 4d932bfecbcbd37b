-- ===== src/Objects/Tests.antt =====
-- A session whose `Session` value goes before its channel, its stream, its listener and its SFTP
-- subsystem.
use ssh2_rs.Base.{◌≡◌, refl, true, none, some, List, [], ◌∷◌}
use ssh2_rs.Objects.{
  Event, session_init, session_free, made, freed, Heap, Steps, start, then_, channel, new, perform,
  drops_session, makes, clones, releases,
}
use ssh2_rs.Objects.Monitor.{watch}
use ssh2_rs.Objects.Laws.{new-Watched, session_free-last}

abbrev fresh : Heap
fresh = record { sessions = 1; strong = 1; blocks = []; calls = session_init ∷ [] }

abbrev open_channel : Heap
open_channel = record {
  sessions = 0;
  strong = 1;
  blocks = record { kind = channel; raw = 8; strong = 2 } ∷ [];
  calls = made channel 8 ∷ session_init ∷ [];
}

abbrev all_gone : Heap
all_gone = record {
  sessions = 0;
  strong = 0;
  blocks = [];
  calls = session_free ∷ freed channel 8 ∷ made channel 8 ∷ session_init ∷ [];
}

-- The channel is made, a stream is taken from it, and the session value is dropped.
to_open_channel : Steps fresh open_channel
unfolding perform
to_open_channel =
    then_ drops_session (then_ (clones channel 8) (then_ (makes channel (some 8)) start refl) refl)
      refl

to_all_gone : Steps fresh all_gone
unfolding perform
to_all_gone = then_ (releases channel 8) (then_ (releases channel 8) to_open_channel refl) refl

new-Watched_example :
    watch open_channel.calls ≡ some (record { session = true; pointers = (channel, 8) ∷ [] })
unfolding new
new-Watched_example = new-Watched 5 fresh open_channel refl to_open_channel

session_free-last_example : (earlier : List Event) × (all_gone.calls ≡ session_free ∷ earlier)
unfolding new
session_free-last_example = session_free-last 5 fresh all_gone refl to_all_gone refl refl

-- libssh2 does not accept a session that is freed before its channel.
freed_early : watch (session_free ∷ made channel 8 ∷ session_init ∷ []) ≡ none
freed_early = refl
