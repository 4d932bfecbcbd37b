-- ===== src/Objects/Laws.antt =====
-- The counted references of src/ and the calls that libssh2 gets from them.
use ssh2_rs.Base.{
  ℕ, suc, ◌+◌, ◌-◌, ◌≡◌, refl, true, false, Option, none, some, List, [], ◌∷◌, length, ltb, arith,
  ◌==◌, Bool-cases, inl, inr, ◌∙◌, ap,
}
use ssh2_rs.Objects.{
  Kind, channel, listener, sftp, Event, session_init, session_free, made, used, freed, Heap, refs,
  dropped, recounted, new, release_session, clone_session, drop_session, from_raw_opt, drop_block,
  clone_block, release_block, shutdown, use_block, Op, clones_session, drops_session, makes,
  accepts, clones, releases, uses, shuts_down, can, perform, Steps, start, then_,
}
use ssh2_rs.Objects.Monitor.{Alive, check, watch, pointers_of}
use ssh2_rs.Objects.Blocks.{
  has-refs, length-dropped, pointers_of-dropped, length-recounted, pointers_of-recounted,
}

-- The references to the session are those of the `Session` values and of the blocks, and libssh2
-- has accepted every call.
record IsOwned (h : Heap) : Type 0 where
  counted : h.strong ≡ h.sessions + length h.blocks
  watched :
      watch h.calls ≡ some (record { session = ltb 0 h.strong; pointers = pointers_of h.blocks })

release_session-IsOwned :
    (h : Heap)
    → h.strong ≡ suc (h.sessions + length h.blocks)
    → watch h.calls ≡ some (record { session = true; pointers = pointers_of h.blocks })
    → IsOwned (release_session h)
unfolding release_session
release_session-IsOwned h c w = record { counted = ground arith; watched = grind arith }

drop_block-IsOwned :
    (kind : Kind) (raw : ℕ) (h : Heap)
    → ltb 0 (refs kind raw h.blocks) ≡ true
    → IsOwned h
    → IsOwned (drop_block kind raw h)
unfolding drop_block
drop_block-IsOwned kind raw h e v =
    let shorter = length-dropped kind raw h.blocks e in
    let there = has-refs kind raw h.blocks e in
    let left = pointers_of-dropped kind raw h.blocks in
    release_session-IsOwned
      (record h { blocks = dropped kind raw h.blocks; calls = freed kind raw ∷ h.calls })
      (ground arith) (ground arith)

recounted-IsOwned :
    (kind : Kind) (raw n : ℕ) (h : Heap)
    → IsOwned h
    → IsOwned (record h { blocks = recounted kind raw n h.blocks })
recounted-IsOwned kind raw n h v =
    let same_length = length-recounted kind raw n h.blocks in
    let same_pointers = pointers_of-recounted kind raw n h.blocks in
    record { counted = ground arith; watched = rw (same_pointers) v.watched }

release_block-IsOwned :
    (kind : Kind) (raw : ℕ) (h : Heap)
    → ltb 0 (refs kind raw h.blocks) ≡ true
    → IsOwned h
    → IsOwned (release_block kind raw h)
unfolding release_block
release_block-IsOwned kind raw h e v = elim (Bool-cases (refs kind raw h.blocks == 1)) [
  | inl last ↦ rw last (drop_block-IsOwned kind raw h e v)
  | inr more ↦ rw more (recounted-IsOwned kind raw (refs kind raw h.blocks - 1) h v)
]

shutdown-IsOwned :
    (raw : ℕ) (h : Heap)
    → ltb 0 (refs sftp raw h.blocks) ≡ true
    → IsOwned h
    → IsOwned (shutdown raw h)
unfolding shutdown
shutdown-IsOwned raw h e v = elim (Bool-cases (refs sftp raw h.blocks == 1)) [
  | inl last ↦ rw last (drop_block-IsOwned sftp raw h e v)
  | inr more ↦ rw more v
]

-- A heap with a `Session` or a block has a reference to the session.
from_raw_opt-IsOwned :
    (kind : Kind) (ret : Option ℕ) (h : Heap)
    → ltb 0 h.strong ≡ true
    → IsOwned h
    → IsOwned (from_raw_opt kind ret h)
unfolding from_raw_opt
from_raw_opt-IsOwned kind none h e v = v
from_raw_opt-IsOwned kind (some raw) h e v = record {
  counted = ground arith;
  watched = ground arith;
}

block-strong :
    (kind : Kind) (raw : ℕ) (h : Heap)
    → ltb 0 (refs kind raw h.blocks) ≡ true
    → IsOwned h
    → ltb 0 h.strong ≡ true
block-strong kind raw h e v = let shorter = length-dropped kind raw h.blocks e in ground arith

use_block-IsOwned :
    (kind : Kind) (raw : ℕ) (h : Heap)
    → ltb 0 (refs kind raw h.blocks) ≡ true
    → IsOwned h
    → IsOwned (use_block kind raw h)
unfolding use_block
use_block-IsOwned kind raw h e v =
    let there = has-refs kind raw h.blocks e in
    let held = block-strong kind raw h e v in
    record { counted = ground arith; watched = ground arith }

perform-IsOwned : (op : Op) (h : Heap) → can op h ≡ true → IsOwned h → IsOwned (perform op h)
unfolding perform clone_session drop_session clone_block
perform-IsOwned clones_session h e v = record { counted = ground arith; watched = ground arith }
perform-IsOwned drops_session h e v =
    release_session-IsOwned (record h { sessions = h.sessions - 1 }) (ground arith) (ground arith)
perform-IsOwned (makes kind ret) h e v = from_raw_opt-IsOwned kind ret h (ground arith) v
perform-IsOwned (accepts raw ret) h e v =
    from_raw_opt-IsOwned channel ret (use_block listener raw h)
      (block-strong listener raw (use_block listener raw h) e
        (use_block-IsOwned listener raw h e v))
      (use_block-IsOwned listener raw h e v)
perform-IsOwned (clones kind raw) h e v =
    recounted-IsOwned kind raw (suc (refs kind raw h.blocks)) h v
perform-IsOwned (releases kind raw) h e v = release_block-IsOwned kind raw h e v
perform-IsOwned (uses kind raw) h e v = use_block-IsOwned kind raw h e v
perform-IsOwned (shuts_down raw) h e v = shutdown-IsOwned raw h e v

Steps-IsOwned : {h h' : Heap} → IsOwned h → Steps h h' → IsOwned h'
Steps-IsOwned v start = v
Steps-IsOwned v (then_ op steps e) = perform-IsOwned op _ e (Steps-IsOwned v steps)

-- Whatever a program does with a new session and with the channels, streams, listeners, agents,
-- collections of known hosts and SFTP subsystems that it makes from it, in whatever order, it makes
-- no call that libssh2 does not accept: nothing is made or used without the session, no pointer of
-- these is used after libssh2 has been asked to free it or handed over to be freed twice, and the
-- session is not freed before each of them has been. At each point the pointers that are not freed
-- are those of the blocks, and the session is there exactly if there is a `Session` value or a block.
-- Files count as holders of their subsystem; their own handles are not among these pointers, and what
-- libssh2 answers to a call that frees is not looked at.
pub new-Watched :
    (raw : ℕ) (h₀ h : Heap)
    → new (some raw) ≡ some h₀
    → Steps h₀ h
    → watch h.calls
      ≡ some (record {
        session = ltb 0 (h.sessions + length h.blocks);
        pointers = pointers_of h.blocks;
      })
unfolding new
new-Watched raw h₀ h e steps =
    let v = Steps-IsOwned (record { counted = ground arith; watched = ground arith }) steps in
    rw⁻¹ v.counted v.watched

check-freed :
    (e : Event) (before : Option Alive) (pointers : List (Kind × ℕ))
    → check e before ≡ some (record { session = false; pointers = pointers })
    → e ≡ session_free
check-freed session_init none pointers h = ground arith
check-freed session_init (some a) pointers h = ground arith
check-freed session_free before pointers h = refl
check-freed (made kind raw) none pointers h = ground arith
check-freed (made kind raw) (some a) pointers h = ground arith
check-freed (used kind raw) none pointers h = ground arith
check-freed (used kind raw) (some a) pointers h = ground arith
check-freed (freed kind raw) none pointers h = ground arith
check-freed (freed kind raw) (some a) pointers h = ground arith

watch-freed :
    (calls : List Event) (pointers : List (Kind × ℕ))
    → watch calls ≡ some (record { session = false; pointers = pointers })
    → (earlier : List Event) × (calls ≡ session_free ∷ earlier)
watch-freed [] pointers e = cc
watch-freed (call ∷ earlier) pointers e =
    (earlier, ap (λ c. c ∷ earlier) (check-freed call (watch earlier) pointers e))

-- When a program has dropped every `Session` and every object that it made from a new session, the
-- session of libssh2 is freed, by the last of the calls.
pub session_free-last :
    (raw : ℕ) (h₀ h : Heap)
    → new (some raw) ≡ some h₀
    → Steps h₀ h
    → h.sessions ≡ 0
    → h.blocks ≡ []
    → (earlier : List Event) × (h.calls ≡ session_free ∷ earlier)
session_free-last raw h₀ h e steps none_left empty =
    watch-freed h.calls [] (new-Watched raw h₀ h e steps ∙ ground arith)
