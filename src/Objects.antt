-- ===== src/Objects.antt =====
-- Who keeps the session of libssh2 alive, over all of src/: `Session`, `Channel` with its streams,
-- `Listener`, `Agent`, `KnownHosts` and `Sftp` with its files hold counted references (`Arc`), and
-- the last holder of each raw pointer gives it back to libssh2 when it is dropped.
pub mod Monitor
pub mod Blocks
pub mod Laws
pub mod Subsystem
pub mod SubsystemLaws
pub mod SubsystemTrace
mod Tests
use ssh2_rs.Base.{
  ℕ, ◌≡◌, suc, ◌-◌, Bool, true, false, ◌&&◌, Option, none, some, List, [], ◌∷◌, ◌==◌, if◌then◌else◌,
  ltb,
}

-- What a session is asked for and must not outlive.
pub data Kind : Type 0 where
  channel listener agent known_hosts sftp : Kind

abbrev pub same : Kind → Kind → Bool
same channel channel = true
same listener listener = true
same agent agent = true
same known_hosts known_hosts = true
same sftp sftp = true
same _ _ = false

-- The calls of libssh2 that make, use and free a raw pointer. `freed`: libssh2 is asked to free it,
-- and nothing here looks at its answer. A file's own handle is no such pointer: Sftp/Handles has it.
pub data Event : Type 0 where
  session_init session_free : Event
  made used freed : Kind → ℕ → Event

-- The memory behind an `Arc` that holds a raw pointer and a reference to the session:
-- `ChannelInner`, `SftpInnerDropWrapper`, and, with one holder, `Listener`, `Agent` and
-- `KnownHosts`.
pub record Block : Type 0 where
  pub kind : Kind
  pub raw : ℕ
  pub strong : ℕ

-- The `Session` values, the references to the `SessionInner`, the blocks, and the calls so far, the
-- latest first.
pub record Heap : Type 0 where
  pub sessions : ℕ
  pub strong : ℕ
  pub blocks : List Block
  pub calls : List Event

abbrev pub is_at : Kind → ℕ → Block → Bool
is_at kind raw b = same b.kind kind && (b.raw == raw)

-- The references of the first block with this pointer; 0 without one.
abbrev pub refs : Kind → ℕ → List Block → ℕ
refs kind raw [] = 0
refs kind raw (b ∷ blocks) = if is_at kind raw b then b.strong else refs kind raw blocks

abbrev pub dropped : Kind → ℕ → List Block → List Block
dropped kind raw [] = []
dropped kind raw (b ∷ blocks) = if is_at kind raw b then blocks else b ∷ dropped kind raw blocks

abbrev pub recounted : Kind → ℕ → ℕ → List Block → List Block
recounted kind raw n [] = []
recounted kind raw n (b ∷ blocks) =
    if is_at kind raw b then record b { strong = n } ∷ blocks else b ∷ recounted kind raw n blocks

-- `Session::new`, for the pointer that libssh2 gives.
unfoldable pub new : Option ℕ → Option Heap
new none = none
new (some raw) = some (record { sessions = 1; strong = 1; blocks = []; calls = session_init ∷ [] })

-- A reference to the `SessionInner` goes; with the last one, `Drop for SessionInner`.
unfoldable pub release_session : Heap → Heap
release_session h =
    if h.strong == 1
    then record h { strong = 0; calls = session_free ∷ h.calls }
    else record h { strong = h.strong - 1 }

-- `clone` of a `Session`.
unfoldable pub clone_session : Heap → Heap
clone_session h = record h { sessions = suc h.sessions; strong = suc h.strong }

unfoldable pub drop_session : Heap → Heap
unfolding release_session
drop_session h = release_session (record h { sessions = h.sessions - 1 })

-- The `from_raw_opt` of each kind, which clones the reference that it is given.
unfoldable pub from_raw_opt : Kind → Option ℕ → Heap → Heap
from_raw_opt kind none h = h
from_raw_opt kind (some raw) h = record h {
  strong = suc h.strong;
  blocks = record { kind = kind; raw = raw; strong = 1 } ∷ h.blocks;
  calls = made kind raw ∷ h.calls;
}

-- The `Drop` of each kind, and then of its reference to the session.
unfoldable pub drop_block : Kind → ℕ → Heap → Heap
unfolding release_session
drop_block kind raw h =
    release_session
      (record h { blocks = dropped kind raw h.blocks; calls = freed kind raw ∷ h.calls })

-- `Arc::clone` of a block, as in `Channel::stream` and `Sftp::open_mode`.
unfoldable pub clone_block : Kind → ℕ → Heap → Heap
clone_block kind raw h = record h {
  blocks = recounted kind raw (suc (refs kind raw h.blocks)) h.blocks;
}

-- A holder of a block goes: a `Channel`, a `Stream`, an `Sftp`, a `File` and so on.
unfoldable pub release_block : Kind → ℕ → Heap → Heap
unfolding drop_block
release_block kind raw h =
    if refs kind raw h.blocks == 1
    then drop_block kind raw h
    else record h { blocks = recounted kind raw (refs kind raw h.blocks - 1) h.blocks }

-- `Sftp::shutdown`: only the only reference is taken apart.
unfoldable pub shutdown : ℕ → Heap → Heap
unfolding drop_block
shutdown raw h = if refs sftp raw h.blocks == 1 then drop_block sftp raw h else h

unfoldable pub use_block : Kind → ℕ → Heap → Heap
use_block kind raw h = record h { calls = used kind raw ∷ h.calls }

-- Which blocks have an `Arc` that is cloned: by `Channel::stream`, and by `Sftp::open_mode`.
abbrev pub is_shared : Kind → Bool
is_shared channel = true
is_shared sftp = true
is_shared _ = false

-- What a program may do. A listener makes channels with its own reference to the session.
pub data Op : Type 0 where
  clones_session drops_session : Op
  makes : Kind → Option ℕ → Op
  accepts : ℕ → Option ℕ → Op
  clones releases uses : Kind → ℕ → Op
  shuts_down : ℕ → Op

-- Whether the value that a call is made on is there, without which no program can make it.
abbrev pub can : Op → Heap → Bool
can clones_session h = ltb 0 h.sessions
can drops_session h = ltb 0 h.sessions
can (makes kind ret) h = ltb 0 h.sessions
can (accepts raw ret) h = ltb 0 (refs listener raw h.blocks)
can (clones kind raw) h = is_shared kind && ltb 0 (refs kind raw h.blocks)
can (releases kind raw) h = ltb 0 (refs kind raw h.blocks)
can (uses kind raw) h = ltb 0 (refs kind raw h.blocks)
can (shuts_down raw) h = ltb 0 (refs sftp raw h.blocks)

unfoldable pub perform : Op → Heap → Heap
unfolding clone_session drop_session from_raw_opt clone_block release_block use_block shutdown
perform clones_session h = clone_session h
perform drops_session h = drop_session h
perform (makes kind ret) h = from_raw_opt kind ret h
perform (accepts raw ret) h = from_raw_opt channel ret (use_block listener raw h)
perform (clones kind raw) h = clone_block kind raw h
perform (releases kind raw) h = release_block kind raw h
perform (uses kind raw) h = use_block kind raw h
perform (shuts_down raw) h = shutdown raw h

-- A program that can make each of its calls, from one heap to another.
pub data Steps (h : Heap) : Heap → Type 0 where
  start : Steps h h
  then_ : {h₁ : Heap} (op : Op) → Steps h h₁ → can op h₁ ≡ true → Steps h (perform op h₁)
