-- ===== src/FileLog.antt =====
-- old/pkg/filelog/filelog.go: the log that one goroutine writes. A step of a goroutine that the
-- others can see is a step of the whole.
pub mod Order
use omni_sshagent.Base.{
  ℕ, zero, suc, ◌<◌, Bool, true, false, ◌||◌, ◌&&◌, List, [], ◌∷◌, ◌++◌, length, if◌then◌else◌, ◌≡◌,
}
use omni_sshagent.Files.{Bytes}

pub data Sink : Type 0 where
  to_file to_stderr : Sink

-- A slice that a caller has given to `Write`: the log keeps it, and no copy of its bytes.
abbrev pub Slice : Type 0
Slice = ℕ

-- What the worker has tried to write: where, which slice, the bytes that it then held, and whether
-- the call of package os has succeeded; its error is dropped.
pub record Attempt : Type 0 where
  pub sink : Sink
  pub slice : Slice
  pub bytes : Bytes
  pub succeeds : Bool

-- The channel with its size, the writers between the check of `Write` and their send, and what the
-- worker has tried to write. `memory` holds the bytes of the slices. `sent` records, for the theorems, what the channel has taken.
pub record Log : Type 0 where
  pub size : ℕ
  pub enabled : Bool
  pub file_open : Bool
  pub cancelled : Bool
  pub stopped : Bool
  pub memory : Slice → Bytes
  pub waiting : List Slice
  pub queue : List Slice
  pub sent : List Slice
  pub out : List Attempt

-- How the calls of package os end that open the file, and the one that writes.
pub record Opening : Type 0 where
  pub has_config_dir : Bool
  pub opens : Bool
  pub makes_dir : Bool
  pub opens_again : Bool
  pub writes : Bool

unfoldable pub open_file : Opening → Bool
open_file o = o.opens || o.makes_dir && o.opens_again

unfoldable pub ensure_file_open : Opening → Bool → Bool
unfolding open_file
ensure_file_open o is_open = if is_open then true else o.has_config_dir && open_file o

abbrev pub attempt : Sink → Opening → Slice → Log → Attempt
attempt sink o p l = record { sink = sink; slice = p; bytes = l.memory p; succeeds = o.writes }

unfoldable pub write_bytes : Opening → Slice → Log → Log
unfolding ensure_file_open
write_bytes o p l =
    if l.enabled
    then (let f = ensure_file_open o l.file_open in
        record l {
          file_open = f;
          out = l.out ++ attempt (if f then to_file else to_stderr) o p l ∷ [];
        })
    else record l { out = l.out ++ attempt to_stderr o p l ∷ [] }

abbrev pub new_log : ℕ → (Slice → Bytes) → Log
new_log size memory = record {
  size = size;
  enabled = false;
  file_open = false;
  cancelled = false;
  stopped = false;
  memory = memory;
  waiting = [];
  queue = [];
  sent = [];
  out = [];
}

-- A step from one state to the next.
pub data Goes : Log → Log → Type 0 where
  -- `Write` has found the context alive.
  checks :
      (p : Slice) (l : Log) → l.cancelled ≡ false → Goes l (record l { waiting = p ∷ l.waiting })
  -- One of the waiting writers sends, while the channel has room.
  sends :
      (before after : List Slice) (p : Slice) (l : Log)
      → l.waiting ≡ before ++ p ∷ after
      → length l.queue < l.size
      → Goes l (record l {
        waiting = before ++ after;
        queue = l.queue ++ p ∷ [];
        sent = l.sent ++ p ∷ [];
      })
  -- The worker takes one and writes it, also while it drains the channel.
  takes :
      (o : Opening) (p : Slice) (rest : List Slice) (l : Log)
      → l.stopped ≡ false
      → l.queue ≡ p ∷ rest
      → Goes l (write_bytes o p (record l { queue = rest }))
  -- `Close` cancels.
  cancels : (l : Log) → Goes l (record l { cancelled = true })
  -- The worker has drained the channel: it finds it empty, closes the file and is done.
  stops :
      (l : Log)
      → l.cancelled ≡ true
      → l.stopped ≡ false
      → l.queue ≡ []
      → Goes l (record l { stopped = true; file_open = false })
  -- A caller writes other bytes into its slices, as package log does behind `Write`.
  reuses : (memory : Slice → Bytes) (l : Log) → Goes l (record l { memory = memory })
  -- `SetEnable`
  enables : (b : Bool) (l : Log) → Goes l (record l { enabled = b })

-- What can be reached from a new log.
pub data Reachable (size : ℕ) : Log → Type 0 where
  start : (memory : Slice → Bytes) → Reachable size (new_log size memory)
  goes : (l m : Log) → Reachable size l → Goes l m → Reachable size m
