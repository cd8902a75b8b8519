-- ===== src/Wal/Shard.antt =====
-- The goroutine of a shard in `WALStaging` of pkg/metricstore/walCheckpoint.go, as far as one host
-- directory goes: the file current.wal on the disk and the writer that is open on it. Whether a
-- file can be opened is told by the caller. A bufio.Writer may hand a part of what it holds to the
-- file at any time; a flush hands it all. Removing and flushing do not fail here.
pub mod Prefix
pub mod Invariant
pub mod Durable
mod Tests
use cc_backend.Common.{
  ℕ, zero, suc, ◌+◌, ◌-◌, ◌*◌, ◌/◌, ◌%◌, ◌^◌, ◌≤◌, ◌<◌, ℤ, pos, negsuc, sub_ℕ, pos_part, neg_part,
  ltb_ℤ, leb_ℤ, ◌≤ℤ◌, ◌<ℤ◌, ◌+ℤ◌, ◌-ℤ◌, ◌≡◌, refl, sym, ap, ◌∙◌, Bool, true, false, not, ◌&&◌, ◌||◌,
  Option, none, some, List, [], ◌∷◌, ◌++◌, map, append-nil, append_assoc, ltb, leb, ◌==◌, length,
  get_elem?, ◌⊎◌, inl, inr, ◌↔◌, ◌≢◌, get_or, set, replicate, take, drop, if◌then◌else◌, arith,
  int_laws, Bool-cases, Option-cases, length-append, length-replicate, length-set, All, All-append,
  le→leb, gt→leb, lt→ltb, ge→ltb, ltb→lt, leb→le, ==_iff,
}
use cc_backend.Bytes.{Bytes, put_le, get_le, split_at}
use cc_backend.Wal.{Encoding, WalMessage, write_wal_record, replay_records}

abbrev pub wal_file_magic : ℕ
wal_file_magic = 0xCC1DA701

-- walFileState: what the writer holds and has not handed to the file, `size` and `dirty`
pub record Writer : Type 0 where
  pub pending : Bytes
  pub size : ℕ
  pub dirty : Bool

-- `file` is empty where there is no file.
pub record HostWal : Type 0 where
  pub file : Bytes
  pub writer : Option Writer

-- What an event does to the list of messages that the log stands for.
pub data Effect (M : Type 0) : Type 0 where
  unchanged : Effect M
  added : M → Effect M
  restarted : M → Effect M
  cleared : Effect M

abbrev pub apply_effect : {M : Type 0} → Effect M → List M → List M
apply_effect unchanged log = log
apply_effect (added m) log = log ++ m ∷ []
apply_effect (restarted m) log = m ∷ []
apply_effect cleared log = []

-- An event of the loop for this host: a message, with whether the file can be opened and opened
-- again; a request to rotate; the ticker; a partial write of bufio; the end of the goroutine.
pub data WalEvent (M : Type 0) : Type 0 where
  message : Bool → Bool → M → WalEvent M
  rotate : WalEvent M
  tick : WalEvent M
  spill : ℕ → WalEvent M
  shut_down : WalEvent M

-- getOrOpenWAL, up to nil
unfoldable pub open_writer : HostWal → Writer
open_writer h =
    if length h.file == 0
    then record { pending = put_le 4 wal_file_magic; size = 4; dirty = false }
    else record { pending = []; size = length h.file; dirty = false }

unfoldable pub get_or_open_wal : Bool → HostWal → Option Writer
get_or_open_wal can_open h = elim h.writer [
  | some w ↦ some w
  | none ↦ if can_open then some (open_writer h) else none
]

unfoldable pub flush_dirty : HostWal → HostWal
flush_dirty h = elim h.writer [
  | none ↦ h
  | some w ↦
      if w.dirty
      then record {
        file = h.file ++ w.pending;
        writer = some (record w { pending = []; dirty = false });
      }
      else h
]

-- Flush, Close and Remove
abbrev pub removed : HostWal
removed = record { file = []; writer = none }

unfoldable pub process_rotate : {M : Type 0} → HostWal → HostWal × Effect M
process_rotate h = elim h.writer [ none ↦ (h, unchanged) | some w ↦ (removed, cleared) ]

unfoldable pub spill_some : ℕ → HostWal → HostWal
spill_some k h = elim h.writer [
  | none ↦ h
  | some w ↦ record {
    file = h.file ++ take k w.pending;
    writer = some (record w { pending = drop k w.pending });
  }
]

-- The deferred function
unfoldable pub close_all : HostWal → HostWal
close_all h = elim h.writer [
  | none ↦ h
  | some w ↦ record { file = h.file ++ w.pending; writer = none }
]

module _ (en : Encoding) (max_size : ℕ) where
  open en use {Float}

  -- The tail of `processMsg`.
  unfoldable pub append_record : HostWal → Writer → WalMessage Float → HostWal
  append_record h w msg = record {
    file = h.file;
    writer = some (record {
      pending = w.pending ++ write_wal_record en msg;
      size = w.size + length (write_wal_record en msg);
      dirty = true;
    });
  }

  unfoldable pub process_msg :
      HostWal → Bool → Bool → WalMessage Float → HostWal × Effect (WalMessage Float)
  process_msg h can_open can_reopen msg = elim (get_or_open_wal can_open h) [
    | none ↦ (h, unchanged)
    | some w ↦
        if ltb 0 max_size && leb max_size w.size
        then (elim (get_or_open_wal can_reopen removed) [
          | none ↦ (removed, cleared)
          | some v ↦ (append_record removed v msg, restarted msg)
        ])
        else (append_record h w msg, added msg)
  ]

  unfoldable pub step : HostWal → WalEvent (WalMessage Float) → HostWal × Effect (WalMessage Float)
  step h (message can_open can_reopen msg) = process_msg h can_open can_reopen msg
  step h rotate = process_rotate h
  step h tick = (flush_dirty h, unchanged)
  step h (spill k) = (spill_some k h, unchanged)
  step h shut_down = (close_all h, unchanged)

  -- The state and the messages that the log stands for, after some events.
  unfoldable pub run :
      HostWal
      → List (WalMessage Float)
      → List (WalEvent (WalMessage Float))
      → HostWal × List (WalMessage Float)
  run h log [] = (h, log)
  run h log (e ∷ es) = let (h', effect) = step h e in run h' (apply_effect effect log) es

module _ (en : Encoding) where
  open en use {Float}

  -- `loadWALFile` up to what it does with a record: `none` is an error.
  unfoldable pub load_wal_file : Bytes → Option (List (WalMessage Float))
  load_wal_file [] = some []
  load_wal_file (b ∷ bs) = elim (split_at 4 (b ∷ bs)) [
    | none ↦ none
    | some (magic, rest) ↦
        if get_le magic == wal_file_magic then some (replay_records en rest) else none
  ]
