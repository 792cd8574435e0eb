-- ===== src/Replay.antt =====
-- libs/replay/src/replay_driver.cpp: the driver, with the bytes of its log. What the handlers are
-- called with is the result.
mod Recovery
mod Tests
use mmperp.Prelude.{
  ℕ, ◌+◌, ◌%◌, ◌^◌, Bool, true, false, not, Option, none, some, List, [], ◌∷◌, ltb, if◌then◌else◌,
}
use mmperp.Wal.Record.{WalRecord}
use mmperp.Wal.Reader.{ReadError, Scan, scan}
use mmperp.Snapshot.Record.{SnapshotError}
use mmperp.Snapshot.Store.{
  SnapshotStore, SnapshotRecord, Latest, found, unreadable, latest, prepare,
}

pub record Driver : Type 0 where
  pub snapshot_store : SnapshotStore
  pub wal : Option (List ℕ)
  pub snapshot_handler : Bool
  pub event_handler : Bool

unfoldable pub configure : Driver → Option (List ℕ) → Option (List ℕ) → Driver
configure d snapshot_file wal = record d {
  snapshot_store = prepare d.snapshot_store snapshot_file;
  wal = wal;
}

unfoldable pub set_snapshot_handler : Driver → Driver
set_snapshot_handler d = record d { snapshot_handler = true }

unfoldable pub set_event_handler : Driver → Driver
set_event_handler d = record d { event_handler = true }

pub data ReplayError : Type 0 where
  no_event_handler : ReplayError
  snapshot_failed : SnapshotError → ReplayError
  log_failed : ReadError → ReplayError

-- The calls of the two handlers, and the exception that ended them.
pub record Replayed : Type 0 where
  pub snapshot_call : Option SnapshotRecord
  pub events : List WalRecord
  pub failure : Option ReplayError

-- The events that the loop does not skip.
unfoldable pub events_from : ℕ → List WalRecord → List WalRecord
events_from resume_from [] = []
events_from resume_from (r ∷ rs) =
    if ltb r.header.sequence resume_from
    then events_from resume_from rs
    else r ∷ events_from resume_from rs

-- A number of 32 bits.
unfoldable pub resume_after : Option SnapshotRecord → ℕ
resume_after none = 1
resume_after (some snap) = (snap.sequence + 1) % 2 ^ 32

abbrev pub log_failure : Option ReadError → Option ReplayError
log_failure none = none
log_failure (some e) = some (log_failed e)

unfoldable pub replay_log : Option SnapshotRecord → ℕ → Option (List ℕ) → Replayed
unfolding events_from
replay_log call resume_from none = record { snapshot_call = call; events = []; failure = none }
replay_log call resume_from (some file) = record {
  snapshot_call = call;
  events = events_from resume_from (scan file).records;
  failure = log_failure (scan file).failure;
}

abbrev pub called : Bool → Option SnapshotRecord → Option SnapshotRecord
called true snap = snap
called false snap = none

unfoldable pub replay_from : Driver → Latest → Replayed
unfolding replay_log resume_after
replay_from d (unreadable e) = record {
  snapshot_call = none;
  events = [];
  failure = some (snapshot_failed e);
}
replay_from d (found snap) = replay_log (called d.snapshot_handler snap) (resume_after snap) d.wal

unfoldable pub execute : Driver → Replayed
unfolding replay_from
execute d =
    if not d.event_handler
    then record { snapshot_call = none; events = []; failure = some no_event_handler }
    else replay_from d (latest d.snapshot_store)
