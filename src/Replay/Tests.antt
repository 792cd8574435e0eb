-- ===== src/Replay/Tests.antt =====
-- A replay on a concrete log, with a snapshot at sequence 1.
use mmperp.Prelude.{◌≡◌, refl, true, none, some, [], ◌∷◌, arith, drop}
use mmperp.Wal.Writer.{Writer, opened, open_writer, sync}
use mmperp.Wal.Appends.{append_all, records_from}
use mmperp.Snapshot.Record.{
  write_record, snapshot_header_bytes, payload_checksum, read_snapshot_header, read_next_record,
  check_snapshot, check_payload, check_sum,
}
use mmperp.Snapshot.Store.{
  found, latest, write_records, load_records, load_on, load_next, last_snapshot,
}
use mmperp.Snapshot.Compaction.{newest}
use mmperp.Wal.Record.{checksum_from}
use mmperp.Common.Bytes.{to_bytes, from_bytes, read_word}
use mmperp.Replay.{Driver, execute}
use mmperp.Replay.Recovery.{execute-records_from}

abbrev driver : Driver
driver = record {
  snapshot_store = record {
    prepared = true;
    file = some (write_records (newest 1 (7 ∷ []) ∷ []));
    options = record { max_records = 2; max_file_bytes = 0 };
  };
  wal = none;
  snapshot_handler = true;
  event_handler = true;
}

stored : latest driver.snapshot_store ≡ found (some record { sequence = 1; payload = 7 ∷ [] })
unfolding latest load_records load_on load_next last_snapshot write_records write_record
    snapshot_header_bytes payload_checksum checksum_from read_next_record read_snapshot_header
    check_snapshot check_payload check_sum read_word to_bytes from_bytes
stored = refl

execute-records_from_example :
    (w : Writer) × (open_writer [] 64 ≡ opened w)
    × (execute (record driver { wal = some (sync (append_all w ((1 ∷ []) ∷ (2 ∷ []) ∷ []))).file })
        ≡ record {
          snapshot_call = some record { sequence = 1; payload = 7 ∷ [] };
          events = drop 1 (records_from 1 ((1 ∷ []) ∷ (2 ∷ []) ∷ []));
          failure = none;
        })
execute-records_from_example =
    execute-records_from driver (record { sequence = 1; payload = 7 ∷ [] }) 64
      ((1 ∷ []) ∷ (2 ∷ []) ∷ []) refl refl stored (omega arith) (omega arith)
      (omega arith, (omega arith, tt))
