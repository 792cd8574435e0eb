-- ===== src/Snapshot/Record.antt =====
-- libs/snapshot/src/snapshot_store.cpp: the records of the snapshot file.
use mmperp.Prelude.{
  ℕ, ◌+◌, ◌%◌, ◌^◌, ◌&&◌, not, Option, none, some, ◌>>=◌, List, ◌++◌, length, take, drop, ltb, leb,
  ◌==◌, if◌then◌else◌,
}
use mmperp.Common.Bytes.{to_bytes, read_word}
use mmperp.Wal.Record.{checksum_from}

abbrev pub snapshot_magic : ℕ
snapshot_magic = 0x5443534e

abbrev pub version_legacy : ℕ
version_legacy = 1

abbrev pub version_checksummed : ℕ
version_checksummed = 2

pub record SnapshotHeader : Type 0 where
  pub magic : ℕ
  pub version : ℕ
  pub reserved : ℕ
  pub sequence : ℕ
  pub payload_size : ℕ

pub record EncodedRecord : Type 0 where
  pub header : SnapshotHeader
  pub payload : List ℕ

-- The exceptions of the reading functions, and that of a store with no directory.
pub data SnapshotError : Type 0 where
  invalid_magic unsupported_version truncated_payload truncated_checksum : SnapshotError
  checksum_mismatch directory_not_set : SnapshotError

unfoldable pub payload_checksum : List ℕ → ℕ
unfolding checksum_from
payload_checksum payload = checksum_from 2166136261 payload

-- With the header's 16 bytes and the checksum's 4.
abbrev pub encoded_record_size : EncodedRecord → ℕ
encoded_record_size r = 16 + length r.payload + 4

unfoldable pub snapshot_header_bytes : SnapshotHeader → List ℕ
snapshot_header_bytes h =
    to_bytes 4 h.magic
    ++ (to_bytes 2 h.version
        ++ (to_bytes 2 h.reserved ++ (to_bytes 4 h.sequence ++ to_bytes 4 h.payload_size)))

abbrev pub written_header : ℕ → List ℕ → SnapshotHeader
written_header sequence payload = record {
  magic = snapshot_magic;
  version = version_checksummed;
  reserved = 0;
  sequence = sequence;
  payload_size = length payload % 2 ^ 32;
}

-- The bytes that `write_record` puts out.
unfoldable pub write_record : ℕ → List ℕ → List ℕ
unfolding snapshot_header_bytes payload_checksum
write_record sequence payload =
    snapshot_header_bytes (written_header sequence payload)
    ++ (payload ++ to_bytes 4 (payload_checksum payload))

unfoldable pub read_snapshot_header : List ℕ → Option (SnapshotHeader × List ℕ)
read_snapshot_header bytes = do
  (magic, rest) ← read_word 4 bytes
  (version, rest) ← read_word 2 rest
  (reserved, rest) ← read_word 2 rest
  (sequence, rest) ← read_word 4 rest
  (payload_size, rest) ← read_word 4 rest
  some (
    record {
      magic = magic;
      version = version;
      reserved = reserved;
      sequence = sequence;
      payload_size = payload_size;
    },
    rest,
  )

pub data NextSnapshot : Type 0 where
  next_snapshot : EncodedRecord → List ℕ → NextSnapshot
  ended : NextSnapshot
  failed : SnapshotError → NextSnapshot

unfoldable pub check_sum : EncodedRecord → Option (ℕ × List ℕ) → NextSnapshot
check_sum r none = failed truncated_checksum
check_sum r (some (expected, rest)) =
    if expected == payload_checksum r.payload
    then next_snapshot r rest
    else failed checksum_mismatch

unfoldable pub check_payload : SnapshotHeader → List ℕ → NextSnapshot
unfolding check_sum
check_payload h rest =
    let r : EncodedRecord = record { header = h; payload = take h.payload_size rest } in
    let behind = drop h.payload_size rest in
    if ltb (length rest) h.payload_size
    then failed truncated_payload
    else if leb version_checksummed h.version
    then check_sum r (read_word 4 behind)
    else next_snapshot r behind

-- A stream that ends inside a header has reached its end, like one that ends before it.
unfoldable pub check_snapshot : Option (SnapshotHeader × List ℕ) → NextSnapshot
unfolding check_payload
check_snapshot none = ended
check_snapshot (some (h, rest)) =
    if not (h.magic == snapshot_magic)
    then failed invalid_magic
    else if not (h.version == version_legacy) && not (h.version == version_checksummed)
    then failed unsupported_version
    else check_payload h rest

unfoldable pub read_next_record : List ℕ → NextSnapshot
unfolding check_snapshot
read_next_record bytes = check_snapshot (read_snapshot_header bytes)
