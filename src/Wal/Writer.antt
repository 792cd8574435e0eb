-- ===== src/Wal/Writer.antt =====
-- libs/wal/src/wal_writer.cpp: `Writer`, with the bytes of its file. Writes to the file succeed.
use mmperp.Prelude.{
  ℕ, ◌+◌, ◌%◌, ◌^◌, Option, none, some, List, [], ◌∷◌, ◌++◌, length, leb, if◌then◌else◌,
}
use mmperp.Wal.Record.{RecordHeader, WalRecord, wal_magic, checksum32, record_bytes}
use mmperp.Wal.Reader.{ReadError, Scan, scan}

pub record Writer : Type 0 where
  pub file : List ℕ
  pub buffer : List ℕ
  pub flush_threshold : ℕ
  pub next_sequence : ℕ

-- `next_sequence_` after each record of the file in turn.
unfoldable pub recovered : ℕ → List WalRecord → ℕ
recovered n [] = n
recovered n (r ∷ rs) = recovered ((r.header.sequence + 1) % 2 ^ 64) rs

-- The constructor throws what reading the file throws.
pub data Opened : Type 0 where
  opened : Writer → Opened
  refused : ReadError → Opened

abbrev open_scanned : List ℕ → ℕ → Scan → Option ReadError → Opened
open_scanned file threshold s (some e) = refused e
open_scanned file threshold s none = opened record {
  file = file;
  buffer = [];
  flush_threshold = threshold;
  next_sequence = recovered 1 s.records;
}

unfoldable pub open_writer : List ℕ → ℕ → Opened
unfolding recovered scan
open_writer file threshold = open_scanned file threshold (scan file) (scan file).failure

unfoldable pub flush : Writer → Writer
flush w = record w { file = w.file ++ w.buffer; buffer = [] }

abbrev pub stamped : ℕ → RecordHeader → List ℕ → WalRecord
stamped n h payload = record {
  header = record h {
    magic = wal_magic;
    version = 1;
    sequence = n;
    payload_size = length payload % 2 ^ 32;
    checksum = checksum32 payload;
  };
  payload = payload;
}

unfoldable pub append : Writer → RecordHeader → List ℕ → Writer
unfolding flush record_bytes
append w h payload =
    let w' = record w {
      buffer = w.buffer ++ record_bytes (stamped w.next_sequence h payload);
      next_sequence = (w.next_sequence + 1) % 2 ^ 64;
    } in
    if leb w.flush_threshold (length w'.buffer) then flush w' else w'

-- The bytes of a flushed file are then brought to the disk.
unfoldable pub sync : Writer → Writer
unfolding flush
sync w = flush w

-- The destructor, where the writing succeeds.
unfoldable pub close_writer : Writer → Writer
unfolding flush
close_writer w = flush w
