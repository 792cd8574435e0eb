-- ===== src/Wal/Tests.antt =====
-- The log on concrete payloads.
use mmperp.Prelude.{ℕ, ◌≡◌, refl, none, [], ◌∷◌, ◌++◌, arith, take}
use mmperp.Wal.Record.{WalRecord, blank_header, header_bytes}
use mmperp.Wal.Reader.{scan, truncated, open_reader, seek_sequence}
use mmperp.Wal.Writer.{Writer, opened, refused, recovered, stamped, open_writer, sync}
use mmperp.Wal.Logs.{log_bytes, IsRecord, checksum32-lt}
use mmperp.Wal.Appends.{append_all, records_from, append_all-scan}
use mmperp.Wal.Seeks.{from_sequence, seek_sequence-from_sequence, open_writer_cut}

abbrev old : WalRecord
old = stamped 4 blank_header (7 ∷ 7 ∷ [])

old_fine : IsRecord old
old_fine = (
  record {
    magic_fits = omega arith;
    version_fits = omega arith;
    reserved_fits = omega arith;
    sequence_fits = omega arith;
    payload_size_fits = omega arith;
    checksum_fits = checksum32-lt (7 ∷ 7 ∷ []);
  },
  refl,
  refl,
  refl,
)

append_all-scan_example :
    let all = (old ∷ []) ++ records_from (recovered 1 (old ∷ [])) ((1 ∷ []) ∷ [] ∷ []) in
    (w : Writer) × (open_writer (log_bytes (old ∷ [])) 64 ≡ opened w)
    × (scan (sync (append_all w ((1 ∷ []) ∷ [] ∷ []))).file
        ≡ record { records = all; failure = none })
    × ((k : ℕ) × (scan (append_all w ((1 ∷ []) ∷ [] ∷ [])).file
          ≡ record { records = take k all; failure = none }))
append_all-scan_example =
    append_all-scan (old ∷ []) 64 ((1 ∷ []) ∷ [] ∷ []) (old_fine, tt)
      (omega arith, (omega arith, tt))

seek_sequence-from_sequence_example :
    seek_sequence (open_reader (log_bytes (old ∷ []))) 3
    ≡ (record { file = log_bytes (old ∷ []); rest = log_bytes (from_sequence 3 (old ∷ [])) }, none)
seek_sequence-from_sequence_example = seek_sequence-from_sequence (old ∷ []) 3 (old_fine, tt)

open_writer_cut_example :
    (open_writer (log_bytes (old ∷ []) ++ (9 ∷ [])) 64
      ≡ opened record {
        file = log_bytes (old ∷ []) ++ (9 ∷ []);
        buffer = [];
        flush_threshold = 64;
        next_sequence = recovered 1 (old ∷ []);
      })
    × (open_writer (log_bytes (old ∷ []) ++ (header_bytes old.header ++ (7 ∷ []))) 64
        ≡ refused truncated)
open_writer_cut_example =
    open_writer_cut (old ∷ []) old.header (9 ∷ []) (7 ∷ []) 64 (old_fine, tt) old_fine.0 refl
      (omega arith) (omega arith)
