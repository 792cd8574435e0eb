-- ===== src/Wal/Reader.antt =====
-- libs/wal/src/wal_writer.cpp: `Reader`, on the bytes of the file.
use mmperp.Prelude.{
  ℕ, zero, suc, ◌+◌, ◌-◌, not, Option, none, some, List, [], ◌∷◌, length, take, drop, ltb, leb,
  ◌==◌, if◌then◌else◌,
}
use mmperp.Wal.Record.{RecordHeader, WalRecord, wal_magic, checksum32, read_header}

-- The exceptions of `next`.
pub data ReadError : Type 0 where
  invalid_magic truncated checksum_mismatch : ReadError

-- What `next` does: `true` with a record and the bytes behind it, `false`, or an exception.
pub data Next : Type 0 where
  next_record : WalRecord → List ℕ → Next
  ended : Next
  failed : ReadError → Next

unfoldable pub read_payload : RecordHeader → List ℕ → Next
read_payload h rest =
    let payload = take h.payload_size rest in
    if h.payload_size == 0
    then next_record (record { header = h; payload = [] }) rest
    else if ltb (length rest) h.payload_size
    then failed truncated
    else if not (h.checksum == checksum32 payload)
    then failed checksum_mismatch
    else next_record (record { header = h; payload = payload }) (drop h.payload_size rest)

unfoldable pub read_record : Option (RecordHeader × List ℕ) → Next
unfolding read_payload
read_record none = ended
read_record (some (h, rest)) =
    if not (h.magic == wal_magic) then failed invalid_magic else read_payload h rest

unfoldable pub next : List ℕ → Next
unfolding read_record
next bytes = read_record (read_header bytes)

-- `while (reader.next(record))`, on fuel: the records read, and the exception that ended it.
pub record Scan : Type 0 where
  pub records : List WalRecord
  pub failure : Option ReadError

abbrev nothing_read : Scan
nothing_read = record { records = []; failure = none }

unfoldable pub scan_next : Next → (List ℕ → Scan) → Scan
scan_next (next_record r rest) again =
    let later = again rest in record later { records = r ∷ later.records }
scan_next ended again = nothing_read
scan_next (failed e) again = record { records = []; failure = some e }

unfoldable pub scan_on : ℕ → List ℕ → Scan
unfolding scan_next
scan_on zero bytes = nothing_read
scan_on (suc fuel) bytes = scan_next (next bytes) (scan_on fuel)

-- Each record takes a byte at least, so that the length of the file is enough fuel.
unfoldable pub scan : List ℕ → Scan
scan bytes = scan_on (suc (length bytes)) bytes

pub record Reader : Type 0 where
  pub file : List ℕ
  pub rest : List ℕ

abbrev pub open_reader : List ℕ → Reader
open_reader file = record { file = file; rest = file }

-- `fseek(file_, -offset, SEEK_CUR)`
abbrev pub seek_back : List ℕ → List ℕ → ℕ → List ℕ
seek_back file rest offset = drop (length file - (length rest + offset)) file

-- The loop of `seek_sequence`: the bytes from the new position on, or the exception.
unfoldable pub seek_next :
    List ℕ → ℕ → List ℕ → Next → (List ℕ → List ℕ × Option ReadError) → List ℕ × Option ReadError
seek_next file sequence bytes (next_record r rest) again =
    if leb sequence r.header.sequence
    then (seek_back file rest (24 + r.header.payload_size), none)
    else again rest
seek_next file sequence bytes ended again = ([], none)
seek_next file sequence bytes (failed e) again = (bytes, some e)

unfoldable pub seek_on : ℕ → List ℕ → ℕ → List ℕ → List ℕ × Option ReadError
unfolding seek_next
seek_on zero file sequence bytes = (bytes, none)
seek_on (suc fuel) file sequence bytes =
    seek_next file sequence bytes (next bytes) (seek_on fuel file sequence)

unfoldable pub seek_sequence : Reader → ℕ → Reader × Option ReadError
unfolding seek_on
seek_sequence r sequence =
    let (rest, failure) = seek_on (suc (length r.file)) r.file sequence r.file in
    (record r { rest = rest }, failure)
