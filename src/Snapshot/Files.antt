-- ===== src/Snapshot/Files.antt =====
-- Reading the snapshot file back.
use mmperp.Prelude.{
  ℕ, zero, suc, ◌+◌, ◌%◌, ◌^◌, ◌≤◌, ◌<◌, ◌≡◌, refl, sym, ap, ◌∙◌, false, some, List, [], ◌∷◌, ◌++◌,
  append_assoc, arith, length, length-append, All, ltb,
}
use mmperp.Common.Bytes.{
  to_bytes, read_word, read_word-to_bytes, length-to_bytes, take_front, drop_front,
}
use mmperp.Wal.Logs.{checksum_from-lt}
use mmperp.Snapshot.Record.{
  SnapshotHeader, EncodedRecord, payload_checksum, snapshot_header_bytes, written_header,
  write_record, read_snapshot_header, next_snapshot, ended, check_sum, check_payload,
  check_snapshot, read_next_record,
}
use mmperp.Snapshot.Store.{loaded, load_next, load_on, load_records, kept_size, write_records}

-- A record as `write_record` makes them.
abbrev pub IsWritten : EncodedRecord → Type 0
IsWritten r =
    (r.header ≡ written_header r.header.sequence r.payload)
    × (r.header.sequence < 2 ^ 32)
    × (length r.payload < 2 ^ 32)

payload_checksum-lt : (payload : List ℕ) → payload_checksum payload < 2 ^ 32
unfolding payload_checksum
payload_checksum-lt payload = checksum_from-lt 2166136261 payload (omega arith)

read-written_header :
    (sequence : ℕ) (payload rest : List ℕ)
    → sequence < 2 ^ 32
    → read_snapshot_header (snapshot_header_bytes (written_header sequence payload) ++ rest)
      ≡ some (written_header sequence payload, rest)
unfolding read_snapshot_header snapshot_header_bytes
read-written_header sequence payload rest h = rw (
  append_assoc,
  append_assoc,
  append_assoc,
  append_assoc,
  read_word-to_bytes 4 0x5443534e _ (omega arith),
  read_word-to_bytes 2 2 _ (omega arith),
  read_word-to_bytes 2 0 _ (omega arith),
  read_word-to_bytes 4 sequence _ h,
  read_word-to_bytes 4 (length payload % 2 ^ 32) rest (omega arith),
)

length-header : (h : SnapshotHeader) → length (snapshot_header_bytes h) ≡ 16
unfolding snapshot_header_bytes
length-header h = simp (length-append, length-to_bytes)

pub length-write_record :
    (sequence : ℕ) (payload : List ℕ)
    → length (write_record sequence payload) ≡ 16 + length payload + 4
unfolding write_record
length-write_record sequence payload = omega (
  arith,
  length-append (snapshot_header_bytes (written_header sequence payload))
      (payload ++ to_bytes 4 (payload_checksum payload)),
  length-header (written_header sequence payload),
  length-append payload (to_bytes 4 (payload_checksum payload)),
  length-to_bytes 4 (payload_checksum payload),
)

sum_checked :
    (r : EncodedRecord) (rest : List ℕ)
    → check_sum r (read_word 4 (to_bytes 4 (payload_checksum r.payload) ++ rest))
      ≡ next_snapshot r rest
unfolding check_sum
sum_checked r rest =
    rw (read_word-to_bytes 4 (payload_checksum r.payload) rest (payload_checksum-lt r.payload))
      (ground arith)

payload_checked :
    (sequence : ℕ) (payload rest : List ℕ)
    → length payload < 2 ^ 32
    → check_payload
        (written_header sequence payload)
        (payload ++ (to_bytes 4 (payload_checksum payload) ++ rest))
      ≡ next_snapshot (record { header = written_header sequence payload; payload = payload }) rest
unfolding check_payload
payload_checked sequence payload rest h =
    let behind = to_bytes 4 (payload_checksum payload) ++ rest in
    let n = length payload % 2 ^ 32 in
    let e : length payload ≡ n = omega arith in
    let fits : ltb (length (payload ++ behind)) n ≡ false =
      ground (arith, length-append payload behind) in
    rw (fits, take_front n payload behind e, drop_front n payload behind e)
      (sum_checked (record { header = written_header sequence payload; payload = payload }) rest)

pub read-write_record :
    (sequence : ℕ) (payload rest : List ℕ)
    → sequence < 2 ^ 32
    → length payload < 2 ^ 32
    → read_next_record (write_record sequence payload ++ rest)
      ≡ next_snapshot (record { header = written_header sequence payload; payload = payload }) rest
unfolding read_next_record check_snapshot write_record
read-write_record sequence payload rest s p =
    let sum = to_bytes 4 (payload_checksum payload) in
    let header = snapshot_header_bytes (written_header sequence payload) in
    ap read_next_record (
      append_assoc header (payload ++ sum) rest
      ∙ ap (λ t. header ++ t) (append_assoc payload sum rest))
    ∙ ap check_snapshot (read-written_header sequence payload (payload ++ (sum ++ rest)) s)
    ∙ payload_checked sequence payload rest p

pub write_records-append :
    (xs ys : List EncodedRecord) → write_records (xs ++ ys) ≡ write_records xs ++ write_records ys
unfolding write_records
write_records-append [] ys = refl
write_records-append (x ∷ xs) ys = simp (write_records-append xs ys, append_assoc)

pub length-write_records : (rs : List EncodedRecord) → length (write_records rs) ≡ kept_size rs
unfolding write_records kept_size
length-write_records [] = refl
length-write_records (r ∷ rs) = omega (
  arith,
  length-append (write_record r.header.sequence r.payload) (write_records rs),
  length-write_record r.header.sequence r.payload,
  length-write_records rs,
)

record_back :
    (r : EncodedRecord) (rest : List ℕ)
    → IsWritten r
    → read_next_record (write_record r.header.sequence r.payload ++ rest) ≡ next_snapshot r rest
record_back r rest (e, s, p) =
    read-write_record r.header.sequence r.payload rest s p
    ∙ ap (λ h. next_snapshot (record r { header = h }) rest) (sym e)

nothing_left : read_next_record [] ≡ ended
unfolding read_next_record check_snapshot read_snapshot_header read_word
nothing_left = refl

load_written :
    (fuel : ℕ) (rs : List EncodedRecord)
    → All IsWritten rs
    → length rs < fuel
    → load_on fuel (write_records rs) ≡ loaded rs
unfolding load_on write_records
load_written zero rs h f = absurd (omega arith)
load_written (suc fuel) [] h f = ap (λ n. load_next n (load_on fuel)) nothing_left
load_written (suc fuel) (r ∷ rs) (hr, hs) f =
    ap (λ n. load_next n (load_on fuel)) (record_back r (write_records rs) hr)
    ∙ ap (λ l. load_next (next_snapshot r []) (λ _. l)) (load_written fuel rs hs (omega arith))

length-le-kept_size : (rs : List EncodedRecord) → length rs ≤ kept_size rs
unfolding kept_size
length-le-kept_size [] = omega arith
length-le-kept_size (r ∷ rs) = omega (arith, length-le-kept_size rs)

-- The records of a file are loaded as they were written.
pub load-write_records :
    (rs : List EncodedRecord)
    → All IsWritten rs
    → load_records (some (write_records rs)) ≡ loaded rs
unfolding load_records
load-write_records rs h =
    load_written _ rs h (omega (arith, length-write_records rs, length-le-kept_size rs))
