-- ===== src/Wal/Logs.antt =====
-- Reading a log back.
use Prim.Native.Nat.{bit_xor}
use mmperp.Prelude.{
  ℕ, zero, suc, ◌+◌, ◌*◌, ◌%◌, ◌^◌, ◌≤◌, ◌<◌, ◌≡◌, refl, ap, ◌∙◌, Option, none, some, List, [], ◌∷◌,
  ◌++◌, append-nil, append_assoc, arith, length, length-append, All,
}
use mmperp.Common.Bytes.{
  read_word-to_bytes, read_word_short, length-to_bytes, take_front, drop_front,
}
use mmperp.Wal.Record.{
  RecordHeader, WalRecord, wal_magic, checksum_from, checksum32, header_bytes, read_header,
  record_bytes,
}
use mmperp.Wal.Reader.{
  ReadError, truncated, Next, next_record, ended, failed, read_payload, read_record, next, Scan,
  scan_next, scan_on, scan,
}

-- The fields fit their types.
pub record IsHeader (h : RecordHeader) : Type 0 where
  pub magic_fits : h.magic < 2 ^ 32
  pub version_fits : h.version < 2 ^ 16
  pub reserved_fits : h.reserved < 2 ^ 16
  pub sequence_fits : h.sequence < 2 ^ 64
  pub payload_size_fits : h.payload_size < 2 ^ 32
  pub checksum_fits : h.checksum < 2 ^ 32

-- A record as the writer makes them.
abbrev pub IsRecord : WalRecord → Type 0
IsRecord r =
    IsHeader r.header
    × (r.header.magic ≡ wal_magic)
    × (r.header.payload_size ≡ length r.payload)
    × (r.header.checksum ≡ checksum32 r.payload)

unfoldable pub log_bytes : List WalRecord → List ℕ
log_bytes [] = []
log_bytes (r ∷ rs) = record_bytes r ++ log_bytes rs

pub checksum_from-lt :
    (hash : ℕ) (bytes : List ℕ) → hash < 2 ^ 32 → checksum_from hash bytes < 2 ^ 32
unfolding checksum_from
checksum_from-lt hash [] h = h
checksum_from-lt hash (b ∷ bytes) h =
    checksum_from-lt (bit_xor hash b * 16777619 % 2 ^ 32) bytes (omega arith)

pub checksum32-lt : (bytes : List ℕ) → checksum32 bytes < 2 ^ 32
unfolding checksum32
checksum32-lt bytes = checksum_from-lt 2166136261 bytes (omega arith)

pub read-header_bytes :
    (h : RecordHeader) (rest : List ℕ)
    → IsHeader h
    → read_header (header_bytes h ++ rest) ≡ some (h, rest)
unfolding read_header header_bytes
read-header_bytes h rest v = rw (
  append_assoc,
  append_assoc,
  append_assoc,
  append_assoc,
  append_assoc,
  read_word-to_bytes 4 h.magic _ v.magic_fits,
  read_word-to_bytes 2 h.version _ v.version_fits,
  read_word-to_bytes 2 h.reserved _ v.reserved_fits,
  read_word-to_bytes 8 h.sequence _ v.sequence_fits,
  read_word-to_bytes 4 h.payload_size _ v.payload_size_fits,
  read_word-to_bytes 4 h.checksum rest v.checksum_fits,
)

pub length-header_bytes : (h : RecordHeader) → length (header_bytes h) ≡ 24
unfolding header_bytes
length-header_bytes h = simp (length-append, length-to_bytes)

length_zero : (xs : List ℕ) → length xs ≡ 0 → xs ≡ []
length_zero [] h = refl
length_zero (x ∷ xs) h = absurd (omega arith)

payload_read :
    (h : RecordHeader) (payload rest : List ℕ)
    → h.payload_size ≡ length payload
    → h.checksum ≡ checksum32 payload
    → read_payload h (payload ++ rest) ≡ next_record (record { header = h; payload = payload }) rest
unfolding read_payload
payload_read h payload rest size sum = ground (
  arith,
  length-append payload rest,
  length_zero payload,
  take_front h.payload_size payload rest,
  drop_front h.payload_size payload rest,
)

-- A record is read back from its bytes, whatever follows them.
pub next-record_bytes :
    (r : WalRecord) (rest : List ℕ)
    → IsRecord r
    → next (record_bytes r ++ rest) ≡ next_record r rest
unfolding next read_record record_bytes
next-record_bytes r rest (fits, magic, size, sum) =
    rw (append_assoc, read-header_bytes r.header (r.payload ++ rest) fits)
      (ground (arith, payload_read r.header r.payload rest))

-- A log cut inside a payload.
pub next_truncated :
    (h : RecordHeader) (part : List ℕ)
    → IsHeader h
    → h.magic ≡ wal_magic
    → length part < h.payload_size
    → next (header_bytes h ++ part) ≡ failed truncated
unfolding next read_record read_payload
next_truncated h part fits magic short = rw (read-header_bytes h part fits) (ground arith)

pub next_torn : (part : List ℕ) → length part < 4 → next part ≡ ended
unfolding next read_record read_header
next_torn part h = rw (read_word_short 4 part h)

-- What ends a scan.
abbrev pub ending : Option ReadError → Next
ending none = ended
ending (some e) = failed e

scan_ended :
    (fuel : ℕ) (tail : List ℕ) (e : Option ReadError)
    → next tail ≡ ending e
    → scan_on (suc fuel) tail ≡ record { records = []; failure = e }
unfolding scan_on
scan_ended fuel tail none h = ap (λ n. scan_next n (scan_on fuel)) h
scan_ended fuel tail (some e) h = ap (λ n. scan_next n (scan_on fuel)) h

pub log_bytes_cons :
    (r : WalRecord) (rs : List WalRecord) (tail : List ℕ)
    → log_bytes (r ∷ rs) ++ tail ≡ record_bytes r ++ (log_bytes rs ++ tail)
unfolding log_bytes
log_bytes_cons r rs tail = append_assoc (record_bytes r) (log_bytes rs) tail

pub length-record_bytes : (r : WalRecord) → length (record_bytes r) ≡ 24 + length r.payload
unfolding record_bytes
length-record_bytes r =
    omega (arith, length-append (header_bytes r.header) r.payload, length-header_bytes r.header)

one_more :
    (r : WalRecord) (rest : List ℕ) (fuel : ℕ) (s : Scan)
    → IsRecord r
    → scan_on fuel rest ≡ s
    → scan_on (suc fuel) (record_bytes r ++ rest) ≡ record s { records = r ∷ s.records }
unfolding scan_on
one_more r rest fuel s h e =
    ap (λ n. scan_next n (scan_on fuel)) (next-record_bytes r rest h)
    ∙ ap (λ (t : Scan). record t { records = r ∷ t.records }) e

scan_logged :
    (rs : List WalRecord) (tail : List ℕ) (e : Option ReadError) (fuel : ℕ)
    → All IsRecord rs
    → next tail ≡ ending e
    → length rs < fuel
    → scan_on fuel (log_bytes rs ++ tail) ≡ record { records = rs; failure = e }
scan_logged rs tail e zero h n f = absurd (omega arith)
scan_logged [] tail e (suc fuel) h n f = unfold log_bytes in scan_ended fuel tail e n
scan_logged (r ∷ rs) tail e (suc fuel) (hr, hs) n f =
    rw (log_bytes_cons r rs tail)
      (one_more r (log_bytes rs ++ tail) fuel _ hr (scan_logged rs tail e fuel hs n (omega arith)))

pub length-log_bytes : (rs : List WalRecord) → length rs ≤ length (log_bytes rs)
unfolding log_bytes
length-log_bytes [] = omega arith
length-log_bytes (r ∷ rs) = omega (
  arith,
  length-append (record_bytes r) (log_bytes rs),
  length-record_bytes r,
  length-log_bytes rs,
)

-- A file that holds the bytes of records as the writer makes them reads back as these records, and
-- then ends as its tail does: without an exception, or with the tail's exception.
pub scan-log_bytes :
    (rs : List WalRecord) (tail : List ℕ) (e : Option ReadError)
    → All IsRecord rs
    → next tail ≡ ending e
    → scan (log_bytes rs ++ tail) ≡ record { records = rs; failure = e }
unfolding scan
scan-log_bytes rs tail e h n =
    scan_logged rs tail e _ h n
      (omega (arith, length-log_bytes rs, length-append (log_bytes rs) tail))

next_nothing : next [] ≡ ended
next_nothing = next_torn [] (omega arith)

pub scan-log_bytes_whole :
    (rs : List WalRecord)
    → All IsRecord rs
    → scan (log_bytes rs) ≡ record { records = rs; failure = none }
scan-log_bytes_whole rs h =
    rw (← append-nil (log_bytes rs)) (scan-log_bytes rs [] none h next_nothing)
