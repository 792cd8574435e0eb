-- ===== src/Wal/Seeks.antt =====
-- Seeking in a log, and opening one that was cut.
use mmperp.Prelude.{
  ℕ, zero, suc, ◌+◌, ◌<◌, ◌≡◌, inl, inr, refl, ap, ◌∙◌, subst, true, false, Option, none, some,
  ◌>>=◌, List, [], ◌∷◌, ◌++◌, append_assoc, arith, length, length-append, length-drop, All, leb,
  if◌then◌else◌, Option-cases,
}
use mmperp.Common.Bytes.{read_word, read_word_short, read_word_takes, drop_front}
use mmperp.Wal.Record.{RecordHeader, WalRecord, wal_magic, header_bytes, record_bytes, read_header}
use mmperp.Wal.Reader.{
  ReadError, truncated, ended, read_record, next, open_reader, seek_back, seek_next, seek_on,
  seek_sequence,
}
use mmperp.Wal.Writer.{opened, refused, recovered, open_writer}
use mmperp.Wal.Logs.{
  IsHeader, IsRecord, log_bytes, length-record_bytes, length-log_bytes, next-record_bytes,
  next_truncated, next_torn, scan-log_bytes,
}

-- The records from the first one on whose sequence is the given one or later.
unfoldable pub from_sequence : ℕ → List WalRecord → List WalRecord
from_sequence sequence [] = []
from_sequence sequence (r ∷ rs) =
    if leb sequence r.header.sequence then r ∷ rs else from_sequence sequence rs

back_to :
    (front : List ℕ) (r : WalRecord) (rest : List ℕ)
    → IsRecord r
    → seek_back (front ++ (record_bytes r ++ rest)) rest (24 + r.header.payload_size)
      ≡ record_bytes r ++ rest
back_to front r rest (fits, magic, size, sum) = drop_front _ front (record_bytes r ++ rest) (
    omega (
      arith,
      size,
      length-append front (record_bytes r ++ rest),
      length-append (record_bytes r) rest,
      length-record_bytes r,
    ))

log_nothing : log_bytes [] ≡ []
unfolding log_bytes
log_nothing = refl

seek_on-nothing : (fuel sequence : ℕ) (file : List ℕ) → seek_on fuel file sequence [] ≡ ([], none)
unfolding seek_on
seek_on-nothing zero sequence file = refl
seek_on-nothing (suc fuel) sequence file =
    ap (λ n. seek_next file sequence [] n (seek_on fuel file sequence)) (next_torn [] (omega arith))

sought :
    (fuel sequence : ℕ) (front : List ℕ) (rs : List WalRecord)
    → All IsRecord rs
    → length rs < fuel
    → seek_on fuel (front ++ log_bytes rs) sequence (log_bytes rs)
      ≡ (log_bytes (from_sequence sequence rs), none)
unfolding from_sequence log_bytes seek_on
sought zero sequence front rs h f = absurd (omega arith)
sought (suc fuel) sequence front [] h f = seek_on-nothing (suc fuel) sequence (front ++ [])
sought (suc fuel) sequence front (r ∷ rs) (hr, hs) f =
    let file = front ++ (record_bytes r ++ log_bytes rs) in
    let later : seek_on fuel file sequence (log_bytes rs)
        ≡ (log_bytes (from_sequence sequence rs), none) =
      subst
        (λ t.
          seek_on fuel t sequence (log_bytes rs) ≡ (log_bytes (from_sequence sequence rs), none))
        (append_assoc front (record_bytes r) (log_bytes rs))
        (sought fuel sequence (front ++ record_bytes r) rs hs (omega arith)) in
    ap
      (λ n. seek_next file sequence (record_bytes r ++ log_bytes rs) n (seek_on fuel file sequence))
      (next-record_bytes r (log_bytes rs) hr)
    ∙ elim (leb sequence r.header.sequence)
        as (λ b.
          ◌≡◌ {A = List ℕ × Option ReadError}
            (if b
              then (seek_back file (log_bytes rs) (24 + r.header.payload_size), none)
              else seek_on fuel file sequence (log_bytes rs))
            (log_bytes (if b then r ∷ rs else from_sequence sequence rs), none)) [
              | true ↦ ap (λ t. (t, none)) (back_to front r (log_bytes rs) hr)
              | false ↦ later
            ]

-- Seeking a sequence in a log leaves the reader before the first record with that sequence or a later
-- one, and at the end if there is none.
pub seek_sequence-from_sequence :
    (rs : List WalRecord) (sequence : ℕ)
    → All IsRecord rs
    → seek_sequence (open_reader (log_bytes rs)) sequence
      ≡ (record { file = log_bytes rs; rest = log_bytes (from_sequence sequence rs) }, none)
unfolding seek_sequence
seek_sequence-from_sequence rs sequence h =
    ap (λ (t : List ℕ × Option ReadError). (record { file = log_bytes rs; rest = t.0 }, t.1))
      (sought (suc (length (log_bytes rs))) sequence [] rs h (omega (arith, length-log_bytes rs)))

-- A word that does not fit, or one that does and leaves too little.
short_step {ℓ} :
    {B : Type ℓ} (w n : ℕ) (bytes : List ℕ) (k : ℕ × List ℕ → Option B)
    → ((x : ℕ) (rest : List ℕ) → length rest < n → k (x, rest) ≡ none)
    → length bytes < w + n
    → (read_word w bytes >>= k) ≡ none
short_step w n bytes k h short = elim (Option-cases (read_word w bytes)) [
  | inl e ↦ rw e
  | inr ((x, rest), e) ↦
      let (_, dropped, fits) = read_word_takes w bytes e in
      rw e (h x rest (omega (arith, ap length dropped, length-drop w bytes)))
]

pub read_header_short : (bytes : List ℕ) → length bytes < 24 → read_header bytes ≡ none
unfolding read_header
read_header_short bytes h =
    short_step 4 20 bytes _
      (λ a r h.
        short_step 2 18 r _
          (λ b r h.
            short_step 2 16 r _
              (λ c r h.
                short_step 8 8 r _
                  (λ d r h. short_step 4 4 r _ (λ e r h. rw (read_word_short 4 r h)) h) h)
              h)
          h)
      h

next_short : (bytes : List ℕ) → length bytes < 24 → next bytes ≡ ended
unfolding next read_record
next_short bytes h = rw (read_header_short bytes h)

-- A log whose last record is cut inside its header opens, with the torn bytes kept in the file and the
-- next sequence that of the whole records; one that is cut inside a payload is refused as truncated.
pub open_writer_cut :
    (rs : List WalRecord) (h : RecordHeader) (torn part : List ℕ) (threshold : ℕ)
    → All IsRecord rs
    → IsHeader h
    → h.magic ≡ wal_magic
    → length torn < 24
    → length part < h.payload_size
    → (open_writer (log_bytes rs ++ torn) threshold
        ≡ opened record {
          file = log_bytes rs ++ torn;
          buffer = [];
          flush_threshold = threshold;
          next_sequence = recovered 1 rs;
        })
      × (open_writer (log_bytes rs ++ (header_bytes h ++ part)) threshold ≡ refused truncated)
unfolding open_writer
open_writer_cut rs h torn part threshold records fits magic short cut = (
  rw (scan-log_bytes rs torn none records (next_short torn short)),
  rw (
      scan-log_bytes rs (header_bytes h ++ part) (some truncated) records
        (next_truncated h part fits magic cut)),
)
