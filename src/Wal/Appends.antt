-- ===== src/Wal/Appends.antt =====
-- What the writer leaves in its file.
use mmperp.Prelude.{
  ℕ, suc, ◌+◌, ◌%◌, ◌^◌, ◌<◌, ◌≡◌, refl, sym, ap, ◌∙◌, subst, true, false, none, List, [], ◌∷◌,
  ◌++◌, append-nil, append_assoc, arith, length, All-append, take_whole, take, All, leb,
  if◌then◌else◌,
}
use mmperp.Wal.Record.{WalRecord, blank_header, record_bytes}
use mmperp.Wal.Reader.{scan}
use mmperp.Wal.Writer.{Writer, opened, recovered, open_writer, flush, stamped, append, sync}
use mmperp.Wal.Logs.{IsRecord, log_bytes, checksum32-lt, scan-log_bytes_whole}

abbrev pub Fits : List ℕ → Type 0
Fits payload = length payload < 2 ^ 32

-- Payloads, one after another.
unfoldable pub append_all : Writer → List (List ℕ) → Writer
append_all w [] = w
append_all w (payload ∷ payloads) = append_all (append w blank_header payload) payloads

-- The records that they make: the sequences are consecutive.
unfoldable pub records_from : ℕ → List (List ℕ) → List WalRecord
records_from n [] = []
records_from n (payload ∷ payloads) =
    stamped n blank_header payload ∷ records_from ((n + 1) % 2 ^ 64) payloads

stamped-IsRecord :
    (n : ℕ) (payload : List ℕ)
    → n < 2 ^ 64
    → Fits payload
    → IsRecord (stamped n blank_header payload)
stamped-IsRecord n payload h f = (
  record {
    magic_fits = omega arith;
    version_fits = omega arith;
    reserved_fits = omega arith;
    sequence_fits = h;
    payload_size_fits = omega arith;
    checksum_fits = checksum32-lt payload;
  },
  refl,
  omega arith,
  refl,
)

pub log_bytes-append :
    (xs ys : List WalRecord) → log_bytes (xs ++ ys) ≡ log_bytes xs ++ log_bytes ys
unfolding log_bytes
log_bytes-append [] ys = refl
log_bytes-append (x ∷ xs) ys = simp (log_bytes-append xs ys, append_assoc)

-- The file has the bytes of some records, and the buffer those of the records after them.
record Holds (w : Writer) (written pending : List WalRecord) : Type 0 where
  file_lem : w.file ≡ log_bytes written
  buffer_lem : w.buffer ≡ log_bytes pending
  written_records : All IsRecord written
  pending_records : All IsRecord pending
  sequence_fits : w.next_sequence < 2 ^ 64

flush-Holds : {w : Writer} {xs ys : List WalRecord} → Holds w xs ys → Holds (flush w) (xs ++ ys) []
unfolding flush
flush-Holds {w} {xs} {ys} h = record {
  file_lem = rw (h.file_lem, h.buffer_lem, log_bytes-append xs ys);
  buffer_lem = unfold log_bytes in refl;
  written_records = All-append IsRecord xs ys h.written_records h.pending_records;
  pending_records = tt;
  sequence_fits = h.sequence_fits;
}

abbrev buffered : Writer → List ℕ → Writer
buffered w payload = record w {
  buffer = w.buffer ++ record_bytes (stamped w.next_sequence blank_header payload);
  next_sequence = (w.next_sequence + 1) % 2 ^ 64;
}

pub single_bytes : (r : WalRecord) → log_bytes (r ∷ []) ≡ record_bytes r
unfolding log_bytes
single_bytes r = append-nil (record_bytes r)

buffered-Holds :
    {w : Writer} {xs ys : List WalRecord} (payload : List ℕ)
    → Holds w xs ys
    → Fits payload
    → Holds (buffered w payload) xs (ys ++ stamped w.next_sequence blank_header payload ∷ [])
buffered-Holds {w} {xs} {ys} payload h f =
    let r = stamped w.next_sequence blank_header payload in
    record {
      file_lem = h.file_lem;
      buffer_lem =
          ap (λ b. b ++ record_bytes r) h.buffer_lem
          ∙ ap (λ b. log_bytes ys ++ b) (sym (single_bytes r))
          ∙ sym (log_bytes-append ys (r ∷ []));
      written_records = h.written_records;
      pending_records =
          All-append IsRecord ys (r ∷ []) h.pending_records
            (stamped-IsRecord w.next_sequence payload h.sequence_fits f, tt);
      sequence_fits = omega arith;
    }

-- Appending adds one record, to the buffer or to the file, which keeps what it had.
HoldsAll : Writer → List WalRecord → List WalRecord → Type 0
HoldsAll w rs new =
    (xs : List WalRecord) × (ys : List WalRecord) × Holds w (rs ++ xs) ys × (xs ++ ys ≡ new)

append-HoldsAll :
    (w : Writer) (rs new : List WalRecord) (payload : List ℕ)
    → HoldsAll w rs new
    → Fits payload
    → HoldsAll
        (append w blank_header payload)
        rs
        (new ++ stamped w.next_sequence blank_header payload ∷ [])
unfolding HoldsAll append
append-HoldsAll w rs new payload (xs, ys, h, e) f =
    let r = stamped w.next_sequence blank_header payload in
    let h' = buffered-Holds payload h f in
    let flushed =
      subst (λ zs. Holds (flush (buffered w payload)) zs []) (append_assoc rs xs (ys ++ r ∷ []))
        (flush-Holds h') in
    let same : xs ++ (ys ++ r ∷ []) ≡ new ++ r ∷ [] =
      sym (append_assoc xs ys (r ∷ [])) ∙ ap (λ t. t ++ r ∷ []) e in
    elim (leb w.flush_threshold (length (buffered w payload).buffer))
      as (λ b.
        HoldsAll (if b then flush (buffered w payload) else buffered w payload) rs
          (new ++ r ∷ [])) [
            | true ↦ (xs ++ (ys ++ r ∷ []), [], flushed, append-nil (xs ++ (ys ++ r ∷ [])) ∙ same)
            | false ↦ (xs, ys ++ r ∷ [], h', same)
          ]

next_sequence-append :
    (w : Writer) (payload : List ℕ)
    → (append w blank_header payload).next_sequence ≡ (w.next_sequence + 1) % 2 ^ 64
unfolding append flush
next_sequence-append w payload = ground arith

append_all-HoldsAll :
    (w : Writer) (rs new : List WalRecord) (payloads : List (List ℕ))
    → HoldsAll w rs new
    → All Fits payloads
    → HoldsAll (append_all w payloads) rs (new ++ records_from w.next_sequence payloads)
unfolding append_all records_from
append_all-HoldsAll w rs new [] h f = rw (append-nil new) h
append_all-HoldsAll w rs new (payload ∷ payloads) h (f, fs) =
    let r = stamped w.next_sequence blank_header payload in
    let w' = append w blank_header payload in
    let rest = records_from ((w.next_sequence + 1) % 2 ^ 64) payloads in
    subst (HoldsAll (append_all w' payloads) rs) (append_assoc new (r ∷ []) rest) (
      subst (λ n. HoldsAll (append_all w' payloads) rs ((new ++ r ∷ []) ++ records_from n payloads))
        (next_sequence-append w payload)
        (append_all-HoldsAll w' rs (new ++ r ∷ []) payloads (append-HoldsAll w rs new payload h f)
          fs))

recovered-lt : (n : ℕ) (rs : List WalRecord) → n < 2 ^ 64 → recovered n rs < 2 ^ 64
unfolding recovered
recovered-lt n [] h = h
recovered-lt n (r ∷ rs) h = recovered-lt ((r.header.sequence + 1) % 2 ^ 64) rs (omega arith)

abbrev pub reopened : List WalRecord → ℕ → Writer
reopened rs threshold = record {
  file = log_bytes rs;
  buffer = [];
  flush_threshold = threshold;
  next_sequence = recovered 1 rs;
}

pub open_writer-log_bytes :
    (rs : List WalRecord) (threshold : ℕ)
    → All IsRecord rs
    → open_writer (log_bytes rs) threshold ≡ opened (reopened rs threshold)
unfolding open_writer
open_writer-log_bytes rs threshold h = rw (scan-log_bytes_whole rs h)

-- The file of a writer, synced or not, has the old records and a first part of the new ones.
pub record Keeps (rs new : List WalRecord) (w : Writer) : Type 0 where
  pub count : ℕ
  pub file_lem : w.file ≡ log_bytes (rs ++ take count new)
  pub synced_lem : (sync w).file ≡ log_bytes (rs ++ new)
  pub kept_records : All IsRecord (rs ++ take count new)
  pub all_records : All IsRecord (rs ++ new)

HoldsAll-Keeps : (w : Writer) (rs new : List WalRecord) → HoldsAll w rs new → Keeps rs new w
unfolding HoldsAll sync
HoldsAll-Keeps w rs new (xs, ys, h, e) =
    let h' = flush-Holds h in
    let all : (rs ++ xs) ++ ys ≡ rs ++ new = append_assoc rs xs ys ∙ ap (λ t. rs ++ t) e in
    let part : xs ≡ take (length xs) new = sym (take_whole xs ys) ∙ ap (take (length xs)) e in
    record {
      count = length xs;
      file_lem = h.file_lem ∙ ap (λ t. log_bytes (rs ++ t)) part;
      synced_lem = h'.file_lem ∙ ap log_bytes all;
      kept_records = subst (λ t. All IsRecord (rs ++ t)) part h.written_records;
      all_records = subst (All IsRecord) all h'.written_records;
    }

-- A writer that opened on some records, and appended payloads.
pub append_all-Keeps :
    (rs : List WalRecord) (threshold : ℕ) (payloads : List (List ℕ))
    → All IsRecord rs
    → All Fits payloads
    → Keeps rs
        (records_from (recovered 1 rs) payloads)
        (append_all (reopened rs threshold) payloads)
unfolding HoldsAll
append_all-Keeps rs threshold payloads h f =
    let start : Holds (reopened rs threshold) (rs ++ []) [] = record {
      file_lem = ap log_bytes (sym (append-nil rs));
      buffer_lem = unfold log_bytes in refl;
      written_records = subst (All IsRecord) (sym (append-nil rs)) h;
      pending_records = tt;
      sequence_fits = recovered-lt 1 rs (omega arith);
    } in
    HoldsAll-Keeps (append_all (reopened rs threshold) payloads) rs _
      (append_all-HoldsAll (reopened rs threshold) rs [] payloads ([], [], start, refl) f)

scanned :
    {bytes : List ℕ} (rs : List WalRecord)
    → bytes ≡ log_bytes rs
    → All IsRecord rs
    → scan bytes ≡ record { records = rs; failure = none }
scanned rs e h = ap scan e ∙ scan-log_bytes_whole rs h

take-append_more :
    (rs new : List WalRecord) (k : ℕ) → take (length rs + k) (rs ++ new) ≡ rs ++ take k new
take-append_more [] new k = ap (λ n. take n new) (omega arith)
take-append_more (r ∷ rs) new k =
    let longer : suc (length rs) + k ≡ suc (length rs + k) = omega arith in
    ap (λ n. take n (r ∷ (rs ++ new))) longer ∙ ap (λ t. r ∷ t) (take-append_more rs new k)

-- A writer opens on the records that an earlier one left, and appends payloads of less than 2^32
-- bytes. After a sync the file reads back as the old records and one record for each payload, in order
-- and with consecutive sequences; without it, as the first of these, so that a crash loses only
-- records at the end and tears none.
pub append_all-scan :
    (rs : List WalRecord) (threshold : ℕ) (payloads : List (List ℕ))
    → All IsRecord rs
    → All Fits payloads
    → let all = rs ++ records_from (recovered 1 rs) payloads in
      (w : Writer) × (open_writer (log_bytes rs) threshold ≡ opened w)
      × (scan (sync (append_all w payloads)).file ≡ record { records = all; failure = none })
      × ((k : ℕ) × (scan (append_all w payloads).file
            ≡ record { records = take k all; failure = none }))
unfolding HoldsAll
append_all-scan rs threshold payloads h f =
    let new = records_from (recovered 1 rs) payloads in
    let k = append_all-Keeps rs threshold payloads h f in
    (
      reopened rs threshold,
      open_writer-log_bytes rs threshold h,
      scanned (rs ++ new) k.synced_lem k.all_records,
      (
        length rs + k.count,
        scanned (rs ++ take k.count new) k.file_lem k.kept_records
            ∙ ap (λ t. record { records = t; failure = none })
                (sym (take-append_more rs new k.count)),
      ),
    )
