-- ===== src/Node/Durable.antt =====
-- What the log holds after a round of the event loop.
use mmperp.Prelude.{
  ℕ, ◌+◌, ◌^◌, ◌<◌, ◌≡◌, sym, ap, ◌∙◌, subst, none, List, [], ◌∷◌, ◌++◌, map, arith, length,
  length-append, take, All,
}
use mmperp.Common.Bytes.{to_bytes, to_word, length-to_bytes}
use mmperp.Ingress.{Frame}
use mmperp.Wal.Record.{WalRecord}
use mmperp.Wal.Reader.{scan}
use mmperp.Wal.Writer.{Writer, opened, recovered, open_writer, sync}
use mmperp.Wal.Logs.{IsRecord, log_bytes}
use mmperp.Wal.Appends.{
  Keeps, append_all-Keeps, reopened, open_writer-log_bytes, Fits, append_all, records_from,
  append_all-scan,
}
use mmperp.Node.Fills.{Node, kind_byte, build_wal_payload}
use mmperp.Node.Loop.{tick}
use mmperp.Node.Drained.{Waiting, tick-Emptied}

-- The record's size field has 32 bits, and the payload of the record 25 bytes more than the frame's.
abbrev pub IsLoggable : Frame → Type 0
IsLoggable f = length f.payload + 25 < 2 ^ 32

field_length : (w n : ℕ) (rest : List ℕ) → length (to_bytes w n ++ rest) ≡ w + length rest
field_length w n rest = omega (arith, length-append (to_bytes w n) rest, length-to_bytes w n)

length-build_wal_payload : (f : Frame) → length (build_wal_payload f) ≡ length f.payload + 25
unfolding build_wal_payload
length-build_wal_payload f =
    let stamp = to_word f.header.received_time_ns in
    let rest = to_bytes 8 stamp ++ f.payload in
    omega (
      arith,
      field_length 1 (kind_byte f.header.kind)
          (to_bytes 8 f.header.account ++ (to_bytes 8 f.header.nonce ++ rest)),
      field_length 8 f.header.account (to_bytes 8 f.header.nonce ++ rest),
      field_length 8 f.header.nonce rest,
      field_length 8 stamp f.payload,
    )

logged-Fits :
    (frames : List Frame) → All IsLoggable frames → All Fits (map build_wal_payload frames)
logged-Fits [] h = tt
logged-Fits (f ∷ frames) (h, hs) =
    (omega (arith, length-build_wal_payload f), logged-Fits frames hs)

opened-inj : (v w : Writer) → opened v ≡ opened w → v ≡ w
opened-inj v w h = cc

-- The log to which frames were appended.
pub appended-Keeps :
    (rs : List WalRecord) (threshold : ℕ) (frames : List Frame) (old new : Writer)
    → All IsRecord rs
    → All IsLoggable frames
    → open_writer (log_bytes rs) threshold ≡ opened old
    → new ≡ append_all old (map build_wal_payload frames)
    → Keeps rs (records_from (recovered 1 rs) (map build_wal_payload frames)) new
appended-Keeps rs threshold frames old new h fits o e =
    let payloads = map build_wal_payload frames in
    subst (Keeps rs (records_from (recovered 1 rs) payloads))
      (ap (λ w. append_all w payloads)
          (opened-inj (reopened rs threshold) old (sym (open_writer-log_bytes rs threshold h) ∙ o))
        ∙ sym e)
      (append_all-Keeps rs threshold payloads h (logged-Fits frames fits))

-- What is read back of a log to which frames were appended.
pub appended-scan :
    (rs : List WalRecord) (threshold : ℕ) (frames : List Frame) (old new : Writer)
    → All IsRecord rs
    → All IsLoggable frames
    → open_writer (log_bytes rs) threshold ≡ opened old
    → new ≡ append_all old (map build_wal_payload frames)
    → let all = rs ++ records_from (recovered 1 rs) (map build_wal_payload frames) in
      (scan (sync new).file ≡ record { records = all; failure = none })
      × ((k : ℕ) × (scan new.file ≡ record { records = take k all; failure = none }))
appended-scan rs threshold frames old new h fits o e =
    let payloads = map build_wal_payload frames in
    let all = rs ++ records_from (recovered 1 rs) payloads in
    let (v, opens, synced, crashed) =
      append_all-scan rs threshold payloads h (logged-Fits frames fits) in
    subst
      (λ u.
        (scan (sync u).file ≡ record { records = all; failure = none })
        × ((k : ℕ) × (scan u.file ≡ record { records = take k all; failure = none })))
      (ap (λ u. append_all u payloads) (opened-inj v old (sym opens ∙ o)) ∙ sym e) (synced, crashed)

-- A program whose writer opened on a log of well-formed records finds frames of less than 2^32 - 25
-- bytes in its queues. After one round of the event loop and a sync the log reads back as the old
-- records and one record for each frame, in the order in which they were taken and with consecutive
-- sequences, whether or not the frame's message was decoded, accepted or matched. If the program stops
-- before the sync, a first part of these is read back.
pub tick-scan :
    (n : Node) (rs : List WalRecord) (threshold : ℕ) (orders cancels replaces : List Frame)
    → All IsRecord rs
    → open_writer (log_bytes rs) threshold ≡ opened n.wal
    → Waiting n.ingress orders cancels replaces
    → All IsLoggable (orders ++ (cancels ++ replaces))
    → n.block_number < 2 ^ 64
    → let frames = orders ++ (cancels ++ replaces) in
      let all = rs ++ records_from (recovered 1 rs) (map build_wal_payload frames) in
      let wal = (tick n).0.wal in
      (scan (sync wal).file ≡ record { records = all; failure = none })
      × ((k : ℕ) × (scan wal.file ≡ record { records = take k all; failure = none }))
tick-scan n rs threshold orders cancels replaces h o w fits l =
    appended-scan rs threshold (orders ++ (cancels ++ replaces)) n.wal (tick n).0.wal h fits o
      (tick-Emptied n orders cancels replaces w l).wal_lem
