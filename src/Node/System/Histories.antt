-- ===== src/Node/System/Histories.antt =====
-- Any number of runs of the program, each started on the log that the one before it left.
use mmperp.Prelude.{
  ℕ, zero, suc, ◌+◌, ◌%◌, ◌^◌, ◌≡◌, refl, sym, ap, ◌∙◌, subst, none, List, [], ◌∷◌, ◌++◌, map, take,
  All,
}
use mmperp.Ingress.{Frame}
use mmperp.Wal.Record.{WalRecord, blank_header}
use mmperp.Wal.Reader.{scan}
use mmperp.Wal.Writer.{stamped, open_writer, opened, recovered}
use mmperp.Wal.Logs.{IsRecord, log_bytes, scan-log_bytes_whole}
use mmperp.Wal.Appends.{Keeps, records_from, open_writer-log_bytes}
use mmperp.Config.Parsing.{LoadResult}
use mmperp.Node.Fills.{Node, build_wal_payload}
use mmperp.Node.Durable.{IsLoggable, appended-Keeps}
use mmperp.Node.Start.{Environment, Program, started, boot, shut_down}
use mmperp.Node.System.{Run}
use mmperp.Node.System.Invariant.{Run-IsWell}
use mmperp.Node.System.Starts.{boot-IsReady}
use mmperp.Node.System.Delivery.{IsWell-All}

-- A run from the start of the program on a log, with the frames that it takes.
pub record Served (bytes : List ℕ) (taken : List Frame) (p : Program) (n : Node) : Type 0 where
  pub env : Environment
  pub loaded : LoadResult
  pub queued : List Frame
  pub log_lem : env.log ≡ bytes
  pub boots : boot env loaded ≡ started p
  pub run : Run p.node queued taken n
  pub loggable : All IsLoggable queued

-- How a run ends: the process is killed between two steps, or shuts down.
pub data Ending : Type 0 where
  killed shut : Ending

pub record Session : Type 0 where
  pub ending : Ending
  pub taken : List Frame

-- The bytes of the log after some sessions, the latest first.
pub data History : List ℕ → List Session → Type 0 where
  new_log : History [] []
  kills :
      {bytes : List ℕ} {sessions : List Session}
      → History bytes sessions
      → (taken : List Frame) (p : Program) (n : Node) → Served bytes taken p n
      → History n.wal.file (record { ending = killed; taken = taken } ∷ sessions)
  shuts :
      {bytes : List ℕ} {sessions : List Session}
      → History bytes sessions
      → (taken : List Frame) (p : Program) (n : Node) → Served bytes taken p n
      → History
          (shut_down (record p { node = n })).node.wal.file
          (record { ending = shut; taken = taken } ∷ sessions)

-- What is left of a session's frames: the first of them, or all.
abbrev Leaves : Ending → List Frame → List Frame → Type 0
Leaves killed taken left = (k : ℕ) × (left ≡ take k taken)
Leaves shut taken left = left ≡ taken

abbrev pub AreKept : List Session → List Frame → Type 0
AreKept [] kept = kept ≡ []
AreKept (s ∷ sessions) kept =
    (older : List Frame) × (left : List Frame) × AreKept sessions older
    × Leaves s.ending s.taken left
    × (kept ≡ older ++ left)

abbrev logged : ℕ → List Frame → List WalRecord
logged n frames = records_from n (map build_wal_payload frames)

logged-append :
    (n : ℕ) (xs ys : List Frame)
    → logged n xs ++ logged (recovered n (logged n xs)) ys ≡ logged n (xs ++ ys)
unfolding records_from recovered
logged-append n [] ys = refl
logged-append n (x ∷ xs) ys =
    ap (λ t. stamped n blank_header (build_wal_payload x) ∷ t)
      (logged-append ((n + 1) % 2 ^ 64) xs ys)

take-logged : (n k : ℕ) (xs : List Frame) → take k (logged n xs) ≡ logged n (take k xs)
unfolding records_from
take-logged n zero [] = refl
take-logged n zero (x ∷ xs) = refl
take-logged n (suc k) [] = refl
take-logged n (suc k) (x ∷ xs) =
    ap (λ t. stamped n blank_header (build_wal_payload x) ∷ t) (take-logged ((n + 1) % 2 ^ 64) k xs)

record IsLogOf (bytes : List ℕ) (frames : List Frame) : Type 0 where
  bytes_lem : bytes ≡ log_bytes (logged 1 frames)
  records : All IsRecord (logged 1 frames)

continued :
    {bytes : List ℕ} (old new : List Frame)
    → bytes ≡ log_bytes (logged 1 old ++ logged (recovered 1 (logged 1 old)) new)
    → All IsRecord (logged 1 old ++ logged (recovered 1 (logged 1 old)) new)
    → IsLogOf bytes (old ++ new)
continued old new e h = record {
  bytes_lem = e ∙ ap log_bytes (logged-append 1 old new);
  records = subst (All IsRecord) (logged-append 1 old new) h;
}

Served-Keeps :
    {bytes : List ℕ} {taken : List Frame} {p : Program} {n : Node} (old : List Frame)
    → IsLogOf bytes old
    → Served bytes taken p n
    → Keeps (logged 1 old) (logged (recovered 1 (logged 1 old)) taken) n.wal
Served-Keeps {bytes} {taken} {p} {n} old l s =
    let ready = boot-IsReady s.env s.loaded p s.boots in
    let w = Run-IsWell ready.well s.run in
    let threshold = s.loaded.config.persistence.wal_flush_threshold in
    appended-Keeps (logged 1 old) threshold taken p.node.wal n.wal l.records
      (IsWell-All IsLoggable w s.loggable)
      (subst (λ b. open_writer b threshold ≡ opened p.node.wal) (s.log_lem ∙ l.bytes_lem)
        ready.opens)
      w.wal_lem

History-IsLogOf :
    {bytes : List ℕ} {sessions : List Session}
    → History bytes sessions
    → (kept : List Frame) × AreKept sessions kept × IsLogOf bytes kept
unfolding shut_down
History-IsLogOf new_log = (
  [],
  refl,
  record { bytes_lem = unfold log_bytes records_from in refl; records = unfold records_from in tt },
)
History-IsLogOf (kills h taken p n s) =
    let (old, are, l) = History-IsLogOf h in
    let k = Served-Keeps old l s in
    let part = take-logged (recovered 1 (logged 1 old)) k.count taken in
    let left = take k.count taken in
    (
      old ++ left,
      (old, left, are, (k.count, refl), refl),
      continued old left (k.file_lem ∙ ap (λ t. log_bytes (logged 1 old ++ t)) part)
          (subst (λ t. All IsRecord (logged 1 old ++ t)) part k.kept_records),
    )
History-IsLogOf (shuts h taken p n s) =
    let (old, are, l) = History-IsLogOf h in
    let k = Served-Keeps old l s in
    (old ++ taken, (old, taken, are, refl, refl), continued old taken k.synced_lem k.all_records)

-- The program is started any number of times, first on an empty log, and each time on the log that it
-- left before; every time any steps follow, with frames of less than 2^32 - 25 bytes, and it is killed
-- between two steps or shuts down. Then the log reads back without failure as records with consecutive
-- sequences (of 64 bits) from 1 on, one for each frame that is kept: of each session, in order, all frames that it
-- took if it shut down, and the first of them if it was killed. The next start opens the log, and goes
-- on with the sequence after these.
pub History-scan :
    (bytes : List ℕ) (sessions : List Session) (threshold : ℕ)
    → History bytes sessions
    → (kept : List Frame) × AreKept sessions kept
      × (scan bytes
          ≡ record { records = records_from 1 (map build_wal_payload kept); failure = none })
      × (open_writer bytes threshold
          ≡ opened record {
            file = bytes;
            buffer = [];
            flush_threshold = threshold;
            next_sequence = recovered 1 (records_from 1 (map build_wal_payload kept));
          })
History-scan bytes sessions threshold h =
    let (kept, are, l) = History-IsLogOf h in
    (
      kept,
      are,
      ap scan l.bytes_lem ∙ scan-log_bytes_whole (logged 1 kept) l.records,
      subst
          (λ b.
            open_writer b threshold
            ≡ opened record {
              file = b;
              buffer = [];
              flush_threshold = threshold;
              next_sequence = recovered 1 (logged 1 kept);
            })
          (sym l.bytes_lem) (open_writer-log_bytes (logged 1 kept) threshold l.records),
    )
