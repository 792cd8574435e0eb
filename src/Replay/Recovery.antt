-- ===== src/Replay/Recovery.antt =====
-- A replay delivers what the log has after the snapshot.
use mmperp.Prelude.{
  ℕ, zero, suc, ◌+◌, ◌-◌, ◌%◌, ◌^◌, ◌≤◌, ◌<◌, ◌≡◌, refl, sym, ap, ◌∙◌, Bool, true, not, none, some,
  List, [], ◌∷◌, arith, length, drop, All, if◌then◌else◌,
}
use mmperp.Wal.Record.{WalRecord, blank_header}
use mmperp.Wal.Reader.{Scan, scan}
use mmperp.Wal.Writer.{Writer, opened, open_writer, recovered, stamped, sync}
use mmperp.Wal.Logs.{log_bytes}
use mmperp.Wal.Appends.{Fits, append_all, records_from, append_all-scan}
use mmperp.Snapshot.Store.{SnapshotRecord, found, latest}
use mmperp.Replay.{
  Driver, no_event_handler, called, log_failure, events_from, resume_after, replay_log, replay_from,
  execute,
}

drop-nil : (n : ℕ) → drop {A = WalRecord} n [] ≡ []
drop-nil zero = refl
drop-nil (suc n) = refl

drop_behind : (n k : ℕ) (rs : List WalRecord) → n ≤ k → drop (n - k) rs ≡ rs
drop_behind n k rs h = let e : n - k ≡ 0 = omega arith in rw e

drop_one :
    (n k : ℕ) (r : WalRecord) (rs : List WalRecord)
    → k < n
    → drop (n - k) (r ∷ rs) ≡ drop (n - (k + 1)) rs
drop_one n k r rs h = let e : n - k ≡ suc (n - (k + 1)) = omega arith in rw e

-- Records of consecutive sequences from `k` on, with no wrap: those from sequence `n` on.
events_from-records_from :
    (n k : ℕ) (payloads : List (List ℕ))
    → k + length payloads < 2 ^ 64
    → events_from n (records_from k payloads) ≡ drop (n - k) (records_from k payloads)
unfolding events_from records_from
events_from-records_from n k [] h = sym (drop-nil (n - k))
events_from-records_from n k (payload ∷ payloads) h =
    let later = events_from-records_from n (k + 1) payloads (omega arith) in
    let same : (k + 1) % 2 ^ 64 ≡ k + 1 = omega arith in
    rw same (
      ground (
        arith,
        later,
        drop_one n k (stamped k blank_header payload) (records_from (k + 1) payloads),
        drop_behind n (k + 1) (records_from (k + 1) payloads),
        drop_behind n k (stamped k blank_header payload ∷ records_from (k + 1) payloads),
      ))

execute_scanned :
    (d : Driver) (snap : SnapshotRecord) (file : List ℕ) (rs : List WalRecord)
    → d.snapshot_handler ≡ true
    → d.event_handler ≡ true
    → latest d.snapshot_store ≡ found (some snap)
    → snap.sequence + 1 < 2 ^ 32
    → scan file ≡ record { records = rs; failure = none }
    → execute (record d { wal = some file }) ≡ record {
      snapshot_call = some snap;
      events = events_from (snap.sequence + 1) rs;
      failure = none;
    }
unfolding execute replay_from replay_log resume_after
execute_scanned d snap file rs s e l small scanned =
    let d' : Driver = record d { wal = some file } in
    let resume : (snap.sequence + 1) % 2 ^ 32 ≡ snap.sequence + 1 = omega arith in
    ap
      (λ (b : Bool).
        if not b
        then record { snapshot_call = none; events = []; failure = some no_event_handler }
        else replay_from d' (latest d.snapshot_store))
      e
    ∙ ap (replay_from d') l
    ∙ ap (λ h. replay_log (called h (some snap)) ((snap.sequence + 1) % 2 ^ 32) (some file)) s
    ∙ ap (λ n. replay_log (some snap) n (some file)) resume
    ∙ ap
        (λ (t : Scan). record {
          snapshot_call = some snap;
          events = events_from (snap.sequence + 1) t.records;
          failure = log_failure t.failure;
        })
        scanned

-- With a snapshot below the largest sequence of 32 bits in its store, and a new log to which payloads
-- of less than 2^32 bytes were appended and then synced, a driver that has both handlers calls the one
-- with the snapshot and the other, in order, with the records after the snapshot's sequence, and ends
-- with no exception.
pub execute-records_from :
    (d : Driver) (snap : SnapshotRecord) (threshold : ℕ) (payloads : List (List ℕ))
    → d.snapshot_handler ≡ true
    → d.event_handler ≡ true
    → latest d.snapshot_store ≡ found (some snap)
    → snap.sequence + 1 < 2 ^ 32
    → 1 + length payloads < 2 ^ 64
    → All Fits payloads
    → (w : Writer) × (open_writer [] threshold ≡ opened w)
      × (execute (record d { wal = some (sync (append_all w payloads)).file }) ≡ record {
        snapshot_call = some snap;
        events = drop snap.sequence (records_from 1 payloads);
        failure = none;
      })
unfolding log_bytes recovered
execute-records_from d snap threshold payloads s e l small few fits =
    let (w, starts, synced, _) = append_all-scan [] threshold payloads tt fits in
    let events : events_from (snap.sequence + 1) (records_from 1 payloads)
        ≡ drop snap.sequence (records_from 1 payloads) =
      events_from-records_from (snap.sequence + 1) 1 payloads few
      ∙ ap (λ n. drop n (records_from 1 payloads)) (omega arith) in
    (
      w,
      starts,
      execute_scanned d snap (sync (append_all w payloads)).file (records_from 1 payloads) s e l
            small synced
          ∙ ap (λ t. record { snapshot_call = some snap; events = t; failure = none }) events,
    )
