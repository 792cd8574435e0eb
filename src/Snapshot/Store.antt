-- ===== src/Snapshot/Store.antt =====
-- libs/snapshot/src/snapshot_store.cpp: loading, and `Store`. The file system's calls succeed; a file
-- that does not exist is `none`.
use mmperp.Prelude.{
  ℕ, zero, suc, ◌+◌, ◌-◌, ◌*◌, ◌^◌, Bool, true, false, ◌&&◌, ◌||◌, not, Option, none, some, List,
  [], ◌∷◌, ◌++◌, length, drop, ltb, if◌then◌else◌, is_nil,
}
use mmperp.Snapshot.Record.{
  EncodedRecord, SnapshotError, directory_not_set, encoded_record_size, write_record, NextSnapshot,
  next_snapshot, ended, failed, read_next_record,
}

pub data Loaded : Type 0 where
  loaded : List EncodedRecord → Loaded
  refused : SnapshotError → Loaded

abbrev and_then : EncodedRecord → Loaded → Loaded
and_then r (loaded rs) = loaded (r ∷ rs)
and_then r (refused e) = refused e

unfoldable pub load_next : NextSnapshot → (List ℕ → Loaded) → Loaded
load_next (next_snapshot r rest) again = and_then r (again rest)
load_next ended again = loaded []
load_next (failed e) again = refused e

unfoldable pub load_on : ℕ → List ℕ → Loaded
unfolding load_next
load_on zero bytes = loaded []
load_on (suc fuel) bytes = load_next (read_next_record bytes) (load_on fuel)

-- Each record takes a byte at least, so that the length of the file is enough fuel.
unfoldable pub load_records : Option (List ℕ) → Loaded
load_records none = loaded []
load_records (some file) = load_on (suc (length file)) file

pub record StoreOptions : Type 0 where
  pub max_records : ℕ
  pub max_file_bytes : ℕ

pub record SnapshotStore : Type 0 where
  pub prepared : Bool
  pub file : Option (List ℕ)
  pub options : StoreOptions

-- The file that the directory holds already is the argument.
unfoldable pub prepare : SnapshotStore → Option (List ℕ) → SnapshotStore
prepare s found_file = record s { prepared = true; file = found_file }

abbrev pub new_store : SnapshotStore
new_store = record {
  prepared = false;
  file = none;
  options = record { max_records = 1024; max_file_bytes = 64 * 2 ^ 20 };
}

unfoldable pub open_store : Option (List ℕ) → StoreOptions → SnapshotStore
unfolding prepare
open_store found_file o = prepare (record new_store { options = o }) found_file

unfoldable pub set_options : SnapshotStore → StoreOptions → SnapshotStore
set_options s o = record s { options = o }

abbrev pub bytes_of : Option (List ℕ) → List ℕ
bytes_of none = []
bytes_of (some file) = file

unfoldable pub kept_size : List EncodedRecord → ℕ
kept_size [] = 0
kept_size (r ∷ rs) = encoded_record_size r + kept_size rs

-- The loop over `start`, on the records from `start` on.
unfoldable pub shrink : ℕ → List EncodedRecord → List EncodedRecord
unfolding kept_size
shrink limit [] = []
shrink limit (r ∷ []) = r ∷ []
shrink limit (r ∷ r' ∷ rs) =
    let fewer = shrink limit (r' ∷ rs) in
    if ltb limit (kept_size (r ∷ r' ∷ rs)) then fewer else r ∷ r' ∷ rs

abbrev pub over : ℕ → ℕ → Bool
over limit n = ltb 0 limit && ltb limit n

unfoldable pub kept_records : StoreOptions → List EncodedRecord → List EncodedRecord
unfolding shrink
kept_records o records =
    let recent =
      if over o.max_records (length records)
      then drop (length records - o.max_records) records
      else records in
    if ltb 0 o.max_file_bytes then shrink o.max_file_bytes recent else recent

unfoldable pub write_records : List EncodedRecord → List ℕ
write_records [] = []
write_records (r ∷ rs) = write_record r.header.sequence r.payload ++ write_records rs

abbrev pub needs_compaction : StoreOptions → ℕ → List EncodedRecord → Bool
needs_compaction o size records = over o.max_file_bytes size || over o.max_records (length records)

unfoldable pub compact_loaded : SnapshotStore → Loaded → SnapshotStore × Option SnapshotError
unfolding kept_records write_records
compact_loaded s (refused e) = (s, some e)
compact_loaded s (loaded records) =
    if not (needs_compaction s.options (length (bytes_of s.file)) records) || is_nil records
    then (s, none)
    else (record s { file = some (write_records (kept_records s.options records)) }, none)

abbrev pub unlimited : StoreOptions → Bool
unlimited o = not (ltb 0 o.max_file_bytes) && not (ltb 0 o.max_records)

unfoldable pub compact_if_needed : SnapshotStore → SnapshotStore × Option SnapshotError
unfolding compact_loaded load_records
compact_if_needed s =
    if unlimited s.options then (s, none) else compact_loaded s (load_records s.file)

unfoldable pub persist : SnapshotStore → ℕ → List ℕ → SnapshotStore × Option SnapshotError
unfolding compact_if_needed
persist s sequence payload =
    if not s.prepared
    then (s, some directory_not_set)
    else compact_if_needed
        (record s { file = some (bytes_of s.file ++ write_record sequence payload) })

pub record SnapshotRecord : Type 0 where
  pub sequence : ℕ
  pub payload : List ℕ

unfoldable pub last_snapshot : List EncodedRecord → Option SnapshotRecord
last_snapshot [] = none
last_snapshot (r ∷ []) = some record { sequence = r.header.sequence; payload = r.payload }
last_snapshot (r ∷ r' ∷ rs) = last_snapshot (r' ∷ rs)

pub data Latest : Type 0 where
  found : Option SnapshotRecord → Latest
  unreadable : SnapshotError → Latest

abbrev pub latest_of : Loaded → Latest
latest_of (loaded records) = found (last_snapshot records)
latest_of (refused e) = unreadable e

unfoldable pub latest : SnapshotStore → Latest
unfolding load_records last_snapshot
latest s = latest_of (load_records s.file)

pub data Counted : Type 0 where
  counted : ℕ → Counted
  uncountable : SnapshotError → Counted

abbrev pub count_of : Loaded → Counted
count_of (loaded records) = counted (length records)
count_of (refused e) = uncountable e

unfoldable pub record_count : SnapshotStore → Counted
unfolding load_records
record_count s = count_of (load_records s.file)
