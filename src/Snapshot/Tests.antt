-- ===== src/Snapshot/Tests.antt =====
-- The snapshot store on a concrete file.
use mmperp.Prelude.{◌≡◌, refl, true, some, [], ◌∷◌, ◌++◌, arith}
use mmperp.Snapshot.Store.{SnapshotStore, StoreOptions, persist, latest, found}
use mmperp.Snapshot.Compaction.{Compacted, newest, persist-latest}
use mmperp.Snapshot.Store.{write_records}

abbrev two : StoreOptions
two = record { max_records = 2; max_file_bytes = 0 }

abbrev store : SnapshotStore
store = record {
  prepared = true;
  file = some (write_records (newest 1 (7 ∷ []) ∷ newest 2 (8 ∷ []) ∷ []));
  options = two;
}

persist-latest_example :
    let r = persist store 3 (9 ∷ 4 ∷ []) in
    Compacted two ((newest 1 (7 ∷ []) ∷ newest 2 (8 ∷ []) ∷ []) ++ newest 3 (9 ∷ 4 ∷ []) ∷ []) r
    × (latest r.0 ≡ found (some record { sequence = 3; payload = 9 ∷ 4 ∷ [] }))
persist-latest_example =
    persist-latest store (newest 1 (7 ∷ []) ∷ newest 2 (8 ∷ []) ∷ []) 3 (9 ∷ 4 ∷ []) refl refl
      ((refl, omega arith, omega arith), ((refl, omega arith, omega arith), tt)) (omega arith)
      (omega arith)
