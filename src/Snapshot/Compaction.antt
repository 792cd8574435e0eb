-- ===== src/Snapshot/Compaction.antt =====
-- What a snapshot file holds after `persist`.
use mmperp.Prelude.{
  ℕ, zero, suc, ◌-◌, ◌^◌, ◌≤◌, ◌<◌, ◌≡◌, ◌⊎◌, inl, inr, refl, sym, ap, ◌∙◌, subst, Bool, true,
  false, ◌||◌, not, Option, none, some, List, [], ◌∷◌, ◌++◌, append-nil, append_assoc, arith,
  length, length-drop, take-append-drop, All-append, take, drop, All, ltb, if◌then◌else◌,
  Bool-cases, is_nil,
}
use mmperp.Snapshot.Record.{
  EncodedRecord, SnapshotError, directory_not_set, written_header, write_record,
}
use mmperp.Snapshot.Store.{
  loaded, StoreOptions, SnapshotStore, bytes_of, kept_size, shrink, over, kept_records,
  write_records, needs_compaction, unlimited, compact_loaded, compact_if_needed, persist,
  last_snapshot, found, latest_of, latest, load_records,
}
use mmperp.Snapshot.Files.{
  IsWritten, write_records-append, length-write_records, load-write_records,
}

-- What is left is an end of the list, with the same last record.
abbrev pub Keeps : List EncodedRecord → List EncodedRecord → Type 0
Keeps kept records =
    ((dropped : List EncodedRecord) × (dropped ++ kept ≡ records))
    × (last_snapshot kept ≡ last_snapshot records)

Keeps-refl : (rs : List EncodedRecord) → Keeps rs rs
Keeps-refl rs = (([], refl), refl)

Keeps-trans : (a b c : List EncodedRecord) → Keeps a b → Keeps b c → Keeps a c
Keeps-trans a b c ((x, e), p) ((y, f), q) =
    ((y ++ x, append_assoc y x a ∙ ap (λ t. y ++ t) e ∙ f), p ∙ q)

last_drop :
    (n : ℕ) (rs : List EncodedRecord) → n < length rs → last_snapshot (drop n rs) ≡ last_snapshot rs
unfolding last_snapshot
last_drop zero rs h = refl
last_drop (suc n) [] h = refl
last_drop (suc n) (r ∷ []) h = absurd (omega arith)
last_drop (suc n) (r ∷ r' ∷ rs) h = last_drop n (r' ∷ rs) (omega arith)

drop-Keeps : (n : ℕ) (rs : List EncodedRecord) → n < length rs → Keeps (drop n rs) rs
drop-Keeps n rs h = ((take n rs, take-append-drop n rs), last_drop n rs h)

cons-Keeps :
    (r r' : EncodedRecord) (rs kept : List EncodedRecord)
    → Keeps kept (r' ∷ rs)
    → Keeps kept (r ∷ r' ∷ rs)
unfolding last_snapshot
cons-Keeps r r' rs kept ((x, e), p) = ((r ∷ x, ap (λ t. r ∷ t) e), p)

-- Enough room, or one record.
abbrev pub FitsFile : ℕ → List EncodedRecord → Type 0
FitsFile limit rs = (kept_size rs ≤ limit) ⊎ (length rs ≤ 1)

shrink-Keeps : (limit : ℕ) (rs : List EncodedRecord) → Keeps (shrink limit rs) rs
unfolding shrink
shrink-Keeps limit [] = Keeps-refl []
shrink-Keeps limit (r ∷ []) = Keeps-refl (r ∷ [])
shrink-Keeps limit (r ∷ r' ∷ rs) =
    elim (ltb limit (kept_size (r ∷ r' ∷ rs)))
      as (λ b. Keeps (if b then shrink limit (r' ∷ rs) else r ∷ r' ∷ rs) (r ∷ r' ∷ rs)) [
        | true ↦ cons-Keeps r r' rs (shrink limit (r' ∷ rs)) (shrink-Keeps limit (r' ∷ rs))
        | false ↦ Keeps-refl (r ∷ r' ∷ rs)
      ]

shrink-FitsFile : (limit : ℕ) (rs : List EncodedRecord) → FitsFile limit (shrink limit rs)
unfolding shrink
shrink-FitsFile limit [] = inr (omega arith)
shrink-FitsFile limit (r ∷ []) = inr (omega arith)
shrink-FitsFile limit (r ∷ r' ∷ rs) = elim (Bool-cases (ltb limit (kept_size (r ∷ r' ∷ rs)))) [
  | inl big ↦ rw big (shrink-FitsFile limit (r' ∷ rs))
  | inr fits ↦ rw fits (inl (ground arith))
]

length-shrink : (limit : ℕ) (rs : List EncodedRecord) → length (shrink limit rs) ≤ length rs
unfolding shrink
length-shrink limit [] = omega arith
length-shrink limit (r ∷ []) = omega arith
length-shrink limit (r ∷ r' ∷ rs) = ground (arith, length-shrink limit (r' ∷ rs))

-- The limits of the options; 0 is none.
abbrev pub IsLimited : StoreOptions → List EncodedRecord → Type 0
IsLimited o rs =
    ((o.max_records ≡ 0) ⊎ (length rs ≤ o.max_records))
    × ((o.max_file_bytes ≡ 0) ⊎ FitsFile o.max_file_bytes rs)

abbrev recent : StoreOptions → List EncodedRecord → List EncodedRecord
recent o rs = if over o.max_records (length rs) then drop (length rs - o.max_records) rs else rs

recent-Keeps : (o : StoreOptions) (rs : List EncodedRecord) → Keeps (recent o rs) rs
recent-Keeps o rs = elim (Bool-cases (over o.max_records (length rs))) [
  | inl more ↦ rw more (drop-Keeps (length rs - o.max_records) rs (ground arith))
  | inr less ↦ rw less (Keeps-refl rs)
]

length-recent :
    (o : StoreOptions) (rs : List EncodedRecord)
    → (o.max_records ≡ 0) ⊎ (length (recent o rs) ≤ o.max_records)
length-recent o rs = ground (arith, length-drop (length rs - o.max_records) rs)

kept_records-Keeps : (o : StoreOptions) (rs : List EncodedRecord) → Keeps (kept_records o rs) rs
unfolding kept_records
kept_records-Keeps o rs =
    elim (ltb 0 o.max_file_bytes)
      as (λ b. Keeps (if b then shrink o.max_file_bytes (recent o rs) else recent o rs) rs) [
        | true ↦
            Keeps-trans (shrink o.max_file_bytes (recent o rs)) (recent o rs) rs
              (shrink-Keeps o.max_file_bytes (recent o rs)) (recent-Keeps o rs)
        | false ↦ recent-Keeps o rs
      ]

fewer_still : (m a b : ℕ) → (m ≡ 0) ⊎ (a ≤ m) → b ≤ a → (m ≡ 0) ⊎ (b ≤ m)
fewer_still m a b (inl e) h = inl e
fewer_still m a b (inr k) h = inr (omega arith)

no_limit : (m : ℕ) → ltb 0 m ≡ false → m ≡ 0
no_limit m h = ground arith

kept_records-IsLimited :
    (o : StoreOptions) (rs : List EncodedRecord) → IsLimited o (kept_records o rs)
unfolding kept_records
kept_records-IsLimited o rs = elim (Bool-cases (ltb 0 o.max_file_bytes)) [
  | inl limit ↦ rw limit (
    fewer_still o.max_records (length (recent o rs))
        (length (shrink o.max_file_bytes (recent o rs))) (length-recent o rs)
        (length-shrink o.max_file_bytes (recent o rs)),
    inr (shrink-FitsFile o.max_file_bytes (recent o rs)),
  )
  | inr free ↦ rw free (length-recent o rs, inl (no_limit o.max_file_bytes free))
]

-- A store whose file holds these records.
abbrev pub HoldsRecords : SnapshotStore → List EncodedRecord → Type 0
HoldsRecords s rs = (load_records s.file ≡ loaded rs) × (length (bytes_of s.file) ≡ kept_size rs)

written_holds :
    (s : SnapshotStore) (rs : List EncodedRecord)
    → All IsWritten rs
    → HoldsRecords (record s { file = some (write_records rs) }) rs
written_holds s rs h = (load-write_records rs h, length-write_records rs)

not_over : (limit n : ℕ) → over limit n ≡ false → (limit ≡ 0) ⊎ (n ≤ limit)
not_over limit n h = ground arith

-- What a compaction leaves.
abbrev pub Compacted :
    StoreOptions → List EncodedRecord → SnapshotStore × Option SnapshotError → Type 0
Compacted o rs r =
    (r.1 ≡ none)
    × ((kept : List EncodedRecord) × HoldsRecords r.0 kept × Keeps kept rs × IsLimited o kept)

All-suffix : (xs ys : List EncodedRecord) → All IsWritten (xs ++ ys) → All IsWritten ys
All-suffix [] ys h = h
All-suffix (x ∷ xs) ys (h, hs) = All-suffix xs ys hs

untouched :
    (s : SnapshotStore) (rs : List EncodedRecord)
    → HoldsRecords s rs
    → needs_compaction s.options (length (bytes_of s.file)) rs ≡ false
    → Compacted s.options rs (s, none)
untouched s rs h e = (refl, (rs, h, Keeps-refl rs, (ground arith, ground (arith, h.1))))

rewritten :
    (s : SnapshotStore) (rs : List EncodedRecord)
    → All IsWritten rs
    → Compacted s.options rs
        (record s { file = some (write_records (kept_records s.options rs)) }, none)
rewritten s rs h =
    let kept = kept_records s.options rs in
    let ((dropped, e), same) = kept_records-Keeps s.options rs in
    let written : All IsWritten kept = All-suffix dropped kept (subst (All IsWritten) (sym e) h) in
    (
      refl,
      (
        kept,
        written_holds s kept written,
        ((dropped, e), same),
        kept_records-IsLimited s.options rs,
      ),
    )

no_records_left : (s : SnapshotStore) → HoldsRecords s [] → Compacted s.options [] (s, none)
no_records_left s h = (refl, ([], h, Keeps-refl [], (inr (omega arith), inr (inr (omega arith)))))

either_branch :
    (s : SnapshotStore) (rs : List EncodedRecord) (skip : Bool)
    → (skip ≡ true → Compacted s.options rs (s, none))
    → All IsWritten rs
    → Compacted s.options rs (
        if skip
        then (s, none)
        else (record s { file = some (write_records (kept_records s.options rs)) }, none))
either_branch s rs true h all = h refl
either_branch s rs false h all = rewritten s rs all

or_nil :
    (need : Bool) (rs : List EncodedRecord)
    → (not need || is_nil rs) ≡ true
    → (need ≡ false) ⊎ (rs ≡ [])
or_nil true [] h = inr refl
or_nil true (r ∷ rs) h = cc
or_nil false rs h = inl refl

compact_loaded-Compacted :
    (s : SnapshotStore) (rs : List EncodedRecord)
    → All IsWritten rs
    → HoldsRecords s rs
    → Compacted s.options rs (compact_loaded s (loaded rs))
unfolding compact_loaded
compact_loaded-Compacted s rs all h =
    let need = needs_compaction s.options (length (bytes_of s.file)) rs in
    either_branch s rs (not need || is_nil rs)
      (λ e. elim (or_nil need rs e) [
        | inl same ↦ untouched s rs h same
        | inr nil ↦
            subst (λ t. Compacted s.options t (s, none)) (sym nil)
              (no_records_left s (subst (HoldsRecords s) nil h))
      ])
      all

without_limits :
    (o : StoreOptions) → unlimited o ≡ true → (o.max_records ≡ 0) × (o.max_file_bytes ≡ 0)
without_limits o h = ground arith

compact_if_needed-Compacted :
    (s : SnapshotStore) (rs : List EncodedRecord)
    → All IsWritten rs
    → HoldsRecords s rs
    → Compacted s.options rs (compact_if_needed s)
unfolding compact_if_needed
compact_if_needed-Compacted s rs all h = elim (Bool-cases (unlimited s.options)) [
  | inl free ↦
      let (records, bytes) = without_limits s.options free in
      rw free (refl, (rs, h, Keeps-refl rs, (inl records, inl bytes)))
  | inr limits ↦ rw (limits, h.0) (compact_loaded-Compacted s rs all h)
]

abbrev pub newest : ℕ → List ℕ → EncodedRecord
newest sequence payload = record { header = written_header sequence payload; payload = payload }

last_newest :
    (rs : List EncodedRecord) (r : EncodedRecord)
    → last_snapshot (rs ++ r ∷ [])
      ≡ some record { sequence = r.header.sequence; payload = r.payload }
unfolding last_snapshot
last_newest [] r = refl
last_newest (x ∷ []) r = refl
last_newest (x ∷ y ∷ rs) r = last_newest (y ∷ rs) r

one_written :
    (sequence : ℕ) (payload : List ℕ)
    → write_records (newest sequence payload ∷ []) ≡ write_record sequence payload
unfolding write_records
one_written sequence payload = append-nil (write_record sequence payload)

persist_ready :
    (s : SnapshotStore) (sequence : ℕ) (payload : List ℕ)
    → s.prepared ≡ true
    → persist s sequence payload
      ≡ compact_if_needed
          (record s { file = some (bytes_of s.file ++ write_record sequence payload) })
unfolding persist
persist_ready s sequence payload ready =
    ap
      (λ (b : Bool).
        if not b
        then (s, some directory_not_set)
        else compact_if_needed
            (record s { file = some (bytes_of s.file ++ write_record sequence payload) }))
      ready

-- Persisting a snapshot in a prepared store whose file has records as the store writes them succeeds.
-- The file then loads as some of the last records, the new one at the end, within the limit on records
-- and within the limit on bytes unless a single record is left; and `latest` is the new snapshot.
pub persist-latest :
    (s : SnapshotStore) (rs : List EncodedRecord) (sequence : ℕ) (payload : List ℕ)
    → s.prepared ≡ true
    → bytes_of s.file ≡ write_records rs
    → All IsWritten rs
    → sequence < 2 ^ 32
    → length payload < 2 ^ 32
    → let r = persist s sequence payload in
      Compacted s.options (rs ++ newest sequence payload ∷ []) r
      × (latest r.0 ≡ found (some record { sequence = sequence; payload = payload }))
unfolding latest
persist-latest s rs sequence payload ready file all sq size =
    let r = newest sequence payload in
    let rs' = rs ++ r ∷ [] in
    let all' : All IsWritten rs' = All-append IsWritten rs (r ∷ []) all ((refl, sq, size), tt) in
    let bytes : bytes_of s.file ++ write_record sequence payload ≡ write_records rs' =
      ap (λ b. b ++ write_record sequence payload) file
      ∙ ap (λ b. write_records rs ++ b) (sym (one_written sequence payload))
      ∙ sym (write_records-append rs (r ∷ [])) in
    let s' : SnapshotStore = record s { file = some (write_records rs') } in
    let (fine, (kept, holds, (ended, last), limited)) =
      compact_if_needed-Compacted s' rs' all' (written_holds s rs' all') in
    subst
      (λ x.
        Compacted s.options rs' x
        × (latest x.0 ≡ found (some record { sequence = sequence; payload = payload })))
      (sym (
        persist_ready s sequence payload ready
        ∙ ap (λ b. compact_if_needed (record s { file = some b })) bytes))
      (
        (fine, (kept, holds, (ended, last), limited)),
        ap latest_of holds.0 ∙ ap found (last ∙ last_newest rs r),
      )
