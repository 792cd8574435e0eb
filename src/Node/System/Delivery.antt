-- ===== src/Node/System/Delivery.antt =====
-- What is promised of every frame that a running program has put in a queue.
use mmperp.Prelude.{
  ℕ, ◌≡◌, ◌⊎◌, inl, inr, refl, sym, ap, ◌∙◌, subst, Bool, true, false, none, List, [], ◌∷◌, ◌++◌,
  map, append-nil, take, All, if◌then◌else◌,
}
use mmperp.Common.Ring.{Ring}
use mmperp.Common.Ring.Refine.{Represents, queue_pop, pop-Represents}
use mmperp.Ingress.{MessageKind, new_order, cancel, replace, heartbeat, is_heartbeat, Frame}
use mmperp.Ingress.Arrivals.{is_kind, of_kind, InQueues}
use mmperp.Matcher.Requests.{IsSoundEngine}
use mmperp.Matcher.Invariant.Stores.{none≢some}
use mmperp.Wal.Record.{WalRecord}
use mmperp.Wal.Reader.{scan}
use mmperp.Wal.Writer.{Writer, open_writer, opened, recovered, sync}
use mmperp.Wal.Logs.{IsRecord, log_bytes}
use mmperp.Wal.Appends.{records_from}
use mmperp.Config.Parsing.{LoadResult}
use mmperp.Node.Fills.{Node, build_wal_payload}
use mmperp.Node.Loop.{tick}
use mmperp.Node.Drained.{tick-Emptied}
use mmperp.Node.Durable.{IsLoggable, appended-scan}
use mmperp.Node.Start.{Environment, Program, started, boot}
use mmperp.Node.System.{Run}
use mmperp.Node.System.Kinds.{Balanced}
use mmperp.Node.System.Invariant.{IsWell, Run-IsWell}
use mmperp.Node.System.Rounds.{tick-Run}
use mmperp.Node.System.Starts.{boot-IsReady}

module _ {A : Type 0} (P : A → Type 0) where
  All-earlier : (xs ys : List A) → All P (xs ++ ys) → All P xs
  All-earlier [] ys h = tt
  All-earlier (x ∷ xs) ys (h, hs) = (h, All-earlier xs ys hs)

  kept-All : (b : Bool) (x : A) (xs : List A) → P x → All P xs → All P (if b then x ∷ xs else xs)
  kept-All true x xs h hs = (h, hs)
  kept-All false x xs h hs = hs

  All-tail : (b : Bool) (x : A) (xs : List A) → All P (if b then x ∷ xs else xs) → All P xs
  All-tail true x xs h = h.1
  All-tail false x xs h = h

  All-head : (b : Bool) (x : A) (xs : List A) → All P (if b then x ∷ xs else xs) → b ≡ true → P x
  All-head true x xs h e = h.0
  All-head false x xs h e = absurd (cc)

kind_cases :
    (j : MessageKind)
    → is_heartbeat j ≡ false
    → (is_kind new_order j ≡ true) ⊎ ((is_kind cancel j ≡ true) ⊎ (is_kind replace j ≡ true))
kind_cases new_order h = inl refl
kind_cases cancel h = inr (inl refl)
kind_cases replace h = inr (inr refl)
kind_cases heartbeat h = absurd (cc)

module _ (P : Frame → Type 0) where
  of_kind-All : (k : MessageKind) (xs : List Frame) → All P xs → All P (of_kind k xs)
  of_kind-All k [] h = tt
  of_kind-All k (x ∷ xs) (h, hs) =
      kept-All P (is_kind k x.header.kind) x (of_kind k xs) h (of_kind-All k xs hs)

  later :
      (k : MessageKind) (x : Frame) (xs : List Frame)
      → All P (of_kind k (x ∷ xs))
      → All P (of_kind k xs)
  later k x xs = All-tail P (is_kind k x.header.kind) x (of_kind k xs)

  first :
      (k : MessageKind) (x : Frame) (xs : List Frame)
      → All P (of_kind k (x ∷ xs))
      → is_kind k x.header.kind ≡ true
      → P x
  first k x xs = All-head P (is_kind k x.header.kind) x (of_kind k xs)

  -- What holds of the frames of every kind that has a queue.
  All-of_kind :
      (xs : List Frame)
      → All (λ f. is_heartbeat f.header.kind ≡ false) xs
      → All P (of_kind new_order xs)
      → All P (of_kind cancel xs)
      → All P (of_kind replace xs)
      → All P xs
  All-of_kind [] b ho hc hr = tt
  All-of_kind (x ∷ xs) (b, bs) ho hc hr = (
    elim (kind_cases x.header.kind b) [
      | inl o ↦ first new_order x xs ho o
      | inr (inl c) ↦ first cancel x xs hc c
      | inr (inr r) ↦ first replace x xs hr r
    ],
    All-of_kind xs bs (later new_order x xs ho) (later cancel x xs hc) (later replace x xs hr),
  )

  taken-All :
      (k : MessageKind) (queued taken waiting : List Frame)
      → All P queued
      → Balanced k queued taken waiting
      → All P (of_kind k taken)
  taken-All k queued taken waiting h b =
      All-earlier P (of_kind k taken) waiting (subst (All P) b (of_kind-All k queued h))

-- What holds of the frames that were queued holds of those that were taken.
pub IsWell-All :
    (P : Frame → Type 0) {wal : Writer} {queued taken : List Frame} {n : Node}
    → IsWell wal queued taken n
    → All P queued
    → All P taken
IsWell-All P {wal} {queued} {taken} w h =
    All-of_kind P taken w.kinds (taken-All P new_order queued taken w.orders h w.orders_lem)
      (taken-All P cancel queued taken w.cancels h w.cancels_lem)
      (taken-All P replace queued taken w.replaces h w.replaces_lem)

emptied : (r : Ring Frame) (q : List Frame) → Represents r q → Represents r [] → q ≡ []
unfolding queue_pop
emptied r [] h e = refl
emptied r (x ∷ q) h e =
    absurd (none≢some x (sym (pop-Represents r [] e).0 ∙ (pop-Represents r (x ∷ q) h).0))

-- A program starts on a log of well-formed records. Frames arrive, are taken from the queues and
-- handled, and are counted, in any order, and each frame that was put in a queue has less than
-- 2^32 - 25 bytes. Then every market of the matching engine is sound; each queue holds in order the
-- frames of its kind that were put in it and not yet taken, none of them lost, doubled or overtaken;
-- and after a sync the log reads back as the old records and one record for each frame taken, in the
-- order in which they were taken; without the sync a first part of these is read back.
pub Run-delivers :
    (env : Environment) (loaded : LoadResult) (p : Program) (rs : List WalRecord)
    (queued taken : List Frame) (n : Node)
    → boot env loaded ≡ started p
    → env.log ≡ log_bytes rs
    → All IsRecord rs
    → Run p.node queued taken n
    → All IsLoggable queued
    → let all = rs ++ records_from (recovered 1 rs) (map build_wal_payload taken) in
      IsSoundEngine n.matcher
      × ((orders : List Frame) × (cancels : List Frame) × (replaces : List Frame) × InQueues
            n.ingress.queues orders cancels replaces
          × (of_kind new_order queued ≡ of_kind new_order taken ++ orders)
          × (of_kind cancel queued ≡ of_kind cancel taken ++ cancels)
          × (of_kind replace queued ≡ of_kind replace taken ++ replaces))
      × (scan (sync n.wal).file ≡ record { records = all; failure = none })
      × ((k : ℕ) × (scan n.wal.file ≡ record { records = take k all; failure = none }))
Run-delivers env loaded p rs queued taken n boots log h run fits =
    let ready = boot-IsReady env loaded p boots in
    let w = Run-IsWell ready.well run in
    let threshold = loaded.config.persistence.wal_flush_threshold in
    let (synced, crashed) =
      appended-scan rs threshold taken p.node.wal n.wal h (IsWell-All IsLoggable w fits)
        (subst (λ bytes. open_writer bytes threshold ≡ opened p.node.wal) log ready.opens)
        w.wal_lem in
    (
      w.sound,
      (w.orders, w.cancels, w.replaces, w.waiting, w.orders_lem, w.cancels_lem, w.replaces_lem),
      synced,
      crashed,
    )

Balanced-nil :
    (k : MessageKind) (queued taken waiting : List Frame)
    → Balanced k queued taken waiting
    → waiting ≡ []
    → of_kind k queued ≡ of_kind k taken
Balanced-nil k queued taken waiting b e =
    b ∙ ap (λ q. of_kind k taken ++ q) e ∙ append-nil (of_kind k taken)

-- Under the same conditions, one more round of the event loop with no frame arriving in it takes every
-- frame that still waits: from then on the frames of each kind that were taken are, in order, those
-- that were put in the queue of the kind, and after a sync the log has a record for each.
pub tick-delivers :
    (env : Environment) (loaded : LoadResult) (p : Program) (rs : List WalRecord)
    (queued taken : List Frame) (n : Node)
    → boot env loaded ≡ started p
    → env.log ≡ log_bytes rs
    → All IsRecord rs
    → Run p.node queued taken n
    → All IsLoggable queued
    → let n' = (tick n).0 in
      (handled : List Frame) × Run p.node queued handled n'
      × (of_kind new_order queued ≡ of_kind new_order handled)
      × (of_kind cancel queued ≡ of_kind cancel handled)
      × (of_kind replace queued ≡ of_kind replace handled)
      × (scan (sync n'.wal).file ≡ record {
        records = rs ++ records_from (recovered 1 rs) (map build_wal_payload handled);
        failure = none;
      })
tick-delivers env loaded p rs queued taken n boots log h run fits =
    let w = Run-IsWell (boot-IsReady env loaded p boots).well run in
    let handled = ((taken ++ w.orders) ++ w.cancels) ++ w.replaces in
    let run' = tick-Run p.node n queued taken w.orders w.cancels w.replaces w.waiting run in
    let (o, c, r) = (tick-Emptied n w.orders w.cancels w.replaces w.waiting w.block_fits).waiting in
    let (sound, (os, cs, rs', (qo, qc, qr), bo, bc, br), synced, crashed) =
      Run-delivers env loaded p rs queued handled (tick n).0 boots log h run' fits in
    (
      handled,
      run',
      Balanced-nil new_order queued handled os bo (emptied _ os qo o),
      Balanced-nil cancel queued handled cs bc (emptied _ cs qc c),
      Balanced-nil replace queued handled rs' br (emptied _ rs' qr r),
      synced,
    )
