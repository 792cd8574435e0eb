-- ===== src/Node/System/Invariant.antt =====
-- What holds after any number of steps.
use mmperp.Prelude.{
  ℕ, ◌+◌, ◌-◌, ◌%◌, ◌^◌, ◌<◌, ◌≡◌, refl, sym, ap, ◌∙◌, subst, Bool, true, false, Option, some, List,
  [], ◌∷◌, ◌++◌, map, append-nil, arith, All-append, All, leb, if◌then◌else◌,
}
use mmperp.Ingress.{
  is_heartbeat, new_order, cancel, replace, Frame, Pipeline, next_new_order, next_cancel,
  next_replace,
}
use mmperp.Ingress.Arrivals.{of_kind, InQueues, queued_frames, submit_frame-Adds}
use mmperp.Snapshot.Record.{SnapshotError}
use mmperp.Wal.Record.{blank_header}
use mmperp.Wal.Writer.{Writer, append}
use mmperp.Wal.Appends.{append_all}
use mmperp.Matcher.Requests.{IsSoundEngine}
use mmperp.Node.Fills.{Node, build_wal_payload}
use mmperp.Node.Orders.{handle_new_order, handle_cancel, handle_replace}
use mmperp.Node.Loop.{snapshot_interval, advance_block}
use mmperp.Node.Drained.{
  Logged, handle_new_order-Logged, handle_cancel-Logged, handle_replace-Logged, append_frames,
}
use mmperp.Node.System.{
  arrive, Step, arrives, takes_order, takes_cancel, takes_replace, counts, Run, begin, and_then,
}
use mmperp.Node.System.Kinds.{
  Balanced, waiting_kind, Balanced-queue, Balanced-take, Balanced-other, popped,
}
use mmperp.Node.System.Books.{
  handle_new_order-IsSound, handle_cancel-IsSound, handle_replace-IsSound,
}

-- The queues hold what was put in them and was not taken; the log holds a record for each frame taken.
pub record IsWell (wal : Writer) (queued taken : List Frame) (n : Node) : Type 0 where
  pub orders : List Frame
  pub cancels : List Frame
  pub replaces : List Frame
  pub waiting : InQueues n.ingress.queues orders cancels replaces
  pub orders_lem : Balanced new_order queued taken orders
  pub cancels_lem : Balanced cancel queued taken cancels
  pub replaces_lem : Balanced replace queued taken replaces
  pub wal_lem : n.wal ≡ append_all wal (map build_wal_payload taken)
  pub sound : IsSoundEngine n.matcher
  pub kinds : All (λ f. is_heartbeat f.header.kind ≡ false) taken
  pub block_fits : n.block_number < 2 ^ 64

logged_one :
    (wal : Writer) (taken : List Frame) (f : Frame) (w : Writer)
    → w ≡ append_all wal (map build_wal_payload taken)
    → append w blank_header (build_wal_payload f)
      ≡ append_all wal (map build_wal_payload (taken ++ f ∷ []))
unfolding append_all
logged_one wal taken f w h =
    ap (λ v. append v blank_header (build_wal_payload f)) h ∙ sym (append_frames wal taken (f ∷ []))

IsWell-if :
    {wal : Writer} {queued taken : List Frame} (b : Bool) (x y : Node × Option SnapshotError)
    → IsWell wal queued taken x.0
    → IsWell wal queued taken y.0
    → IsWell wal queued taken (if b then x else y).0
IsWell-if true x y h k = h
IsWell-if false x y h k = k

arrive-IsWell :
    (wal : Writer) (queued taken : List Frame) (n : Node) (f : Frame)
    → IsWell wal queued taken n
    → IsWell wal (queued ++ queued_frames n.ingress f) (taken ++ []) (arrive n f)
unfolding arrive
arrive-IsWell wal queued taken n f h =
    let fs = queued_frames n.ingress f in
    record {
      orders = h.orders ++ of_kind new_order fs;
      cancels = h.cancels ++ of_kind cancel fs;
      replaces = h.replaces ++ of_kind replace fs;
      waiting = submit_frame-Adds n.ingress f h.orders h.cancels h.replaces h.waiting;
      orders_lem = Balanced-queue new_order queued taken h.orders fs h.orders_lem;
      cancels_lem = Balanced-queue cancel queued taken h.cancels fs h.cancels_lem;
      replaces_lem = Balanced-queue replace queued taken h.replaces fs h.replaces_lem;
      wal_lem = rw (append-nil taken) h.wal_lem;
      sound = h.sound;
      kinds = rw (append-nil taken) h.kinds;
      block_fits = h.block_fits;
    }

-- A frame was taken, and the frames that are left are known.
module _ (wal : Writer) (queued taken : List Frame) (n : Node) (f : Frame) (p : Pipeline)
    (n' : Node) (h : IsWell wal queued taken n) (logged : Logged (record n { ingress = p }) f n')
    (books : IsSoundEngine n'.matcher) (kind : is_heartbeat f.header.kind ≡ false) where
  handled-IsWell :
      (orders cancels replaces : List Frame)
      → InQueues p.queues orders cancels replaces
      → Balanced new_order (queued ++ []) (taken ++ f ∷ []) orders
      → Balanced cancel (queued ++ []) (taken ++ f ∷ []) cancels
      → Balanced replace (queued ++ []) (taken ++ f ∷ []) replaces
      → IsWell wal (queued ++ []) (taken ++ f ∷ []) n'
  handled-IsWell orders cancels replaces left o c r = record {
    orders = orders;
    cancels = cancels;
    replaces = replaces;
    waiting = subst (λ x. InQueues x.queues orders cancels replaces) (sym logged.ingress_lem) left;
    orders_lem = o;
    cancels_lem = c;
    replaces_lem = r;
    wal_lem = logged.wal_lem ∙ logged_one wal taken f n.wal h.wal_lem;
    sound = books;
    kinds = All-append (λ g. is_heartbeat g.header.kind ≡ false) taken (f ∷ []) h.kinds (kind, tt);
    block_fits = omega (arith, logged.block_lem, h.block_fits);
  }

takes_order-IsWell :
    (wal : Writer) (queued taken : List Frame) (n : Node) (f : Frame) (p : Pipeline)
    → next_new_order n.ingress ≡ (some f, p)
    → IsWell wal queued taken n
    → IsWell wal (queued ++ []) (taken ++ f ∷ []) (handle_new_order (record n { ingress = p }) f)
unfolding next_new_order
takes_order-IsWell wal queued taken n f p e h =
    let m : Node = record n { ingress = p } in
    let (rest, found, left) = popped h.orders h.waiting.0 (ap (λ x. x.0) e) in
    let own = subst (Balanced new_order queued taken) found h.orders_lem in
    let kind = waiting_kind new_order queued taken rest f own in
    handled-IsWell wal queued taken n f p (handle_new_order m f) h (handle_new_order-Logged m f)
      (handle_new_order-IsSound m f h.sound) (ap is_heartbeat kind) rest h.cancels h.replaces
      (subst (λ x. InQueues x.queues rest h.cancels h.replaces) (ap (λ x. x.1) e)
        (left, h.waiting.1, h.waiting.2))
      (Balanced-take new_order queued taken rest f own)
      (Balanced-other cancel new_order queued taken h.cancels f kind refl h.cancels_lem)
      (Balanced-other replace new_order queued taken h.replaces f kind refl h.replaces_lem)

takes_cancel-IsWell :
    (wal : Writer) (queued taken : List Frame) (n : Node) (f : Frame) (p : Pipeline)
    → next_cancel n.ingress ≡ (some f, p)
    → IsWell wal queued taken n
    → IsWell wal (queued ++ []) (taken ++ f ∷ []) (handle_cancel (record n { ingress = p }) f)
unfolding next_cancel
takes_cancel-IsWell wal queued taken n f p e h =
    let m : Node = record n { ingress = p } in
    let (rest, found, left) = popped h.cancels h.waiting.1 (ap (λ x. x.0) e) in
    let own = subst (Balanced cancel queued taken) found h.cancels_lem in
    let kind = waiting_kind cancel queued taken rest f own in
    handled-IsWell wal queued taken n f p (handle_cancel m f) h (handle_cancel-Logged m f)
      (handle_cancel-IsSound m f h.sound) (ap is_heartbeat kind) h.orders rest h.replaces
      (subst (λ x. InQueues x.queues h.orders rest h.replaces) (ap (λ x. x.1) e)
        (h.waiting.0, left, h.waiting.2))
      (Balanced-other new_order cancel queued taken h.orders f kind refl h.orders_lem)
      (Balanced-take cancel queued taken rest f own)
      (Balanced-other replace cancel queued taken h.replaces f kind refl h.replaces_lem)

takes_replace-IsWell :
    (wal : Writer) (queued taken : List Frame) (n : Node) (f : Frame) (p : Pipeline)
    → next_replace n.ingress ≡ (some f, p)
    → IsWell wal queued taken n
    → IsWell wal (queued ++ []) (taken ++ f ∷ []) (handle_replace (record n { ingress = p }) f)
unfolding next_replace
takes_replace-IsWell wal queued taken n f p e h =
    let m : Node = record n { ingress = p } in
    let (rest, found, left) = popped h.replaces h.waiting.2 (ap (λ x. x.0) e) in
    let own = subst (Balanced replace queued taken) found h.replaces_lem in
    let kind = waiting_kind replace queued taken rest f own in
    handled-IsWell wal queued taken n f p (handle_replace m f) h (handle_replace-Logged m f)
      (handle_replace-IsSound m f h.sound) (ap is_heartbeat kind) h.orders h.cancels rest
      (subst (λ x. InQueues x.queues h.orders h.cancels rest) (ap (λ x. x.1) e)
        (h.waiting.0, h.waiting.1, left))
      (Balanced-other new_order replace queued taken h.orders f kind refl h.orders_lem)
      (Balanced-other cancel replace queued taken h.cancels f kind refl h.cancels_lem)
      (Balanced-take replace queued taken rest f own)

-- The rest of the state does not matter.
pub numbered :
    {wal : Writer} {queued taken : List Frame} {m : Node}
    → IsWell wal queued taken m
    → (n : Node) → n.ingress ≡ m.ingress
    → n.wal ≡ m.wal
    → n.matcher ≡ m.matcher
    → n.block_number < 2 ^ 64
    → IsWell wal queued taken n
numbered h n i w e b = record {
  orders = h.orders;
  cancels = h.cancels;
  replaces = h.replaces;
  waiting = subst (λ x. InQueues x.queues h.orders h.cancels h.replaces) (sym i) h.waiting;
  orders_lem = h.orders_lem;
  cancels_lem = h.cancels_lem;
  replaces_lem = h.replaces_lem;
  wal_lem = w ∙ h.wal_lem;
  sound = subst IsSoundEngine (sym e) h.sound;
  kinds = h.kinds;
  block_fits = b;
}

counts-IsWell :
    (wal : Writer) (queued taken : List Frame) (n : Node) (processed : ℕ)
    → IsWell wal queued taken n
    → IsWell wal (queued ++ []) (taken ++ []) (advance_block n processed).0
unfolding advance_block
counts-IsWell wal queued taken n processed h =
    let new_block = (n.block_number + processed) % 2 ^ 64 in
    rw (append-nil queued, append-nil taken)
      (IsWell-if (leb snapshot_interval ((new_block + 2 ^ 64 - n.last_snapshot_block) % 2 ^ 64)) _ _
        (numbered h _ refl refl refl (omega arith)) (numbered h _ refl refl refl (omega arith)))

Step-IsWell :
    (wal : Writer) (queued taken : List Frame) {m n : Node} {queued' taken' : List Frame}
    → Step m queued' taken' n
    → IsWell wal queued taken m
    → IsWell wal (queued ++ queued') (taken ++ taken') n
Step-IsWell wal queued taken (arrives n f) h = arrive-IsWell wal queued taken n f h
Step-IsWell wal queued taken (takes_order n f p e) h = takes_order-IsWell wal queued taken n f p e h
Step-IsWell wal queued taken (takes_cancel n f p e) h =
    takes_cancel-IsWell wal queued taken n f p e h
Step-IsWell wal queued taken (takes_replace n f p e) h =
    takes_replace-IsWell wal queued taken n f p e h
Step-IsWell wal queued taken (counts n processed) h = counts-IsWell wal queued taken n processed h

pub Run-IsWell :
    {start n : Node} {queued taken : List Frame}
    → IsWell start.wal [] [] start
    → Run start queued taken n
    → IsWell start.wal queued taken n
Run-IsWell h begin = h
Run-IsWell {start} h (and_then {queued} {taken} run step) =
    Step-IsWell start.wal queued taken step (Run-IsWell h run)
