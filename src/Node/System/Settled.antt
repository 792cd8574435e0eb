-- ===== src/Node/System/Settled.antt =====
-- The positions and the contexts of resting orders after any number of steps.
use mmperp.Prelude.{
  ℕ, ◌+◌, ◌-◌, ◌%◌, ◌^◌, ◌≡◌, refl, sym, ◌∙◌, subst, Bool, true, false, Option, none, List, [], leb,
  if◌then◌else◌,
}
use mmperp.Common.Types.{value}
use mmperp.Ingress.{Frame, Pipeline}
use mmperp.Matcher.Engine.{ensure_market}
use mmperp.Matcher.Requests.{IsSoundEngine}
use mmperp.Risk.Types.{RiskEngine}
use mmperp.Config.Parsing.{LoadResult}
use mmperp.Node.Fills.{Node}
use mmperp.Snapshot.Record.{SnapshotError}
use mmperp.Node.Orders.{order_id_of}
use mmperp.Node.Loop.{advance_block, snapshot_interval}
use mmperp.Node.Positions.{net}
use mmperp.Node.Tracked.{IsTracked}
use mmperp.Node.Tracked.Handlers.{IsSettled, IsInOrder, refl-IsSettled, handle_new_order-IsSettled}
use mmperp.Node.Tracked.Changes.{handle_cancel-IsSettled, handle_replace-IsSettled}
use mmperp.Node.Start.{Environment, Program, started, boot}
use mmperp.Node.System.{
  arrive, Step, arrives, takes_order, takes_cancel, takes_replace, counts, Run, begin, and_then,
}
use mmperp.Node.System.Invariant.{IsWell, numbered, Run-IsWell}
use mmperp.Node.System.Starts.{boot-IsReady}

-- The id of the order is not that of an order in the book.
abbrev pub IsUnused : {m n : Node} {queued taken : List Frame} → Step m queued taken n → Type 0
IsUnused (takes_order n f p e) =
    (ensure_market n.default_market n.matcher).book_orders (value (order_id_of n f)) ≡ none
IsUnused (arrives n f) = Unit
IsUnused (takes_cancel n f p e) = Unit
IsUnused (takes_replace n f p e) = Unit
IsUnused (counts n processed) = Unit

abbrev pub AllUnused :
    {start n : Node} {queued taken : List Frame} → Run start queued taken n → Type 0
AllUnused begin = Unit
AllUnused (and_then run step) = AllUnused run × IsUnused step

-- The pipeline does not matter.
from_handled :
    {n n' : Node} (p : Pipeline) → IsSettled (record n { ingress = p }) n' → IsSettled n n'
from_handled p h = record { market_lem = h.market_lem; tracks = h.tracks; net_lem = h.net_lem }

counted_if :
    (n : Node) (b : Bool) (x y : Node × Option SnapshotError)
    → IsSettled n x.0
    → IsSettled n y.0
    → IsSettled n (if b then x else y).0
counted_if n true x y h k = h
counted_if n false x y h k = k

advance_block-IsSettled :
    (n : Node) (processed : ℕ) → IsInOrder n → IsSettled n (advance_block n processed).0
unfolding advance_block
advance_block-IsSettled n processed t =
    let new_block = (n.block_number + processed) % 2 ^ 64 in
    counted_if n (leb snapshot_interval ((new_block + 2 ^ 64 - n.last_snapshot_block) % 2 ^ 64)) _ _
      (record { market_lem = refl; tracks = t; net_lem = λ j. refl })
      (record { market_lem = refl; tracks = t; net_lem = λ j. refl })

arrive-IsSettled : (n : Node) (f : Frame) → IsInOrder n → IsSettled n (arrive n f)
unfolding arrive
arrive-IsSettled n f t = record { market_lem = refl; tracks = t; net_lem = λ j. refl }

Step-IsSettled :
    {m n : Node} {queued taken : List Frame} (step : Step m queued taken n)
    → IsInOrder m
    → IsSoundEngine m.matcher
    → IsUnused step
    → IsSettled m n
unfolding order_id_of
Step-IsSettled (takes_order n f p e) t sound u =
    from_handled p (handle_new_order-IsSettled (record n { ingress = p }) f t sound u)
Step-IsSettled (arrives n f) t sound u = arrive-IsSettled n f t
Step-IsSettled (takes_cancel n f p e) t sound u =
    from_handled p (handle_cancel-IsSettled (record n { ingress = p }) f t sound)
Step-IsSettled (takes_replace n f p e) t sound u =
    from_handled p (handle_replace-IsSettled (record n { ingress = p }) f t sound)
Step-IsSettled (counts n processed) t sound u = advance_block-IsSettled n processed t

then-IsSettled : {a b c : Node} → IsSettled a b → IsSettled b c → IsSettled a c
then-IsSettled {a} {b} {c} h k = record {
  market_lem = k.market_lem ∙ h.market_lem;
  tracks = subst (λ d. IsTracked d c.matcher c.resting_orders) h.market_lem k.tracks;
  net_lem = λ j. k.net_lem j ∙ h.net_lem j;
}

in_order : {a b : Node} → IsSettled a b → IsInOrder b
in_order {a} {b} h = subst (λ d. IsTracked d b.matcher b.resting_orders) (sym h.market_lem) h.tracks

Run-IsSettled :
    {start n : Node} {queued taken : List Frame} (run : Run start queued taken n)
    → IsWell start.wal [] [] start
    → IsInOrder start
    → AllUnused run
    → IsSettled start n
Run-IsSettled {start} begin w t u = refl-IsSettled start t
Run-IsSettled (and_then run step) w t (u, us) =
    let h = Run-IsSettled run w t u in
    then-IsSettled h (Step-IsSettled step (in_order h) (Run-IsWell w run).sound us)

-- A program starts, its accounts have any collateral and positions, and any steps follow, with frames
-- arriving between them, in which no new order is taken whose id an order in the book of its market
-- has. Then the sum of the positions of all accounts in each market is what it was, and every order in
-- the books has the context of its account, market and side, by which its fills are booked.
pub Run-net :
    (env : Environment) (loaded : LoadResult) (p : Program) (risk : RiskEngine)
    (queued taken : List Frame) (n : Node) (j : ℕ)
    → boot env loaded ≡ started p
    → (run : Run (record p.node { risk = risk }) queued taken n) → AllUnused run
    → (net j n.risk.accounts ≡ net j risk.accounts)
      × IsTracked n.default_market n.matcher n.resting_orders
Run-net env loaded p risk queued taken n j boots run u =
    let ready = boot-IsReady env loaded p boots in
    let start : Node = record p.node { risk = risk } in
    let well = numbered ready.well start refl refl refl ready.well.block_fits in
    let h = Run-IsSettled run well ready.tracks u in (h.net_lem j, in_order h)
