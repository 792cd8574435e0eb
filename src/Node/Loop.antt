-- ===== src/Node/Loop.antt =====
-- apps/tradecored/src/main.cpp: the loops over the queues, and a round of the event loop, with no frame
-- arriving meanwhile. The source leaves open in which order the three loops run; here it is the order in
-- which they are written.
use mmperp.Prelude.{
  ℕ, zero, suc, ◌+◌, ◌-◌, ◌%◌, ◌^◌, Option, none, some, List, ◌++◌, ltb, leb, if◌then◌else◌,
}
use mmperp.Common.Bytes.{to_bytes}
use mmperp.Ingress.{Frame, Pipeline, next_new_order, next_cancel, next_replace}
use mmperp.Snapshot.Record.{SnapshotError}
use mmperp.Snapshot.Store.{persist}
use mmperp.Node.Fills.{Node}
use mmperp.Node.Orders.{handle_new_order, handle_cancel, handle_replace}

-- `while (next(frame)) { ++processed; ... }`, on fuel.
unfoldable pub drain_next :
    (Node → Frame → Node) → Option Frame × Pipeline → Node → (Node → ℕ × Node) → ℕ × Node
drain_next handle (none, ingress) n again = (0, record n { ingress = ingress })
drain_next handle (some f, ingress) n again =
    let (processed, n') = again (handle (record n { ingress = ingress }) f) in
    ((processed + 1) % 2 ^ 64, n')

unfoldable pub drain :
    (Pipeline → Option Frame × Pipeline) → (Node → Frame → Node) → ℕ → Node → ℕ × Node
unfolding drain_next
drain next handle zero n = (0, n)
drain next handle (suc fuel) n = drain_next handle (next n.ingress) n (drain next handle fuel)

-- A queue holds fewer frames than its capacity, which is fuel enough.
unfoldable pub process_new_orders : Node → ℕ × Node
unfolding drain
process_new_orders n = drain next_new_order handle_new_order n.ingress.queues.new_orders.capacity n

unfoldable pub process_cancels : Node → ℕ × Node
unfolding drain
process_cancels n = drain next_cancel handle_cancel n.ingress.queues.cancels.capacity n

unfoldable pub process_replaces : Node → ℕ × Node
unfolding drain
process_replaces n = drain next_replace handle_replace n.ingress.queues.replaces.capacity n

abbrev pub snapshot_interval : ℕ
snapshot_interval = 256

-- A sequence of 32 bits.
abbrev pub snapshot_sequence : ℕ → ℕ
snapshot_sequence block = if ltb block (2 ^ 32 - 1) then block else 2 ^ 32 - 1

unfoldable pub snapshot_payload : ℕ → ℕ → List ℕ
snapshot_payload chain_id block = to_bytes 8 chain_id ++ to_bytes 8 block

-- The exception of `persist` is not caught, and passes by the assignment.
abbrev pub saved_block : Option SnapshotError → ℕ → ℕ → ℕ
saved_block none new_block last = new_block
saved_block (some e) new_block last = last

unfoldable pub advance_block : Node → ℕ → Node × Option SnapshotError
unfolding snapshot_payload
advance_block n processed =
    let new_block = (n.block_number + processed) % 2 ^ 64 in
    let n' : Node = record n { block_number = new_block } in
    let (snapshot, failure) =
      persist n.snapshot (snapshot_sequence new_block) (snapshot_payload n.chain_id new_block) in
    if leb snapshot_interval ((new_block + 2 ^ 64 - n.last_snapshot_block) % 2 ^ 64)
    then (
      record n' {
        snapshot = snapshot;
        last_snapshot_block = saved_block failure new_block n.last_snapshot_block;
      },
      failure,
    )
    else (n', none)

unfoldable pub tick : Node → Node × Option SnapshotError
unfolding advance_block process_new_orders process_cancels process_replaces
tick n =
    let (orders, n) = process_new_orders n in
    let (cancels, n) = process_cancels n in
    let (replaces, n) = process_replaces n in
    let processed = (orders + cancels + replaces) % 2 ^ 64 in
    if ltb 0 processed then advance_block n processed else (n, none)
