-- ===== src/Node/System/Rounds.antt =====
-- A round of the event loop is made of steps, and takes every frame that waits.
use mmperp.Prelude.{
  ℕ, zero, suc, ◌+◌, ◌%◌, ◌^◌, ◌<◌, ◌≡◌, refl, sym, ap, ◌∙◌, subst, Bool, true, false, Option, none,
  some, List, [], ◌∷◌, ◌++◌, append-nil, append_assoc, arith, length, ltb, if◌then◌else◌,
}
use mmperp.Common.Ring.{Ring, pop}
use mmperp.Common.Ring.Refine.{Represents, queue_pop, pop-Represents, pop-nil}
use mmperp.Ingress.{Frame, Pipeline, next_new_order, next_cancel, next_replace}
use mmperp.Ingress.Arrivals.{InQueues}
use mmperp.Snapshot.Record.{SnapshotError}
use mmperp.Node.Fills.{Node}
use mmperp.Node.Orders.{handle_new_order, handle_cancel, handle_replace}
use mmperp.Node.Loop.{
  drain, drain_next, process_new_orders, process_cancels, process_replaces, advance_block, tick,
}
use mmperp.Node.Drained.{
  handle_new_order-Logged, handle_cancel-Logged, handle_replace-Logged, new_orders_ring,
  cancels_ring, replaces_ring, new_orders-Drained, cancels-Drained,
}
use mmperp.Node.System.{Step, takes_order, takes_cancel, takes_replace, counts, Run, and_then}

-- What a loop takes from its queue: a frame in a step of its own, and nothing when there is none.
record Loop (next : Pipeline → Option Frame × Pipeline) (ring : Pipeline → Ring Frame)
    (handle : Node → Frame → Node) : Type 0 where
  frame_lem : (p : Pipeline) → (next p).0 ≡ (pop (ring p)).0
  ring_lem : (p : Pipeline) → ring (next p).1 ≡ (pop (ring p)).1
  end_lem : (p : Pipeline) → pop (ring p) ≡ (none, ring p) → next p ≡ (none, p)
  steps :
      (n : Node) (f : Frame) (p : Pipeline)
      → next n.ingress ≡ (some f, p)
      → Step n [] (f ∷ []) (handle (record n { ingress = p }) f)
  keeps : (n : Node) (f : Frame) → (handle n f).ingress ≡ n.ingress

took :
    {start m n : Node} {queued taken : List Frame} {f : Frame}
    → Run start queued taken m
    → Step m [] (f ∷ []) n
    → Run start queued (taken ++ f ∷ []) n
took {start} {m} {n} {queued} {taken} {f} run step =
    subst (λ q. Run start q (taken ++ f ∷ []) n) (append-nil queued) (and_then run step)

module _ {next : Pipeline → Option Frame × Pipeline} {ring : Pipeline → Ring Frame}
    {handle : Node → Frame → Node} (loop : Loop next ring handle) where
  drain-Run :
      (fuel : ℕ) (start n : Node) (queued taken q : List Frame)
      → length q < fuel
      → Represents (ring n.ingress) q
      → Run start queued taken n
      → Run start queued (taken ++ q) (drain next handle fuel n).1
  unfolding drain drain_next queue_pop
  drain-Run zero start n queued taken q l h run = absurd (omega arith)
  drain-Run (suc fuel) start n queued taken [] l h run =
      subst (λ x. Run start queued (taken ++ []) (drain_next handle x n (drain next handle fuel)).1)
        (sym (loop.end_lem n.ingress (pop-nil (ring n.ingress) h))) (rw (append-nil taken) run)
  drain-Run (suc fuel) start n queued taken (f ∷ q) l h run =
      let p = (next n.ingress).1 in
      let (e, h') = pop-Represents (ring n.ingress) (f ∷ q) h in
      let n' = handle (record n { ingress = p }) f in
      let found : next n.ingress ≡ (some f, p) = ap (λ o. (o, p)) (loop.frame_lem n.ingress ∙ e) in
      subst
        (λ x. Run start queued (taken ++ f ∷ q) (drain_next handle x n (drain next handle fuel)).1)
        (sym found)
        (subst (λ t. Run start queued t (drain next handle fuel n').1)
          (append_assoc taken (f ∷ []) q)
          (drain-Run fuel start n' queued (taken ++ f ∷ []) q (omega arith)
            (subst (λ i. Represents (ring i) q) (sym (loop.keeps (record n { ingress = p }) f))
              (subst (λ r. Represents r q) (sym (loop.ring_lem n.ingress)) h'))
            (took run (loop.steps n f p found))))

new_orders-Loop : Loop next_new_order new_orders_ring handle_new_order
unfolding next_new_order
new_orders-Loop = record {
  frame_lem = λ p. refl;
  ring_lem = λ p. refl;
  end_lem = λ p e. ap (λ x. (x.0, record p { queues = record p.queues { new_orders = x.1 } })) e;
  steps = takes_order;
  keeps = λ n f. (handle_new_order-Logged n f).ingress_lem;
}

cancels-Loop : Loop next_cancel cancels_ring handle_cancel
unfolding next_cancel
cancels-Loop = record {
  frame_lem = λ p. refl;
  ring_lem = λ p. refl;
  end_lem = λ p e. ap (λ x. (x.0, record p { queues = record p.queues { cancels = x.1 } })) e;
  steps = takes_cancel;
  keeps = λ n f. (handle_cancel-Logged n f).ingress_lem;
}

replaces-Loop : Loop next_replace replaces_ring handle_replace
unfolding next_replace
replaces-Loop = record {
  frame_lem = λ p. refl;
  ring_lem = λ p. refl;
  end_lem = λ p e. ap (λ x. (x.0, record p { queues = record p.queues { replaces = x.1 } })) e;
  steps = takes_replace;
  keeps = λ n f. (handle_replace-Logged n f).ingress_lem;
}

counted :
    {start n : Node} {queued taken : List Frame}
    → Run start queued taken n
    → (processed : ℕ) → Run start queued taken (advance_block n processed).0
counted {start} {n} {queued} {taken} run processed =
    let n' = (advance_block n processed).0 in
    subst (λ q. Run start q taken n') (append-nil queued)
      (subst (λ t. Run start (queued ++ []) t n') (append-nil taken)
        (and_then run (counts n processed)))

Run-if :
    {start : Node} {queued taken : List Frame} (b : Bool) (x y : Node × Option SnapshotError)
    → Run start queued taken x.0
    → Run start queued taken y.0
    → Run start queued taken (if b then x else y).0
Run-if true x y h k = h
Run-if false x y h k = k

-- A round goes on with the steps that take the frames that wait, and empties the queues.
pub tick-Run :
    (start n : Node) (queued taken orders cancels replaces : List Frame)
    → InQueues n.ingress.queues orders cancels replaces
    → Run start queued taken n
    → Run start queued (((taken ++ orders) ++ cancels) ++ replaces) (tick n).0
unfolding tick process_new_orders process_cancels process_replaces
tick-Run start n queued taken orders cancels replaces (ho, hc, hr) run =
    let (k1, n1) = process_new_orders n in
    let d1 = new_orders-Drained n orders cancels replaces (ho, hc, hr) in
    let r1 =
      drain-Run new_orders-Loop n.ingress.queues.new_orders.capacity start n queued taken orders
        ho.room ho run in
    let (c1, e1) = d1.others_lem in
    let (k2, n2) = process_cancels n1 in
    let d2 = cancels-Drained n1 cancels replaces (d1.empty_lem, c1, e1) in
    let r2 =
      drain-Run cancels-Loop n1.ingress.queues.cancels.capacity start n1 queued (taken ++ orders)
        cancels c1.room c1 r1 in
    let (o2, e2) = d2.others_lem in
    let (k3, n3) = process_replaces n2 in
    let r3 =
      drain-Run replaces-Loop n2.ingress.queues.replaces.capacity start n2 queued
        ((taken ++ orders) ++ cancels) replaces e2.room e2 r2 in
    let processed = (k1 + k2 + k3) % 2 ^ 64 in
    Run-if (ltb 0 processed) _ _ (counted r3 processed) r3
