-- ===== src/Node/System.antt =====
-- apps/tradecored/src/main.cpp: the program while it runs, with frames arriving between the steps of
-- the event loop.
pub mod Kinds
pub mod Books
pub mod Invariant
pub mod Rounds
pub mod Starts
pub mod Delivery
pub mod Histories
pub mod Settled
mod Tests
use mmperp.Prelude.{ℕ, ◌+◌, ◌≡◌, some, List, [], ◌∷◌, ◌++◌}
use mmperp.Ingress.{Frame, Pipeline, submit_frame, next_new_order, next_cancel, next_replace}
use mmperp.Ingress.Arrivals.{queued_frames}
use mmperp.Node.Fills.{Node}
use mmperp.Node.Orders.{handle_new_order, handle_cancel, handle_replace}
use mmperp.Node.Loop.{advance_block}

-- The transport's callback.
unfoldable pub arrive : Node → Frame → Node
unfolding submit_frame
arrive n f = record n { ingress = (submit_frame n.ingress f).1 }

-- A step, with the frame that it puts in a queue and the one that it takes out of one. The loops of a
-- round are made of such steps; here frames arrive between any two of them, and they come in any order.
pub data Step : Node → List Frame → List Frame → Node → Type 0 where
  arrives : (n : Node) (f : Frame) → Step n (queued_frames n.ingress f) [] (arrive n f)
  takes_order :
      (n : Node) (f : Frame) (p : Pipeline)
      → next_new_order n.ingress ≡ (some f, p)
      → Step n [] (f ∷ []) (handle_new_order (record n { ingress = p }) f)
  takes_cancel :
      (n : Node) (f : Frame) (p : Pipeline)
      → next_cancel n.ingress ≡ (some f, p)
      → Step n [] (f ∷ []) (handle_cancel (record n { ingress = p }) f)
  takes_replace :
      (n : Node) (f : Frame) (p : Pipeline)
      → next_replace n.ingress ≡ (some f, p)
      → Step n [] (f ∷ []) (handle_replace (record n { ingress = p }) f)
  counts : (n : Node) (processed : ℕ) → Step n [] [] (advance_block n processed).0

-- Any number of steps, with all frames that they put in queues and all that they take out.
pub data Run (start : Node) : List Frame → List Frame → Node → Type 0 where
  begin : Run start [] [] start
  and_then :
      {queued taken queued' taken' : List Frame} {m n : Node}
      → Run start queued taken m
      → Step m queued' taken' n
      → Run start (queued ++ queued') (taken ++ taken') n
