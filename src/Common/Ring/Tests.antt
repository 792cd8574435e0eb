-- ===== src/Common/Ring/Tests.antt =====
-- A ring of two slots.
use mmperp.Prelude.{ℕ, ◌≡◌, none, some, [], ◌∷◌, arith}
use mmperp.Common.Ring.{new_ring}
use mmperp.Common.Ring.Refine.{run_ring, run_queue, run_ring-run_queue}

run_ring-run_queue_example :
    run_ring {A = ℕ} (new_ring 2) (some 7 ∷ some 8 ∷ none ∷ none ∷ [])
    ≡ run_queue 2 [] (some 7 ∷ some 8 ∷ none ∷ none ∷ [])
run_ring-run_queue_example = run_ring-run_queue 2 (some 7 ∷ some 8 ∷ none ∷ none ∷ []) (omega arith)
