-- ===== src/Ledger/Tests.antt =====
-- The ledger on a concrete state.
use mmperp.Prelude.{◌≡◌, [], ◌∷◌, vacant}
use mmperp.Prelude.Int.{pos, ◌+ℤ◌}
use mmperp.Ledger.{LedgerState, get, credit}
use mmperp.Ledger.Totals.{total, credits, debits, brought_by, move_all, total-move_all}

abbrev funded : LedgerState
funded = credit vacant 7 (pos 100)

total-move_all_example :
    let ms = debits 7 (pos 30) ∷ credits 7 (pos 5) ∷ credits 8 (pos 2) ∷ [] in
    total (get (move_all funded ms) 7) ≡ total (get funded 7) +ℤ brought_by 7 ms
total-move_all_example =
    total-move_all funded (debits 7 (pos 30) ∷ credits 7 (pos 5) ∷ credits 8 (pos 2) ∷ []) 7
