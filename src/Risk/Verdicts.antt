-- ===== src/Risk/Verdicts.antt =====
-- What the answers of the liquidation check mean.
use mmperp.Prelude.{◌≡◌, ◌⊎◌, arith}
use mmperp.Prelude.Int.{ℤ, pos, ◌+ℤ◌, ◌-ℤ◌, ◌≤ℤ◌, ◌<ℤ◌, int_laws}
use mmperp.Risk.Types.{MarginSummary}
use mmperp.Risk.Liquidation.{Result, healthy, needs_partial, needs_full, classify}

made_up : (a b : ℤ) → a +ℤ (b -ℤ a) ≡ b
made_up a b = omega int_laws

abbrev pub IsVerdict : MarginSummary → Result → Type 0
IsVerdict m r =
    ((r.status ≡ healthy)
      × (r.deficit ≡ pos 0)
      × ((m.maintenance_margin ≡ pos 0)
          ⊎ ((m.maintenance_margin ≤ℤ m.equity) × (m.initial_margin ≤ℤ m.equity))))
    ⊎ (((r.status ≡ needs_full)
          × (m.equity <ℤ m.maintenance_margin)
          × (m.equity +ℤ r.deficit ≡ m.maintenance_margin))
        ⊎ ((r.status ≡ needs_partial)
            × (m.maintenance_margin ≤ℤ m.equity)
            × (m.equity <ℤ m.initial_margin)
            × (m.equity +ℤ r.deficit ≡ m.initial_margin)))

pub classify-IsVerdict : (m : MarginSummary) → IsVerdict m (classify m)
unfolding classify
classify-IsVerdict m =
    ground (arith, made_up m.equity m.maintenance_margin, made_up m.equity m.initial_margin)
