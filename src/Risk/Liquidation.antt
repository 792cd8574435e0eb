-- ===== src/Risk/Liquidation.antt =====
-- libs/risk/src/liquidation_engine.cpp: when an account must be liquidated, and by how much.
use mmperp.Prelude.{ℕ, if◌then◌else◌}
use mmperp.Prelude.Int.{ℤ, pos, ◌-ℤ◌, ltb_ℤ, eqb_ℤ}
use mmperp.Risk.Types.{MarginSummary, RiskEngine}
use mmperp.Risk.Summary.{account_summary}

pub data Status : Type 0 where
  healthy needs_partial needs_full : Status

pub record Result : Type 0 where
  pub status : Status
  pub equity : ℤ
  pub initial_margin : ℤ
  pub maintenance_margin : ℤ
  pub deficit : ℤ

abbrev result_of : MarginSummary → Status → ℤ → Result
result_of m status deficit = record {
  status = status;
  equity = m.equity;
  initial_margin = m.initial_margin;
  maintenance_margin = m.maintenance_margin;
  deficit = deficit;
}

unfoldable pub classify : MarginSummary → Result
classify m =
    if eqb_ℤ m.maintenance_margin (pos 0)
    then result_of m healthy (pos 0)
    else if ltb_ℤ m.equity m.maintenance_margin
    then result_of m needs_full (m.maintenance_margin -ℤ m.equity)
    else if ltb_ℤ m.equity m.initial_margin
    then result_of m needs_partial (m.initial_margin -ℤ m.equity)
    else result_of m healthy (pos 0)

unfoldable pub evaluate : RiskEngine → ℕ → Result
unfolding classify
evaluate e account = classify (account_summary e account)
