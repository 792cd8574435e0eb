-- ===== src/Risk/Tests.antt =====
-- The risk engine on a concrete account: long one contract at 100.
use mmperp.Prelude.{arith, ◌≡◌, refl, true, some, [], ◌∷◌, vacant, insert, lookup}
use mmperp.Prelude.Int.{pos, ◌+ℤ◌, neg}
use mmperp.Common.Types.{sell}
use mmperp.Risk.Types.{
  OrderIntent, FillContext, AccountState, MarketState, RiskEngine, MarketRiskConfig,
}
use mmperp.Risk.Engine.{
  find_account, find_market, credit_collateral, signed_qty, or_flat, or_new_account, realized_by,
  fill_account, apply_fill,
}
use mmperp.Risk.Summary.{account_summary, held_in, opening_equity, fill_of, evaluate_order}
use mmperp.Risk.Liquidation.{evaluate}
use mmperp.Risk.Positions.{apply_fill-held_in, fill_account-opening_equity}
use mmperp.Risk.Verdicts.{IsVerdict}
use mmperp.Risk.Equity.{gain_by}
use mmperp.Risk.Checks.{IsAnswer, evaluate_order-apply_fill}
use mmperp.Risk.Cures.{IsCured, evaluate-credit_collateral}

abbrev config : MarketRiskConfig
config = record {
  contract_size = pos 1;
  initial_margin_basis_points = pos 1000;
  maintenance_margin_basis_points = pos 500;
}

abbrev long_one : AccountState
long_one = record {
  collateral = pos 500;
  realized_pnl = pos 0;
  positions = (1, record { quantity = pos 1; entry_price = pos 100 }) ∷ [];
}

abbrev traded : RiskEngine
traded = record {
  accounts = (9, long_one) ∷ [];
  markets = insert 1 record { config = config; mark_price = pos 120 } vacant;
}

abbrev closing : FillContext
closing = record { account = 9; market = 1; side = sell; quantity = pos 1; price = pos 130 }

abbrev reducing : OrderIntent
reducing = record {
  account = 9;
  market = 1;
  side = sell;
  quantity = pos 1;
  limit_price = pos 130;
  reduce_only = true;
}

apply_fill-held_in_example :
    held_in (find_account (apply_fill traded closing) 9) 1
    ≡ held_in (find_account traded 9) 1 +ℤ signed_qty sell (pos 1)
apply_fill-held_in_example = apply_fill-held_in traded closing 9 1

fill_account-opening_equity_example :
    let p = or_flat (lookup 1 long_one.positions) in
    let realized = realized_by p (neg (pos 1)) (pos 130) (pos 1) in
    opening_equity (some (fill_account long_one 1 (neg (pos 1)) (pos 130) (pos 1)))
    ≡ opening_equity (some long_one) +ℤ (realized +ℤ realized)
unfolding lookup neg
fill_account-opening_equity_example =
    fill_account-opening_equity long_one 1 (neg (pos 1)) (pos 130) (pos 1) refl

abbrev marked : MarketState
marked = record { config = config; mark_price = pos 120 }

evaluate_order-apply_fill_example :
    let e' = apply_fill traded (record (fill_of reducing) { price = pos 125 }) in
    let p = lookup 1 (or_new_account (find_account traded 9)).positions in
    IsAnswer true
      (evaluate_order traded reducing)
      (account_summary e' 9)
      ((account_summary traded 9).equity +ℤ gain_by marked (signed_qty sell (pos 1)) p)
      (held_in (find_account traded 9) 1)
      (held_in (find_account e' 9) 1)
evaluate_order-apply_fill_example =
    evaluate_order-apply_fill traded reducing marked (pos 125) (unfold find_market insert in refl)
      refl

evaluate-credit_collateral_example :
    IsVerdict (account_summary traded 9) (evaluate traded 9)
    × IsCured (evaluate traded 9) (evaluate (credit_collateral traded 9 (pos 5)) 9) (pos 5)
evaluate-credit_collateral_example = evaluate-credit_collateral traded 9 (pos 5) (omega arith)
