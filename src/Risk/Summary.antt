-- ===== src/Risk/Summary.antt =====
-- libs/risk/src/risk_engine.cpp: margin, and the check of an order.
use mmperp.Prelude.{
  ℕ, List, [], ◌∷◌, map, Bool, true, false, ◌&&◌, not, Option, none, some, lookup, ◌==◌,
  if◌then◌else◌,
}
use mmperp.Prelude.Int.{ℤ, pos, ◌+ℤ◌, ◌-ℤ◌, ◌*ℤ◌, abs, ltb_ℤ, eqb_ℤ, div_ℤ}
use mmperp.Risk.Types.{
  accepted, rejected_insufficient_margin, rejected_reduce_only, rejected_unknown_market, RiskResult,
  OrderIntent, FillContext, MarginSummary, PositionState, AccountState, MarketState, RiskEngine,
}
use mmperp.Risk.Engine.{find_account, find_market, signed_qty, or_flat}

pub record Exposure : Type 0 where
  pub market : ℕ
  pub quantity : ℤ
  pub entry_price : ℤ
  pub existed : Bool

-- Rounded up, for a notional that is not negative.
unfoldable pub apply_basis_points : ℤ → ℤ → ℤ
apply_basis_points notional basis_points = div_ℤ (notional *ℤ basis_points +ℤ pos 9999) (pos 10000)

abbrev pub exposure_of : ℕ × PositionState → Exposure
exposure_of (market_id, p) = record {
  market = market_id;
  quantity = p.quantity;
  entry_price = p.entry_price;
  existed = true;
}

unfoldable pub exposures_of : Option AccountState → List Exposure
exposures_of none = []
exposures_of (some a) = map exposure_of a.positions

-- The order's own effect on the first exposure in its market, or an exposure of its own.
unfoldable pub with_delta : FillContext → List Exposure → List Exposure
with_delta d [] =
    record {
      market = d.market;
      quantity = signed_qty d.side d.quantity;
      entry_price = d.price;
      existed = false;
    }
    ∷ []
with_delta d (x ∷ xs) =
    if x.market == d.market
    then record x {
      quantity = x.quantity +ℤ signed_qty d.side d.quantity;
      entry_price = if not x.existed then d.price else x.entry_price;
    }
      ∷ xs
    else x ∷ with_delta d xs

unfoldable pub add_delta : Option FillContext → List Exposure → List Exposure
add_delta none xs = xs
add_delta (some d) xs = with_delta d xs

abbrev prices : Option FillContext → ℕ → Bool
prices none market = false
prices (some d) market = (d.market == market) && not (eqb_ℤ d.price (pos 0))

abbrev price_of : Option FillContext → ℤ
price_of none = pos 0
price_of (some d) = d.price

-- The price at which an exposure is valued: the mark, else the order's own price, else the entry's.
unfoldable pub valuation : Option FillContext → MarketState → Exposure → ℤ
valuation delta s x =
    if not (eqb_ℤ s.mark_price (pos 0))
    then s.mark_price
    else if prices delta x.market
    then price_of delta
    else x.entry_price

unfoldable pub notional_at : ℤ → MarketState → Exposure → ℤ
notional_at mark s x = abs x.quantity *ℤ mark *ℤ s.config.contract_size

unfoldable pub unrealized_at : ℤ → MarketState → Exposure → ℤ
unrealized_at mark s x = x.quantity *ℤ (mark -ℤ x.entry_price) *ℤ s.config.contract_size

unfoldable pub add_valued : ℤ → MarketState → Exposure → MarginSummary → MarginSummary
add_valued mark s x m = record {
  equity = if x.existed then m.equity +ℤ unrealized_at mark s x else m.equity;
  initial_margin =
      m.initial_margin
      +ℤ apply_basis_points (notional_at mark s x) s.config.initial_margin_basis_points;
  maintenance_margin =
      m.maintenance_margin
      +ℤ apply_basis_points (notional_at mark s x) s.config.maintenance_margin_basis_points;
}

unfoldable pub add_in_market :
    Option FillContext → Option MarketState → Exposure → MarginSummary → MarginSummary
add_in_market delta none x m = m
add_in_market delta (some s) x m = add_valued (valuation delta s x) s x m

unfoldable pub add_exposure :
    RiskEngine → Option FillContext → Exposure → MarginSummary → MarginSummary
unfolding find_market
add_exposure e delta x m =
    if eqb_ℤ x.quantity (pos 0) then m else add_in_market delta (find_market e x.market) x m

unfoldable pub add_exposures :
    RiskEngine → Option FillContext → List Exposure → MarginSummary → MarginSummary
add_exposures e delta [] m = m
add_exposures e delta (x ∷ xs) m = add_exposures e delta xs (add_exposure e delta x m)

unfoldable pub opening_equity : Option AccountState → ℤ
opening_equity none = pos 0
opening_equity (some a) = a.collateral +ℤ a.realized_pnl

unfoldable pub account_summary_with_delta : RiskEngine → ℕ → Option FillContext → MarginSummary
account_summary_with_delta e account delta =
    let state = find_account e account in
    add_exposures e delta (add_delta delta (exposures_of state))
      record { equity = opening_equity state; initial_margin = pos 0; maintenance_margin = pos 0 }

unfoldable pub account_summary : RiskEngine → ℕ → MarginSummary
account_summary e account = account_summary_with_delta e account none

unfoldable pub held_in : Option AccountState → ℕ → ℤ
held_in none market = pos 0
held_in (some a) market = (or_flat (lookup market a.positions)).quantity

abbrev pub fill_of : OrderIntent → FillContext
fill_of o = record {
  account = o.account;
  market = o.market;
  side = o.side;
  quantity = o.quantity;
  price = o.limit_price;
}

unfoldable pub judge : MarginSummary → RiskResult
judge m =
    let refused = ltb_ℤ m.equity m.initial_margin in
    record {
      decision = if refused then rejected_insufficient_margin else accepted;
      reject_code = if refused then 2002 else 0;
      equity = m.equity;
      initial_margin_required = m.initial_margin;
      maintenance_margin_required = m.maintenance_margin;
    }

abbrev pub unknown_market : RiskResult
unknown_market = record {
  decision = rejected_unknown_market;
  reject_code = 2001;
  equity = pos 0;
  initial_margin_required = pos 0;
  maintenance_margin_required = pos 0;
}

abbrev pub not_reducing : RiskResult
not_reducing = record {
  decision = rejected_reduce_only;
  reject_code = 2003;
  equity = pos 0;
  initial_margin_required = pos 0;
  maintenance_margin_required = pos 0;
}

unfoldable pub evaluate_in : RiskEngine → OrderIntent → Option MarketState → RiskResult
evaluate_in e o none = unknown_market
evaluate_in e o (some s) =
    let existing = held_in (find_account e o.account) o.market in
    let projected = existing +ℤ signed_qty o.side o.quantity in
    if o.reduce_only && ltb_ℤ (abs existing) (abs projected)
    then not_reducing
    else judge (account_summary_with_delta e o.account (some (fill_of o)))

unfoldable pub evaluate_order : RiskEngine → OrderIntent → RiskResult
unfolding evaluate_in
evaluate_order e o = evaluate_in e o (find_market e o.market)
