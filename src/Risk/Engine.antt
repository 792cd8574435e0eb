-- ===== src/Risk/Engine.antt =====
-- libs/risk/src/risk_engine.cpp: the operations that change the risk engine.
use mmperp.Prelude.{
  ℕ, Bool, ◌&&◌, ◌||◌, Option, some, none, insert, lookup, assign, map, List, if◌then◌else◌,
}
use mmperp.Prelude.Int.{ℤ, pos, ◌+ℤ◌, ◌-ℤ◌, ◌*ℤ◌, neg, abs, ltb_ℤ, eqb_ℤ, min_ℤ, div_ℤ}
use mmperp.Common.Types.{Side, buy, sell}
use mmperp.Risk.Types.{
  MarketRiskConfig, FillContext, PositionState, flat, AccountState, new_account, MarketState,
  new_market, RiskEngine,
}

abbrev pub or_new_market : Option MarketState → MarketState
or_new_market none = new_market
or_new_market (some s) = s

abbrev pub or_new_account : Option AccountState → AccountState
or_new_account none = new_account
or_new_account (some a) = a

abbrev pub or_flat : Option PositionState → PositionState
or_flat none = flat
or_flat (some p) = p

unfoldable pub find_account : RiskEngine → ℕ → Option AccountState
find_account e account = lookup account e.accounts

unfoldable pub find_market : RiskEngine → ℕ → Option MarketState
find_market e market = e.markets market

-- `ensure_account` and `ensure_market`: the state that the reference refers to.
abbrev pub ensure_account : RiskEngine → ℕ → AccountState
ensure_account e account = or_new_account (lookup account e.accounts)

abbrev pub ensure_market : RiskEngine → ℕ → MarketState
ensure_market e market = or_new_market (e.markets market)

-- Writing through such a reference.
abbrev pub with_account : RiskEngine → ℕ → AccountState → RiskEngine
with_account e account a = record e { accounts = assign account a e.accounts }

abbrev pub with_market : RiskEngine → ℕ → MarketState → RiskEngine
with_market e market s = record e { markets = insert market s e.markets }

abbrev configured : MarketRiskConfig → Option MarketState → MarketState
configured c none = record { config = c; mark_price = pos 0 }
configured c (some s) = record s { config = c }

unfoldable pub configure_market : RiskEngine → ℕ → MarketRiskConfig → RiskEngine
configure_market e market c = with_market e market (configured c (e.markets market))

unfoldable pub set_mark_price : RiskEngine → ℕ → ℤ → RiskEngine
set_mark_price e market price =
    with_market e market (record (ensure_market e market) { mark_price = price })

unfoldable pub credit_collateral : RiskEngine → ℕ → ℤ → RiskEngine
credit_collateral e account amount =
    let a = ensure_account e account in
    with_account e account (record a { collateral = a.collateral +ℤ amount })

unfoldable pub debit_collateral : RiskEngine → ℕ → ℤ → RiskEngine
debit_collateral e account amount =
    let a = ensure_account e account in
    with_account e account (record a { collateral = a.collateral -ℤ amount })

abbrev pub signed_qty : Side → ℤ → ℤ
signed_qty buy q = q
signed_qty sell q = neg q

abbrev pub is_pos : ℤ → Bool
is_pos q = ltb_ℤ (pos 0) q

abbrev pub is_neg : ℤ → Bool
is_neg q = ltb_ℤ q (pos 0)

-- The fill opens the position or adds to it.
abbrev pub adds_to : ℤ → ℤ → Bool
adds_to previous signed =
    eqb_ℤ previous (pos 0) || is_pos previous && is_pos signed || is_neg previous && is_neg signed

-- The average price, by the quantities.
unfoldable pub weighted_entry : PositionState → ℤ → ℤ → ℤ
weighted_entry p signed price =
    let total_abs = abs p.quantity +ℤ abs signed in
    let weighted = p.entry_price *ℤ abs p.quantity +ℤ price *ℤ abs signed in
    if eqb_ℤ total_abs (pos 0) then pos 0 else div_ℤ weighted total_abs

unfoldable pub add_to_position : PositionState → ℤ → ℤ → PositionState
add_to_position p signed price =
    let new_qty = p.quantity +ℤ signed in
    record {
      quantity = new_qty;
      entry_price = if eqb_ℤ new_qty (pos 0) then pos 0 else weighted_entry p signed price;
    }

unfoldable pub realized_by : PositionState → ℤ → ℤ → ℤ → ℤ
realized_by p signed price contract_size =
    let closing = min_ℤ (abs p.quantity) (abs signed) in
    let per_contract =
      if is_pos p.quantity then price -ℤ p.entry_price else p.entry_price -ℤ price in
    closing *ℤ per_contract *ℤ contract_size

unfoldable pub close_position : PositionState → ℤ → ℤ → PositionState
close_position p signed price =
    let remainder = p.quantity +ℤ signed in
    record {
      quantity = remainder;
      entry_price =
          if eqb_ℤ remainder (pos 0)
          then pos 0
          else if is_pos p.quantity && is_neg remainder || is_neg p.quantity && is_pos remainder
          then price
          else p.entry_price;
    }

-- The account after a fill.
unfoldable pub fill_account : AccountState → ℕ → ℤ → ℤ → ℤ → AccountState
unfolding add_to_position close_position
fill_account a market signed price contract_size =
    let p = or_flat (lookup market a.positions) in
    let realized = realized_by p signed price contract_size in
    if adds_to p.quantity signed
    then record a { positions = assign market (add_to_position p signed price) a.positions }
    else record {
      collateral = a.collateral +ℤ realized;
      realized_pnl = a.realized_pnl +ℤ realized;
      positions = assign market (close_position p signed price) a.positions;
    }

unfoldable pub apply_fill : RiskEngine → FillContext → RiskEngine
unfolding fill_account
apply_fill e f =
    let market = ensure_market e f.market in
    let signed = signed_qty f.side f.quantity in
    with_account (with_market e f.market market) f.account (
      fill_account (ensure_account e f.account) f.market signed f.price market.config.contract_size)

unfoldable pub get_all_accounts : RiskEngine → List ℕ
get_all_accounts e = map (λ entry. entry.0) e.accounts
