-- ===== src/Funding/Tests.antt =====
-- The funding engine on a concrete market.
use mmperp.Prelude.{arith, ◌≡◌, vacant, insert}
use mmperp.Prelude.Int.{pos, neg, ◌≤ℤ◌, ◌+ℤ◌, ◌-ℤ◌, ◌*ℤ◌, div_ℤ}
use mmperp.Funding.{
  FundingEngine, MarketFundingConfig, configure_market, ensure_market, band_of, update_market,
  mark_price, accumulated_funding,
}
use mmperp.Funding.Bounds.{update_market-rates, update_market-mark}

abbrev tight : MarketFundingConfig
tight = record { clamp_basis_points = pos 50; max_rate_basis_points = pos 20 }

abbrev listed : FundingEngine
listed = configure_market vacant 1 tight

abbrev ShownRates : FundingEngine → Type 0
ShownRates e =
    let c = (ensure_market e 1).config in
    let shown = (update_market e 1 (pos 10000) (pos 10900) (pos 60)).1 in
    ((neg c.clamp_basis_points ≤ℤ shown.premium_rate)
      × (shown.premium_rate ≤ℤ c.clamp_basis_points))
    × ((neg c.max_rate_basis_points ≤ℤ shown.funding_rate)
        × (shown.funding_rate ≤ℤ c.max_rate_basis_points))

update_market-rates_example : ShownRates listed
unfolding configure_market insert
update_market-rates_example =
    update_market-rates listed 1 (pos 10000) (pos 10900) (pos 60) (omega arith) (omega arith)

update_market-mark_example :
    let band = band_of (ensure_market listed 1).config (pos 10000) in
    let after = update_market listed 1 (pos 10000) (pos 10900) (pos 60) in
    ((pos 10000 -ℤ band ≤ℤ mark_price after.0 1) × (mark_price after.0 1 ≤ℤ pos 10000 +ℤ band))
    × (accumulated_funding after.0 1
        ≡ (ensure_market listed 1).funding_accumulator +ℤ after.1.funding_rate *ℤ pos 60)
unfolding configure_market insert band_of div_ℤ ◌*ℤ◌
update_market-mark_example =
    update_market-mark listed 1 (pos 10000) (pos 10900) (pos 60) (omega arith)
