-- ===== src/Funding.antt =====
-- libs/funding/src/funding_engine.cpp: mark prices, premiums and accumulated funding.
mod Bounds
mod Tests
use mmperp.Prelude.{ℕ, Option, some, none, Store, insert, if◌then◌else◌}
use mmperp.Prelude.Int.{ℤ, pos, ◌+ℤ◌, ◌-ℤ◌, ◌*ℤ◌, neg, ltb_ℤ, min_ℤ, max_ℤ, div_ℤ}

pub record FundingSnapshot : Type 0 where
  pub mark_price : ℤ
  pub index_price : ℤ
  pub premium_rate : ℤ
  pub funding_rate : ℤ

pub record MarketFundingConfig : Type 0 where
  pub clamp_basis_points : ℤ
  pub max_rate_basis_points : ℤ

abbrev pub default_config : MarketFundingConfig
default_config = record { clamp_basis_points = pos 100; max_rate_basis_points = pos 200 }

pub record FundingMarket : Type 0 where
  pub config : MarketFundingConfig
  pub mark_price : ℤ
  pub index_price : ℤ
  pub premium_rate : ℤ
  pub funding_accumulator : ℤ

abbrev pub fresh : MarketFundingConfig → FundingMarket
fresh c = record {
  config = c;
  mark_price = pos 0;
  index_price = pos 0;
  premium_rate = pos 0;
  funding_accumulator = pos 0;
}

abbrev pub FundingEngine : Type 0
FundingEngine = Store FundingMarket

abbrev pub or_fresh : Option FundingMarket → FundingMarket
or_fresh none = fresh default_config
or_fresh (some s) = s

abbrev pub ensure_market : FundingEngine → ℕ → FundingMarket
ensure_market e market = or_fresh (e market)

abbrev reconfigured : MarketFundingConfig → Option FundingMarket → FundingMarket
reconfigured c none = fresh c
reconfigured c (some s) = record s { config = c }

unfoldable pub configure_market : FundingEngine → ℕ → MarketFundingConfig → FundingEngine
configure_market e market c = insert market (reconfigured c (e market)) e

unfoldable pub clamp : ℤ → ℤ → ℤ → ℤ
clamp value min_value max_value = min_ℤ (max_ℤ value min_value) max_value

unfoldable pub band_of : MarketFundingConfig → ℤ → ℤ
band_of c index = div_ℤ (index *ℤ c.clamp_basis_points) (pos 10000)

unfoldable pub marked : MarketFundingConfig → ℤ → ℤ → ℤ
marked c index mid = clamp mid (index -ℤ band_of c index) (index +ℤ band_of c index)

unfoldable pub raw_premium : ℤ → ℤ → ℤ
raw_premium index mid =
    if ltb_ℤ (pos 0) index then div_ℤ ((mid -ℤ index) *ℤ pos 10000) index else pos 0

unfoldable pub premium_of : MarketFundingConfig → ℤ → ℤ → ℤ
premium_of c index mid =
    clamp (raw_premium index mid) (neg c.clamp_basis_points) c.clamp_basis_points

unfoldable pub funding_rate_of : MarketFundingConfig → ℤ → ℤ → ℤ
funding_rate_of c index mid =
    clamp (premium_of c index mid) (neg c.max_rate_basis_points) c.max_rate_basis_points

unfoldable pub updated : FundingMarket → ℤ → ℤ → ℤ → FundingMarket
updated s index mid elapsed = record s {
  mark_price = marked s.config index mid;
  index_price = index;
  premium_rate = premium_of s.config index mid;
  funding_accumulator = s.funding_accumulator +ℤ funding_rate_of s.config index mid *ℤ elapsed;
}

unfoldable pub update_market : FundingEngine → ℕ → ℤ → ℤ → ℤ → FundingEngine × FundingSnapshot
unfolding updated
update_market e market index mid elapsed =
    let s = ensure_market e market in
    (
      insert market (updated s index mid elapsed) e,
      record {
        mark_price = marked s.config index mid;
        index_price = index;
        premium_rate = premium_of s.config index mid;
        funding_rate = funding_rate_of s.config index mid;
      },
    )

abbrev pub mark_in : Option FundingMarket → ℤ
mark_in none = pos 0
mark_in (some s) = s.mark_price

unfoldable pub mark_price : FundingEngine → ℕ → ℤ
mark_price e market = mark_in (e market)

abbrev pub funding_in : Option FundingMarket → ℤ
funding_in none = pos 0
funding_in (some s) = s.funding_accumulator

unfoldable pub accumulated_funding : FundingEngine → ℕ → ℤ
accumulated_funding e market = funding_in (e market)
