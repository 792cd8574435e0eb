-- ===== src/Funding/Bounds.antt =====
-- The bands that the funding engine keeps its prices and rates in.
use mmperp.Prelude.{subst, sym, ℕ, ◌≡◌, arith, insert_self, ap, some}
use mmperp.Prelude.Int.{ℤ, pos, neg, ◌≤ℤ◌, ◌+ℤ◌, ◌-ℤ◌, ◌*ℤ◌, min_ℤ, max_ℤ, int_laws}
use mmperp.Funding.{
  FundingEngine, mark_in, funding_in, clamp, ensure_market, band_of, marked, premium_of,
  funding_rate_of, updated, update_market, mark_price, accumulated_funding,
}

pub clamp-bounds : (v lo hi : ℤ) → lo ≤ℤ hi → (lo ≤ℤ clamp v lo hi) × (clamp v lo hi ≤ℤ hi)
unfolding clamp min_ℤ max_ℤ
clamp-bounds v lo hi h = ground arith

neg_le : (c : ℤ) → pos 0 ≤ℤ c → neg c ≤ℤ c
neg_le c h = omega int_laws

around : (i b : ℤ) → pos 0 ≤ℤ b → (i -ℤ b) ≤ℤ (i +ℤ b)
around i b h = omega int_laws

-- An update with limits that are not negative returns a premium within the market's clamp and a
-- rate within its maximum.
pub update_market-rates :
    (e : FundingEngine) (m : ℕ) (index mid elapsed : ℤ)
    → let c = (ensure_market e m).config in
      let shown = (update_market e m index mid elapsed).1 in
      pos 0 ≤ℤ c.clamp_basis_points
      → pos 0 ≤ℤ c.max_rate_basis_points
      → ((neg c.clamp_basis_points ≤ℤ shown.premium_rate)
          × (shown.premium_rate ≤ℤ c.clamp_basis_points))
        × ((neg c.max_rate_basis_points ≤ℤ shown.funding_rate)
            × (shown.funding_rate ≤ℤ c.max_rate_basis_points))
unfolding update_market premium_of funding_rate_of
update_market-rates e m index mid elapsed h k =
    (clamp-bounds _ _ _ (neg_le _ h), clamp-bounds _ _ _ (neg_le _ k))

updated_self :
    (e : FundingEngine) (m : ℕ) (index mid elapsed : ℤ)
    → (update_market e m index mid elapsed).0 m
      ≡ some (updated (ensure_market e m) index mid elapsed)
unfolding update_market
updated_self e m index mid elapsed = insert_self m (updated (ensure_market e m) index mid elapsed) e

marked_self :
    (e : FundingEngine) (m : ℕ) (index mid elapsed : ℤ)
    → mark_price (update_market e m index mid elapsed).0 m
      ≡ marked (ensure_market e m).config index mid
unfolding mark_price updated
marked_self e m index mid elapsed = ap mark_in (updated_self e m index mid elapsed)

marked_bounds :
    (i b mid : ℤ)
    → pos 0 ≤ℤ b
    → (i -ℤ b ≤ℤ clamp mid (i -ℤ b) (i +ℤ b)) × (clamp mid (i -ℤ b) (i +ℤ b) ≤ℤ i +ℤ b)
marked_bounds i b mid h = clamp-bounds mid (i -ℤ b) (i +ℤ b) (around i b h)

-- An update whose band is not negative stores a mark price within the band around the index, and
-- adds the returned rate times the elapsed time to the accumulated funding.
pub update_market-mark :
    (e : FundingEngine) (m : ℕ) (index mid elapsed : ℤ)
    → let band = band_of (ensure_market e m).config index in
      let after = update_market e m index mid elapsed in
      pos 0 ≤ℤ band
      → ((index -ℤ band ≤ℤ mark_price after.0 m) × (mark_price after.0 m ≤ℤ index +ℤ band))
        × (accumulated_funding after.0 m
            ≡ (ensure_market e m).funding_accumulator +ℤ after.1.funding_rate *ℤ elapsed)
unfolding marked accumulated_funding updated update_market
update_market-mark e m index mid elapsed h = (
  subst
      (λ x.
        (index -ℤ band_of (ensure_market e m).config index ≤ℤ x)
        × (x ≤ℤ index +ℤ band_of (ensure_market e m).config index))
      (sym (marked_self e m index mid elapsed))
      (marked_bounds index (band_of (ensure_market e m).config index) mid h),
  ap funding_in (updated_self e m index mid elapsed),
)
