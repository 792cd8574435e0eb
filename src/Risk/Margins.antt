-- ===== src/Risk/Margins.antt =====
-- The margins that the check of an order computes, and those of the account with the order filled.
use mmperp.Prelude.{
  ℕ, ◌≡◌, ◌≢◌, ◌⊎◌, inl, inr, refl, sym, ap, ◌∙◌, subst, true, false, Bool-cases, Option, none,
  some, List, [], ◌∷◌, map, arith, Assoc, lookup, assign, ◌==◌, ==_iff,
}
use mmperp.Prelude.Int.{ℤ, pos, ◌+ℤ◌, eqb_ℤ, int_laws}
use mmperp.Risk.Types.{MarginSummary, MarketState, RiskEngine, FillContext, PositionState}
use mmperp.Risk.Engine.{find_market, or_flat, signed_qty}
use mmperp.Risk.Summary.{
  exposure_of, with_delta, Exposure, add_exposures, add_exposure, add_in_market, add_valued,
  notional_at, valuation,
}

-- The two summaries have the same margins.
abbrev pub SameMargins : MarginSummary → MarginSummary → Type 0
SameMargins m n =
    (m.initial_margin ≡ n.initial_margin) × (m.maintenance_margin ≡ n.maintenance_margin)

zero_plus : (t : ℤ) → pos 0 +ℤ t ≡ t
zero_plus t = omega int_laws

valued_same :
    (p p' : ℤ) (s : MarketState) (x y : Exposure) (m n : MarginSummary)
    → x.quantity ≡ y.quantity
    → p ≡ p'
    → SameMargins m n
    → SameMargins (add_valued p s x m) (add_valued p' s y n)
unfolding add_valued notional_at
valued_same p p' s x y m n q e (i, t) = (rw (q, e, i) refl, rw (q, e, t) refl)

-- The order is `d`, and the market of the order has a mark.
module _ (e e' : RiskEngine) (d : FillContext)
    (marked : (s : MarketState)
      → find_market e d.market ≡ some s
      → eqb_ℤ s.mark_price (pos 0) ≡ false)
    (same : (j : ℕ) → find_market e' j ≡ find_market e j) where
  -- An exposure before and after: away from the order's market also the entry price is the same.
  abbrev SameExposure : Exposure → Exposure → Type 0
  SameExposure x y =
      (x.market ≡ y.market)
      × (x.quantity ≡ y.quantity)
      × ((x.market ≡ d.market) ⊎ (x.entry_price ≡ y.entry_price))

  pub valuation_same :
      (s : MarketState) (x y : Exposure)
      → find_market e x.market ≡ some s
      → SameExposure x y
      → valuation (some d) s x ≡ valuation none s y
  unfolding valuation
  valuation_same s x y f (k, q, c) = elim (Bool-cases (eqb_ℤ s.mark_price (pos 0))) [
    | inr has ↦ rw has refl
    | inl unmarked ↦
        let away : d.market ≢ x.market =
          λ at. apart (sym unmarked ∙ marked s (ap (find_market e) at ∙ f)) in
        let entry : x.entry_price ≡ y.entry_price = elim c [
          | inl at ↦ absurd (away (sym at))
          | inr g ↦ g
        ] in
        let other : (d.market == x.market) ≡ false = ground arith in rw (unmarked, other) entry
  ]
    where
      apart : true ≢ false
      apart h = cc

  in_market_same :
      (o : Option MarketState) (x y : Exposure) (m n : MarginSummary)
      → find_market e x.market ≡ o
      → SameExposure x y
      → SameMargins m n
      → SameMargins (add_in_market (some d) o x m) (add_in_market none o y n)
  unfolding add_in_market
  in_market_same none x y m n f g h = h
  in_market_same (some s) x y m n f g h = valued_same _ _ s x y m n g.1 (valuation_same s x y f g) h

  exposure_same :
      (x y : Exposure) (m n : MarginSummary)
      → SameExposure x y
      → SameMargins m n
      → SameMargins (add_exposure e (some d) x m) (add_exposure e' none y n)
  unfolding add_exposure
  exposure_same x y m n g h = elim (Bool-cases (eqb_ℤ x.quantity (pos 0))) [
    | inl flat ↦ rw (flat, ap (λ q. eqb_ℤ q (pos 0)) (sym g.1) ∙ flat) h
    | inr held ↦
        rw (held, ap (λ q. eqb_ℤ q (pos 0)) (sym g.1) ∙ held)
          (subst
            (λ o.
              SameMargins (add_in_market (some d) (find_market e x.market) x m)
                (add_in_market none o y n))
            (ap (find_market e) g.0 ∙ sym (same y.market))
            (in_market_same (find_market e x.market) x y m n refl g h))
  ]

  exposures_same :
      (xs : List Exposure) (m n : MarginSummary)
      → SameMargins m n
      → SameMargins (add_exposures e (some d) xs m) (add_exposures e' none xs n)
  unfolding add_exposures
  exposures_same [] m n h = h
  exposures_same (x ∷ xs) m n h =
      exposures_same xs (add_exposure e (some d) x m) (add_exposure e' none x n)
        (exposure_same x x m n (refl, refl, inr refl) h)

  -- The position in the order's market changes to `p`.
  pub positions_same :
      (ps : Assoc PositionState) (p : PositionState) (m n : MarginSummary)
      → p.quantity ≡ (or_flat (lookup d.market ps)).quantity +ℤ signed_qty d.side d.quantity
      → SameMargins m n
      → SameMargins
          (add_exposures e (some d) (with_delta d (map exposure_of ps)) m)
          (add_exposures e' none (map exposure_of (assign d.market p ps)) n)
  unfolding with_delta lookup assign add_exposures
  positions_same [] p m n q h =
      exposure_same _ _ m n (refl, sym (q ∙ zero_plus (signed_qty d.side d.quantity)), inl refl) h
  positions_same ((j, o) ∷ ps) p m n q h = elim (Bool-cases (j == d.market)) [
    | inl here ↦
        let q' : p.quantity ≡ o.quantity +ℤ signed_qty d.side d.quantity =
          ground (arith, q, here) in
        let at : j ≡ d.market = (==_iff j d.market).0 here in
        rw here
          (exposures_same (map exposure_of ps) _ _ (exposure_same _ _ m n (at, sym q', inl at) h))
    | inr away ↦
        let q' : p.quantity
            ≡ (or_flat (lookup d.market ps)).quantity +ℤ signed_qty d.side d.quantity =
          ground (arith, q, away) in
        rw away (
          positions_same ps p _ _ q'
            (exposure_same (exposure_of (j, o)) (exposure_of (j, o)) m n (refl, refl, inr refl) h))
  ]
