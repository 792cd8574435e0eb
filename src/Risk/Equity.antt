-- ===== src/Risk/Equity.antt =====
-- The equity that the check of an order starts from.
use mmperp.Prelude.{
  ℕ, ◌≡◌, inl, inr, refl, sym, ap, ◌∙◌, Bool, true, false, Bool-cases, Option, none, some, List, [],
  ◌∷◌, map, Assoc, lookup, ◌==◌, ==_iff, if◌then◌else◌,
}
use mmperp.Prelude.Int.{ℤ, pos, ◌+ℤ◌, ◌-ℤ◌, ◌*ℤ◌, eqb_ℤ, int_laws}
use mmperp.Risk.Margins.{valuation_same}
use mmperp.Risk.Types.{MarginSummary, MarketState, RiskEngine, FillContext, PositionState}
use mmperp.Risk.Engine.{find_market, signed_qty}
use mmperp.Risk.Summary.{
  exposure_of, with_delta, Exposure, add_exposures, add_exposure, add_in_market, add_valued,
  unrealized_at, valuation,
}

-- What a position of this quantity and entry price has gained at the mark.
abbrev pub gain : MarketState → ℤ → ℤ → ℤ
gain s quantity entry_price =
    if eqb_ℤ quantity (pos 0)
    then pos 0
    else quantity *ℤ (s.mark_price -ℤ entry_price) *ℤ s.config.contract_size

-- What a position gains at the mark if its quantity changes and its entry price does not.
abbrev pub gain_by : MarketState → ℤ → Option PositionState → ℤ
gain_by s signed none = pos 0
gain_by s signed (some p) =
    gain s (p.quantity +ℤ signed) p.entry_price -ℤ gain s p.quantity p.entry_price

moved : (a b t : ℤ) → a +ℤ t +ℤ b ≡ a +ℤ b +ℤ t
moved a b t = omega int_laws

valued_equity :
    (b : Bool) (a c u t : ℤ)
    → a ≡ c +ℤ t
    → (if b then a +ℤ u else a) ≡ (if b then c +ℤ u else c) +ℤ t
valued_equity true a c u t h = ap (λ x. x +ℤ u) h ∙ moved c u t
valued_equity false a c u t h = h

plus_zero : (a : ℤ) → a +ℤ pos 0 ≡ a
plus_zero a = omega int_laws

replaced : (a b c d : ℤ) → a ≡ b → a +ℤ c ≡ b +ℤ d +ℤ (c -ℤ d)
replaced a b c d h = rw h (shift b c d)
  where
    shift : (x y z : ℤ) → x +ℤ y ≡ x +ℤ z +ℤ (y -ℤ z)
    shift x y z = omega int_laws

-- The order is `d`, in a market `s` that has a mark.
module _ (e : RiskEngine) (d : FillContext) (s : MarketState)
    (found : find_market e d.market ≡ some s) (marked : eqb_ℤ s.mark_price (pos 0) ≡ false) where
  some_inj : (t : MarketState) → some t ≡ some s → t ≡ s
  some_inj t h = cc

  marked' : (t : MarketState) → find_market e d.market ≡ some t → eqb_ℤ t.mark_price (pos 0) ≡ false
  marked' t g =
      ap (λ (m : MarketState). eqb_ℤ m.mark_price (pos 0)) (some_inj t (sym g ∙ found)) ∙ marked

  valuation_marked :
      (delta : Option FillContext) (x : Exposure) → valuation delta s x ≡ s.mark_price
  unfolding valuation
  valuation_marked delta x = rw marked refl

  in_market_equity :
      (o : Option MarketState) (x : Exposure) (m n : MarginSummary) (t : ℤ)
      → find_market e x.market ≡ o
      → m.equity ≡ n.equity +ℤ t
      → (add_in_market (some d) o x m).equity ≡ (add_in_market none o x n).equity +ℤ t
  unfolding add_in_market add_valued
  in_market_equity none x m n t f h = h
  in_market_equity (some z) x m n t f h =
      rw (valuation_same e e d marked' (λ j. refl) z x x f (refl, refl, inr refl))
        (valued_equity x.existed m.equity n.equity (unrealized_at (valuation none z x) z x) t h)

  exposures_equity :
      (xs : List Exposure) (m n : MarginSummary) (t : ℤ)
      → m.equity ≡ n.equity +ℤ t
      → (add_exposures e (some d) xs m).equity ≡ (add_exposures e none xs n).equity +ℤ t
  unfolding add_exposures add_exposure
  exposures_equity [] m n t h = h
  exposures_equity (x ∷ xs) m n t h =
      exposures_equity xs (add_exposure e (some d) x m) (add_exposure e none x n) t
        (elim (Bool-cases (eqb_ℤ x.quantity (pos 0))) [
          | inl flat ↦ rw flat h
          | inr held ↦ rw held (in_market_equity (find_market e x.market) x m n t refl h)
        ])

  -- A position in the order's market.
  abbrev own : ℤ → ℤ → Exposure
  own quantity entry_price = record {
    market = d.market;
    quantity = quantity;
    entry_price = entry_price;
    existed = true;
  }

  gained :
      (delta : Option FillContext) (q p : ℤ) (m : MarginSummary)
      → (add_exposure e delta (own q p) m).equity ≡ m.equity +ℤ gain s q p
  unfolding add_exposure add_in_market add_valued unrealized_at
  gained delta q p m = elim (Bool-cases (eqb_ℤ q (pos 0))) [
    | inl flat ↦ rw flat (sym (plus_zero m.equity))
    | inr held ↦ rw (held, found, valuation_marked delta (own q p)) refl
  ]

  opened :
      (q p : ℤ) (m : MarginSummary)
      → (add_exposure e (some d) (record (own q p) { existed = false }) m).equity ≡ m.equity
  unfolding add_exposure add_in_market add_valued
  opened q p m = elim (Bool-cases (eqb_ℤ q (pos 0))) [
    | inl flat ↦ rw flat refl
    | inr held ↦ rw (held, found) refl
  ]

  -- The equity that the check computes is the present one and what the position gains by the order.
  pub positions_equity :
      (ps : Assoc PositionState) (m n : MarginSummary)
      → m.equity ≡ n.equity
      → (add_exposures e (some d) (with_delta d (map exposure_of ps)) m).equity
        ≡ (add_exposures e none (map exposure_of ps) n).equity
          +ℤ gain_by s (signed_qty d.side d.quantity) (lookup d.market ps)
  unfolding with_delta lookup add_exposures
  positions_equity [] m n h =
      opened (signed_qty d.side d.quantity) d.price m ∙ h ∙ sym (plus_zero n.equity)
  positions_equity ((j, p) ∷ ps) m n h = elim (Bool-cases (j == d.market)) [
    | inl here ↦
        let signed = signed_qty d.side d.quantity in
        rw here (
          exposures_equity (map exposure_of ps) _ _ (gain_by s signed (some p))
            (head j p signed m n ((==_iff j d.market).0 here) h))
    | inr away ↦ rw away (positions_equity ps _ _ (step (exposure_of (j, p)) m n h))
  ]
    where
      head :
          (k : ℕ) (o : PositionState) (signed : ℤ) (a b : MarginSummary)
          → k ≡ d.market
          → a.equity ≡ b.equity
          → (add_exposure e
              (some d)
              (record (exposure_of (k, o)) { quantity = o.quantity +ℤ signed })
              a).equity
            ≡ (add_exposure e none (exposure_of (k, o)) b).equity +ℤ gain_by s signed (some o)
      head k o signed a b at g = rw at (
          gained (some d) (o.quantity +ℤ signed) o.entry_price a
          ∙ replaced a.equity b.equity (gain s (o.quantity +ℤ signed) o.entry_price)
              (gain s o.quantity o.entry_price) g
          ∙ ap (λ z. z +ℤ gain_by s signed (some o)) (sym (gained none o.quantity o.entry_price b)))

      step :
          (x : Exposure) (a b : MarginSummary)
          → a.equity ≡ b.equity
          → (add_exposure e (some d) x a).equity ≡ (add_exposure e none x b).equity
      step x a b g =
          exposures_equity (x ∷ []) a b (pos 0) (g ∙ sym (plus_zero b.equity))
          ∙ plus_zero (add_exposure e none x b).equity
