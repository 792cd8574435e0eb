-- ===== src/Risk/Checks.antt =====
-- The check of an order against the account that its fill leaves.
use mmperp.Prelude.{
  ℕ, ◌≡◌, ◌⊎◌, inl, inr, refl, sym, ap, ◌∙◌, subst, Bool, true, false, Bool-cases, Option, none,
  some, map, arith, lookup, lookup-assign, assign, insert, insert_self, insert_ne, ℕ_discrete,
}
use mmperp.Prelude.Int.{ℤ, pos, ◌+ℤ◌, ◌≤ℤ◌, ◌<ℤ◌, abs, eqb_ℤ}
use mmperp.Risk.Equity.{gain_by, positions_equity}
use mmperp.Risk.Margins.{SameMargins, positions_same}
use mmperp.Risk.Types.{
  accepted, rejected_insufficient_margin, rejected_reduce_only, RiskResult, AccountState,
  MarginSummary, MarketState, RiskEngine, FillContext, OrderIntent, PositionState,
}
use mmperp.Risk.Engine.{
  find_account, find_market, or_flat, signed_qty, apply_fill, or_new_market, or_new_account,
  fill_account, ensure_market, adds_to, add_to_position, close_position,
}
use mmperp.Risk.Positions.{apply_fill-held_in}
use mmperp.Risk.Summary.{
  exposure_of, with_delta, add_exposures, account_summary, account_summary_with_delta, add_delta,
  exposures_of, opening_equity, held_in, fill_of, judge, evaluate_in, evaluate_order,
}

-- A fill assigns a position with the quantity changed.
fill_account_position :
    (a : AccountState) (m : ℕ) (signed price size : ℤ)
    → (p : PositionState) × (p.quantity ≡ (or_flat (lookup m a.positions)).quantity +ℤ signed)
      × ((fill_account a m signed price size).positions ≡ assign m p a.positions)
unfolding fill_account add_to_position close_position
fill_account_position a m signed price size =
    let p = or_flat (lookup m a.positions) in
    elim (Bool-cases (adds_to p.quantity signed)) [
      | inl adds ↦ (add_to_position p signed price, refl, rw adds refl)
      | inr closes ↦ (close_position p signed price, refl, rw closes refl)
    ]

some_inj : (s t : MarketState) → some s ≡ some t → s ≡ t
some_inj s t h = cc

markets_apply_fill :
    (e : RiskEngine) (f : FillContext) (s : MarketState)
    → find_market e f.market ≡ some s
    → (j : ℕ) → find_market (apply_fill e f) j ≡ find_market e j
unfolding find_market apply_fill
markets_apply_fill e f s found j = elim (ℕ_discrete j f.market) [
  | yes e₁ ↦
      ap (insert f.market (or_new_market (e.markets f.market)) e.markets) e₁
      ∙ insert_self f.market (or_new_market (e.markets f.market)) e.markets
      ∙ ap (λ o. some (or_new_market o)) found
      ∙ sym found
      ∙ ap e.markets (sym e₁)
  | no ne ↦ insert_ne f.market j (or_new_market (e.markets f.market)) e.markets ne
]

account_apply_fill :
    (e : RiskEngine) (f : FillContext)
    → find_account (apply_fill e f) f.account
      ≡ some (
          fill_account
            (or_new_account (find_account e f.account))
            f.market
            (signed_qty f.side f.quantity)
            f.price
            (ensure_market e f.market).config.contract_size)
unfolding find_account apply_fill
account_apply_fill e f =
    let a = or_new_account (lookup f.account e.accounts) in
    let size = (ensure_market e f.market).config.contract_size in
    ground (
      arith,
      lookup-assign f.account f.account
          (fill_account a f.market (signed_qty f.side f.quantity) f.price size) e.accounts,
    )

exposures-or_new_account :
    (o : Option AccountState) → exposures_of o ≡ map exposure_of (or_new_account o).positions
unfolding exposures_of
exposures-or_new_account none = refl
exposures-or_new_account (some a) = refl

-- The margins that the check computes for a fill of the order at its limit are those of the account
-- after a fill at any price.
margins_apply_fill :
    (e : RiskEngine) (d : FillContext) (price : ℤ) (s : MarketState)
    → find_market e d.market ≡ some s
    → eqb_ℤ s.mark_price (pos 0) ≡ false
    → SameMargins
        (account_summary_with_delta e d.account (some d))
        (account_summary (apply_fill e (record d { price = price })) d.account)
unfolding account_summary account_summary_with_delta add_delta
margins_apply_fill e d price s found marked =
    let a = or_new_account (find_account e d.account) in
    let f = record d { price = price } in
    let e' = apply_fill e f in
    let signed = signed_qty d.side d.quantity in
    let size = (ensure_market e d.market).config.contract_size in
    let (p, q, assigned) = fill_account_position a d.market signed price size in
    let from : ℤ → MarginSummary =
      λ t. record { equity = t; initial_margin = pos 0; maintenance_margin = pos 0 } in
    let after = find_account e' d.account in
    let held : exposures_of after ≡ map exposure_of (assign d.market p a.positions) =
      ap exposures_of (account_apply_fill e f)
      ∙ exposures-or_new_account (some (fill_account a d.market signed price size))
      ∙ ap (map exposure_of) assigned in
    subst
      (λ xs.
        SameMargins
          (add_exposures e (some d) (with_delta d xs)
            (from (opening_equity (find_account e d.account))))
          (add_exposures e' none (exposures_of after) (from (opening_equity after))))
      (sym (exposures-or_new_account (find_account e d.account)))
      (subst
        (λ ys.
          SameMargins
            (add_exposures e (some d) (with_delta d (map exposure_of a.positions))
              (from (opening_equity (find_account e d.account))))
            (add_exposures e' none ys (from (opening_equity after))))
        (sym held)
        (positions_same e e' d
          (λ t g.
            ap (λ (m : MarketState). eqb_ℤ m.mark_price (pos 0)) (some_inj t s (sym g ∙ found))
            ∙ marked)
          (markets_apply_fill e f s found) a.positions p _ _ q (refl, refl)))

equity_with_delta :
    (e : RiskEngine) (d : FillContext) (s : MarketState)
    → find_market e d.market ≡ some s
    → eqb_ℤ s.mark_price (pos 0) ≡ false
    → (account_summary_with_delta e d.account (some d)).equity
      ≡ (account_summary e d.account).equity
        +ℤ gain_by s
            (signed_qty d.side d.quantity)
            (lookup d.market (or_new_account (find_account e d.account)).positions)
unfolding account_summary account_summary_with_delta add_delta
equity_with_delta e d s found marked =
    let o = find_account e d.account in
    let start : MarginSummary = record {
      equity = opening_equity o;
      initial_margin = pos 0;
      maintenance_margin = pos 0;
    } in
    let ps = (or_new_account o).positions in
    subst
      (λ xs.
        (add_exposures e (some d) (with_delta d xs) start).equity
        ≡ (add_exposures e none xs start).equity
          +ℤ gain_by s (signed_qty d.side d.quantity) (lookup d.market ps))
      (sym (exposures-or_new_account o)) (positions_equity e d s found marked ps start start refl)

-- The answer `r` to the order: `m` are the margins of the account with the order filled, `equity` is
-- the equity it is to be judged by, and `held` and `held'` are what the account holds in the order's
-- market before and after.
abbrev pub IsAnswer : Bool → RiskResult → MarginSummary → ℤ → ℤ → ℤ → Type 0
IsAnswer reduce_only r m equity held held' =
    ((r.decision ≡ rejected_reduce_only) × (reduce_only ≡ true) × (abs held <ℤ abs held'))
    ⊎ (((reduce_only ≡ false) ⊎ (abs held' ≤ℤ abs held))
        × (r.initial_margin_required ≡ m.initial_margin)
        × (r.maintenance_margin_required ≡ m.maintenance_margin)
        × (r.equity ≡ equity)
        × (((r.decision ≡ accepted) × (m.initial_margin ≤ℤ equity))
            ⊎ ((r.decision ≡ rejected_insufficient_margin) × (equity <ℤ m.initial_margin))))

evaluate_in-IsAnswer :
    (e : RiskEngine) (o : OrderIntent) (s : MarketState) (m : MarginSummary) (equity held' : ℤ)
    → SameMargins (account_summary_with_delta e o.account (some (fill_of o))) m
    → (account_summary_with_delta e o.account (some (fill_of o))).equity ≡ equity
    → held' ≡ held_in (find_account e o.account) o.market +ℤ signed_qty o.side o.quantity
    → IsAnswer o.reduce_only
        (evaluate_in e o (some s))
        m
        equity
        (held_in (find_account e o.account) o.market)
        held'
unfolding evaluate_in judge
evaluate_in-IsAnswer e o s m equity held' (i, t) q h = rw (h, sym i, sym t, sym q) (ground arith)

held_apply_fill :
    (e : RiskEngine) (f : FillContext)
    → held_in (find_account (apply_fill e f) f.account) f.market
      ≡ held_in (find_account e f.account) f.market +ℤ signed_qty f.side f.quantity
held_apply_fill e f = ground (arith, apply_fill-held_in e f f.account f.market)

-- The check of an order in a market with a mark foresees the fill of the order, at whatever price. An
-- order that may only reduce is refused as such exactly if the fill would enlarge the position. Any
-- other order is answered with the initial and the maintenance margin that the account has once it is
-- filled, and with the equity that the account has now and what its position in that market gains at
-- the mark from the change of quantity, by its old entry price. It is accepted exactly if this equity
-- covers that initial margin, and else refused for insufficient margin.
pub evaluate_order-apply_fill :
    (e : RiskEngine) (o : OrderIntent) (s : MarketState) (price : ℤ)
    → find_market e o.market ≡ some s
    → eqb_ℤ s.mark_price (pos 0) ≡ false
    → let e' = apply_fill e (record (fill_of o) { price = price }) in
      let p = lookup o.market (or_new_account (find_account e o.account)).positions in
      IsAnswer o.reduce_only
        (evaluate_order e o)
        (account_summary e' o.account)
        ((account_summary e o.account).equity +ℤ gain_by s (signed_qty o.side o.quantity) p)
        (held_in (find_account e o.account) o.market)
        (held_in (find_account e' o.account) o.market)
unfolding evaluate_order
evaluate_order-apply_fill e o s price found marked =
    let f = record (fill_of o) { price = price } in
    rw found (
      evaluate_in-IsAnswer e o s (account_summary (apply_fill e f) o.account) _
        (held_in (find_account (apply_fill e f) o.account) o.market)
        (margins_apply_fill e (fill_of o) price s found marked)
        (equity_with_delta e (fill_of o) s found marked) (held_apply_fill e f))
