-- ===== src/Risk/Credits.antt =====
-- risk_engine.cpp, `credit_collateral`: what it does to the account's margins.
use mmperp.Prelude.{
  ℕ, ◌≡◌, inl, inr, refl, ap, ◌∙◌, Bool, true, false, Bool-cases, Option, none, some, List, [], ◌∷◌,
  arith, lookup, lookup-assign, if◌then◌else◌,
}
use mmperp.Prelude.Int.{ℤ, pos, ◌+ℤ◌, eqb_ℤ, int_laws}
use mmperp.Risk.Types.{AccountState, MarginSummary, MarketState, RiskEngine, FillContext}
use mmperp.Risk.Engine.{find_account, find_market, or_new_account, credit_collateral}
use mmperp.Risk.Summary.{
  add_delta, Exposure, account_summary, account_summary_with_delta, add_exposures, add_exposure,
  add_in_market, add_valued, valuation, exposures_of, opening_equity, unrealized_at,
}

abbrev pub raised : ℤ → MarginSummary → MarginSummary
raised amount m = record m { equity = m.equity +ℤ amount }

swapped : (a b c : ℤ) → a +ℤ b +ℤ c ≡ a +ℤ c +ℤ b
swapped a b c = omega int_laws

raised-if :
    (b : Bool) (a u t : ℤ) → (if b then a +ℤ t +ℤ u else a +ℤ t) ≡ (if b then a +ℤ u else a) +ℤ t
raised-if true a u t = swapped a t u
raised-if false a u t = refl

add_valued-raised :
    (mark : ℤ) (s : MarketState) (x : Exposure) (m : MarginSummary) (t : ℤ)
    → add_valued mark s x (raised t m) ≡ raised t (add_valued mark s x m)
unfolding add_valued
add_valued-raised mark s x m t =
    ap (λ q. record (add_valued mark s x m) { equity = q })
      (raised-if x.existed m.equity (unrealized_at mark s x) t)

add_in_market-raised :
    (delta : Option FillContext) (o : Option MarketState) (x : Exposure) (m : MarginSummary) (t : ℤ)
    → add_in_market delta o x (raised t m) ≡ raised t (add_in_market delta o x m)
unfolding add_in_market
add_in_market-raised delta none x m t = refl
add_in_market-raised delta (some s) x m t = add_valued-raised (valuation delta s x) s x m t

add_exposure-raised :
    (e e' : RiskEngine) (delta : Option FillContext) (x : Exposure) (m : MarginSummary) (t : ℤ)
    → e'.markets ≡ e.markets
    → add_exposure e' delta x (raised t m) ≡ raised t (add_exposure e delta x m)
unfolding add_exposure find_market
add_exposure-raised e e' delta x m t same = elim (Bool-cases (eqb_ℤ x.quantity (pos 0))) [
  | inl flat ↦ rw flat refl
  | inr held ↦ rw (held, same) (add_in_market-raised delta (e.markets x.market) x m t)
]

add_exposures-raised :
    (e e' : RiskEngine) (delta : Option FillContext) (xs : List Exposure) (m : MarginSummary)
    (t : ℤ)
    → e'.markets ≡ e.markets
    → add_exposures e' delta xs (raised t m) ≡ raised t (add_exposures e delta xs m)
unfolding add_exposures
add_exposures-raised e e' delta [] m t same = refl
add_exposures-raised e e' delta (x ∷ xs) m t same =
    ap (add_exposures e' delta xs) (add_exposure-raised e e' delta x m t same)
    ∙ add_exposures-raised e e' delta xs (add_exposure e delta x m) t same

-- An account with more collateral.
abbrev credited : AccountState → ℤ → AccountState
credited a t = record a { collateral = a.collateral +ℤ t }

exposures_credited :
    (o : Option AccountState) (t : ℤ)
    → exposures_of (some (credited (or_new_account o) t)) ≡ exposures_of o
unfolding exposures_of
exposures_credited none t = refl
exposures_credited (some a) t = refl

equity_credited :
    (o : Option AccountState) (t : ℤ)
    → opening_equity (some (credited (or_new_account o) t)) ≡ opening_equity o +ℤ t
unfolding opening_equity
equity_credited none t = omega int_laws
equity_credited (some a) t = swapped a.collateral t a.realized_pnl

found_credited :
    (e : RiskEngine) (k : ℕ) (t : ℤ)
    → find_account (credit_collateral e k t) k
      ≡ some (credited (or_new_account (find_account e k)) t)
unfolding find_account credit_collateral
found_credited e k t =
    ground (arith, lookup-assign k k (credited (or_new_account (lookup k e.accounts)) t) e.accounts)

-- Collateral raises the equity by its amount, and changes no margin.
pub account_summary-credit_collateral :
    (e : RiskEngine) (k : ℕ) (t : ℤ)
    → account_summary (credit_collateral e k t) k ≡ raised t (account_summary e k)
unfolding account_summary account_summary_with_delta credit_collateral add_delta exposures_of
account_summary-credit_collateral e k t =
    let o = find_account e k in
    let e' = credit_collateral e k t in
    let from : List Exposure → ℤ → MarginSummary = λ xs q.
      add_exposures e' none xs
        record { equity = q; initial_margin = pos 0; maintenance_margin = pos 0 } in
    ap (λ x. from (exposures_of x) (opening_equity x)) (found_credited e k t)
    ∙ ap (λ xs. from xs (opening_equity (some (credited (or_new_account o) t))))
        (exposures_credited o t)
    ∙ ap (from (exposures_of o)) (equity_credited o t)
    ∙ add_exposures-raised e e' none (exposures_of o)
        record { equity = opening_equity o; initial_margin = pos 0; maintenance_margin = pos 0 } t
        refl
