-- ===== src/Risk/Cures.antt =====
-- liquidation_engine.cpp: what the deficit of the liquidation check is good for.
use mmperp.Prelude.{
  ℕ, ◌≡◌, ◌≢◌, ◌⊎◌, ◌↔◌, inl, inr, refl, sym, ◌∙◌, subst, Bool, true, false, Bool-cases, arith,
  if◌then◌else◌,
}
use mmperp.Prelude.Int.{ℤ, pos, ◌+ℤ◌, ◌-ℤ◌, ◌≤ℤ◌, ◌<ℤ◌, eqb_ℤ, ltb_ℤ, int_laws}
use mmperp.Risk.Types.{MarginSummary, RiskEngine}
use mmperp.Risk.Engine.{credit_collateral}
use mmperp.Risk.Summary.{account_summary}
use mmperp.Risk.Liquidation.{Result, healthy, needs_partial, needs_full, classify, evaluate}
use mmperp.Risk.Credits.{raised, account_summary-credit_collateral}
use mmperp.Risk.Verdicts.{IsVerdict, classify-IsVerdict}

-- What the amount does to the verdict: `after` is the status with it.
abbrev pub IsCured : Result → Result → ℤ → Type 0
IsCured r after amount =
    ((r.status ≡ healthy) × (after.status ≡ healthy))
    ⊎ (((r.status ≡ needs_full) × ((after.status ≡ needs_full) ↔ (amount <ℤ r.deficit)))
        ⊎ ((r.status ≡ needs_partial) × ((after.status ≡ healthy) ↔ (r.deficit ≤ℤ amount))))

test_lt : (a b : ℤ) → ltb_ℤ a b ≡ true → a <ℤ b
test_lt a b h = ground arith

test_le : (a b : ℤ) → ltb_ℤ a b ≡ false → b ≤ℤ a
test_le a b h = ground arith

lt_test : (a b : ℤ) → a <ℤ b → ltb_ℤ a b ≡ true
lt_test a b h = ground arith

le_test : (a b : ℤ) → b ≤ℤ a → ltb_ℤ a b ≡ false
le_test a b h = ground arith

gap_lt : (q a t : ℤ) → q +ℤ a <ℤ t → a <ℤ t -ℤ q
gap_lt q a t h = omega int_laws

lt_gap : (q a t : ℤ) → a <ℤ t -ℤ q → q +ℤ a <ℤ t
lt_gap q a t h = omega int_laws

gap_le : (q a t : ℤ) → t ≤ℤ q +ℤ a → t -ℤ q ≤ℤ a
gap_le q a t h = omega int_laws

le_gap : (q a t : ℤ) → t -ℤ q ≤ℤ a → t ≤ℤ q +ℤ a
le_gap q a t h = omega int_laws

grown : (q a t : ℤ) → pos 0 ≤ℤ a → t ≤ℤ q → t ≤ℤ q +ℤ a
grown q a t h k = omega int_laws

not_full : (b : Bool) → (if b then needs_partial else healthy) ≢ needs_full
not_full true h = cc
not_full false h = cc

partial≢healthy : needs_partial ≢ healthy
partial≢healthy h = cc

status-if :
    (b : Bool) (x y : Result) → (if b then x else y).status ≡ (if b then x.status else y.status)
status-if true x y = refl
status-if false x y = refl

module _ (m : MarginSummary) (amount : ℤ) (positive : pos 0 ≤ℤ amount)
    (needed : eqb_ℤ m.maintenance_margin (pos 0) ≡ false) where
  abbrev new_equity : ℤ
  new_equity = m.equity +ℤ amount

  full-IsCured :
      ltb_ℤ m.equity m.maintenance_margin ≡ true
      → IsCured (classify m) (classify (raised amount m)) amount
  unfolding classify
  full-IsCured full = elim (Bool-cases (ltb_ℤ new_equity m.maintenance_margin)) [
    | inl still ↦
        rw (needed, full, still)
          (inr (
            inl (
              refl,
              (
                λ _.
                    gap_lt m.equity amount m.maintenance_margin
                      (test_lt new_equity m.maintenance_margin still),
                λ _. refl,
              ),
            )))
    | inr over ↦
        rw (needed, full, over)
          (inr (
            inl (
              refl,
              (
                λ h. absurd (
                    not_full (ltb_ℤ new_equity m.initial_margin)
                      (sym (status-if (ltb_ℤ new_equity m.initial_margin) _ _) ∙ h)),
                λ h. absurd (
                    apart (
                      sym (
                        lt_test new_equity m.maintenance_margin
                          (lt_gap m.equity amount m.maintenance_margin h))
                      ∙ over)),
              ),
            )))
  ]
    where
      apart : true ≢ false
      apart h = cc

  rest-IsCured :
      ltb_ℤ m.equity m.maintenance_margin ≡ false
      → IsCured (classify m) (classify (raised amount m)) amount
  unfolding classify
  rest-IsCured safe =
      let safe' : ltb_ℤ new_equity m.maintenance_margin ≡ false =
        le_test new_equity m.maintenance_margin (
          grown m.equity amount m.maintenance_margin positive
            (test_le m.equity m.maintenance_margin safe)) in
      elim (Bool-cases (ltb_ℤ m.equity m.initial_margin)) [
        | inr well ↦
            let well' : ltb_ℤ new_equity m.initial_margin ≡ false =
              le_test new_equity m.initial_margin (
                grown m.equity amount m.initial_margin positive
                  (test_le m.equity m.initial_margin well)) in
            rw (needed, safe, safe', well, well') (inl (refl, refl))
        | inl part ↦ elim (Bool-cases (ltb_ℤ new_equity m.initial_margin)) [
          | inl still ↦
              rw (needed, safe, safe', part, still)
                (inr (
                  inr (
                    refl,
                    (
                      λ h. absurd (partial≢healthy h),
                      λ h. absurd (
                          apart (
                            sym still
                            ∙ le_test new_equity m.initial_margin
                                (le_gap m.equity amount m.initial_margin h))),
                    ),
                  )))
          | inr over ↦
              rw (needed, safe, safe', part, over)
                (inr (
                  inr (
                    refl,
                    (
                      λ _.
                          gap_le m.equity amount m.initial_margin
                            (test_le new_equity m.initial_margin over),
                      λ _. refl,
                    ),
                  )))
        ]
      ]
    where
      apart : true ≢ false
      apart h = cc

classify-IsCured :
    (m : MarginSummary) (amount : ℤ)
    → pos 0 ≤ℤ amount
    → IsCured (classify m) (classify (raised amount m)) amount
unfolding classify
classify-IsCured m amount h = elim (Bool-cases (eqb_ℤ m.maintenance_margin (pos 0))) [
  | inl none_needed ↦ rw none_needed (inl (refl, refl))
  | inr needed ↦ elim (Bool-cases (ltb_ℤ m.equity m.maintenance_margin)) [
    | inl full ↦ full-IsCured m amount h needed full
    | inr safe ↦ rest-IsCured m amount h needed safe
  ]
]

-- The liquidation check calls an account healthy, with no deficit, only if it needs no maintenance
-- margin or its equity covers both margins; it asks for a full liquidation only below the maintenance
-- margin and for a partial one only between the two, and its deficit then is what the equity lacks to
-- the margin missed. When the account is credited an amount that is not negative and checked again, a
-- healthy account stays healthy, one to be liquidated in full still is exactly if the amount is less
-- than its deficit, and one to be liquidated in part is healthy exactly if the amount covers it.
pub evaluate-credit_collateral :
    (e : RiskEngine) (account : ℕ) (amount : ℤ)
    → pos 0 ≤ℤ amount
    → IsVerdict (account_summary e account) (evaluate e account)
      × IsCured (evaluate e account) (evaluate (credit_collateral e account amount) account) amount
unfolding evaluate
evaluate-credit_collateral e account amount h =
    let m = account_summary e account in
    (
      classify-IsVerdict m,
      subst (λ x. IsCured (classify m) (classify x) amount)
          (sym (account_summary-credit_collateral e account amount)) (classify-IsCured m amount h),
    )
