-- ===== src/Risk/Positions.antt =====
-- What a fill does to the positions and the equity of the accounts.
use mmperp.Prelude.{
  Assoc, assign, true, ℕ, ◌≡◌, refl, ◌==◌, if◌then◌else◌, false, lookup, lookup-assign, Option,
  some, none, arith,
}
use mmperp.Prelude.Int.{ℤ, ◌+ℤ◌, int_laws}
use mmperp.Risk.Types.{PositionState, FillContext, AccountState, RiskEngine}
use mmperp.Risk.Engine.{
  find_account, ensure_account, ensure_market, adds_to, signed_qty, or_flat, or_new_account,
  realized_by, add_to_position, close_position, fill_account, apply_fill,
}
use mmperp.Risk.Summary.{held_in, opening_equity}

held_assigned :
    (ps : Assoc PositionState) (m j : ℕ) (q : PositionState)
    → (or_flat (lookup j (assign m q ps))).quantity
      ≡ (if m == j then q.quantity else (or_flat (lookup j ps)).quantity)
held_assigned ps m j q = ground (arith, lookup-assign m j q ps)

position_fill :
    (a : AccountState) (m j : ℕ) (signed price size : ℤ)
    → held_in (some (fill_account a m signed price size)) j
      ≡ (if m == j then held_in (some a) m +ℤ signed else held_in (some a) j)
unfolding held_in fill_account add_to_position close_position
position_fill a m j signed price size =
    let p = or_flat (lookup m a.positions) in
    elim (adds_to p.quantity signed)
      as (λ x.
        (or_flat (
          lookup j
            (if x
              then record a { positions = assign m (add_to_position p signed price) a.positions }
              else record {
                collateral = a.collateral +ℤ realized_by p signed price size;
                realized_pnl = a.realized_pnl +ℤ realized_by p signed price size;
                positions = assign m (close_position p signed price) a.positions;
              }).positions)).quantity
        ≡ (if m == j then p.quantity +ℤ signed else (or_flat (lookup j a.positions)).quantity)) [
          | true ↦ held_assigned a.positions m j (add_to_position p signed price)
          | false ↦ held_assigned a.positions m j (close_position p signed price)
        ]

held_new : (o : Option AccountState) (j : ℕ) → held_in (some (or_new_account o)) j ≡ held_in o j
unfolding held_in lookup
held_new none j = refl
held_new (some a) j = refl

twice : (c r t : ℤ) → (c +ℤ t) +ℤ (r +ℤ t) ≡ c +ℤ r +ℤ (t +ℤ t)
twice c r t = omega int_laws

-- A fill that reduces, closes or flips a position raises the equity that the account's margin starts
-- from, its collateral plus its realized profit, by twice the realized profit.
pub fill_account-opening_equity :
    (a : AccountState) (m : ℕ) (signed price size : ℤ)
    → let p = or_flat (lookup m a.positions) in
      let realized = realized_by p signed price size in
      adds_to p.quantity signed ≡ false
      → opening_equity (some (fill_account a m signed price size))
        ≡ opening_equity (some a) +ℤ (realized +ℤ realized)
unfolding opening_equity fill_account
fill_account-opening_equity a m signed price size h = ground (
  arith,
  twice a.collateral a.realized_pnl
      (realized_by (or_flat (lookup m a.positions)) signed price size),
)

-- After a fill each account holds in each market what it held before, and the filled account holds
-- the signed quantity more in the fill's market.
pub apply_fill-held_in :
    (e : RiskEngine) (f : FillContext) (k j : ℕ)
    → held_in (find_account (apply_fill e f) k) j ≡ (
        if f.account == k
        then if f.market == j
          then held_in (find_account e k) j +ℤ signed_qty f.side f.quantity
          else held_in (find_account e k) j
        else held_in (find_account e k) j)
unfolding apply_fill find_account
apply_fill-held_in e f k j =
    let a = ensure_account e f.account in
    let signed = signed_qty f.side f.quantity in
    let size = (ensure_market e f.market).config.contract_size in
    let after = fill_account a f.market signed f.price size in
    let o = lookup f.account e.accounts in
    ground (
      arith,
      lookup-assign f.account k after e.accounts,
      position_fill a f.market j signed f.price size,
      held_new o j,
      held_new o f.market,
    )
