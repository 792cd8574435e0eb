-- ===== src/Node/Positions.antt =====
-- What the booking of fills does to the sum of all positions in a market.
use mmperp.Prelude.{
  ℕ, ◌≡◌, inl, inr, refl, sym, ap, ◌∙◌, subst, Bool, true, false, some, List, [], ◌∷◌, arith, Store,
  Assoc, lookup, assign, lookup-assign, All, ◌==◌, if◌then◌else◌, Bool-cases,
}
use mmperp.Prelude.Int.{+ℤ_zero, ℤ, pos, ◌+ℤ◌, ◌-ℤ◌, int_laws}
use mmperp.Common.Types.{Side, buy, sell, value}
use mmperp.Matcher.Types.{FillEvent}
use mmperp.Risk.Types.{AccountState, RiskEngine, FillContext}
use mmperp.Risk.Engine.{
  fill_account, ensure_account, ensure_market, signed_qty, find_account, apply_fill,
}
use mmperp.Risk.Summary.{held_in}
use mmperp.Risk.Positions.{apply_fill-held_in}
use mmperp.Node.Fills.{
  RestingOrderContext, Node, book_side, book_maker, process_fill, process_fills,
}

-- The sum of the positions that the accounts hold.
unfoldable pub net : ℕ → Assoc AccountState → ℤ
net market [] = pos 0
net market ((k, a) ∷ accounts) = held_in (some a) market +ℤ net market accounts

replaced : (a b r : ℤ) → a +ℤ r ≡ b +ℤ r +ℤ (a -ℤ b)
replaced a b r = omega int_laws

kept_first : (b r d : ℤ) → b +ℤ (r +ℤ d) ≡ b +ℤ r +ℤ d
kept_first b r d = omega int_laws

net-assign :
    (m k : ℕ) (a : AccountState) (accounts : Assoc AccountState)
    → net m (assign k a accounts)
      ≡ net m accounts +ℤ (held_in (some a) m -ℤ held_in (lookup k accounts) m)
unfolding net lookup assign
net-assign m k a [] = unfold held_in in omega int_laws
net-assign m k a ((j, b) ∷ accounts) = elim (Bool-cases (j == k)) [
  | inl same ↦ rw same (replaced (held_in (some a) m) (held_in (some b) m) (net m accounts))
  | inr other ↦ rw other (
      ap (λ t. held_in (some b) m +ℤ t) (net-assign m k a accounts)
      ∙ kept_first (held_in (some b) m) (net m accounts)
          (held_in (some a) m -ℤ held_in (lookup k accounts) m))
]

gained : (x y d : ℤ) → x ≡ y +ℤ d → x -ℤ y ≡ d
gained x y d h = let back : (y +ℤ d) -ℤ y ≡ d = omega int_laws in ap (λ t. t -ℤ y) h ∙ back

held_after :
    (e : RiskEngine) (f : FillContext) (j : ℕ)
    → held_in (find_account (apply_fill e f) f.account) j
      ≡ held_in (find_account e f.account) j
        +ℤ (if f.market == j then signed_qty f.side f.quantity else pos 0)
held_after e f j =
    ground
      (arith, apply_fill-held_in e f f.account j, +ℤ_zero (held_in (find_account e f.account) j))

net-apply_fill :
    (e : RiskEngine) (f : FillContext) (j : ℕ)
    → net j (apply_fill e f).accounts
      ≡ net j e.accounts +ℤ (if f.market == j then signed_qty f.side f.quantity else pos 0)
unfolding apply_fill find_account
net-apply_fill e f j =
    let size = (ensure_market e f.market).config.contract_size in
    let after =
      fill_account (ensure_account e f.account) f.market (signed_qty f.side f.quantity) f.price
        size in
    let held = held_in (lookup f.account e.accounts) j in
    let gain = if f.market == j then signed_qty f.side f.quantity else pos 0 in
    let found : lookup f.account (assign f.account after e.accounts) ≡ some after =
      ground (arith, lookup-assign f.account f.account after e.accounts) in
    net-assign j f.account after e.accounts
    ∙ ap (λ d. net j e.accounts +ℤ d)
        (gained (held_in (some after) j) held gain
          (ap (λ o. held_in o j) (sym found) ∙ held_after e f j))

abbrev pub opposite_side : Side → Side
opposite_side buy = sell
opposite_side sell = buy

-- The maker of a fill is known, in the taker's market and on the other side.
abbrev pub IsBooked : Store RestingOrderContext → RestingOrderContext → FillEvent → Type 0
IsBooked resting taker fill =
    (maker : RestingOrderContext) × (resting (value fill.maker_order) ≡ some maker)
    × (maker.market ≡ taker.market)
    × (maker.side ≡ opposite_side taker.side)

cancelled :
    (side : Side) (b : Bool) (q r : ℤ)
    → r
        +ℤ (if b then signed_qty side q else pos 0)
        +ℤ (if b then signed_qty (opposite_side side) q else pos 0)
      ≡ r
cancelled buy true q r = omega int_laws
cancelled sell true q r = omega int_laws
cancelled side false q r = omega int_laws

net-book_side :
    (e : RiskEngine) (c : RestingOrderContext) (fill : FillEvent) (j : ℕ)
    → net j (book_side e c fill).accounts
      ≡ net j e.accounts +ℤ (if c.market == j then signed_qty c.side fill.quantity else pos 0)
unfolding book_side
net-book_side e c fill j = net-apply_fill e _ j

net-process_fill :
    (n : Node) (taker : RestingOrderContext) (offset : ℕ) (t : ℤ) (fill : FillEvent) (j : ℕ)
    → IsBooked n.resting_orders taker fill
    → net j (process_fill n taker offset t fill).risk.accounts ≡ net j n.risk.accounts
unfolding process_fill book_maker
net-process_fill n taker offset t fill j (maker, known, market, side) =
    let one = book_side n.risk taker fill in
    let maker_gain : RestingOrderContext → ℤ =
      λ c. if c.market == j then signed_qty c.side fill.quantity else pos 0 in
    subst (λ o. net j (book_maker one o fill).accounts ≡ net j n.risk.accounts) (sym known)
      (net-book_side one maker fill j
        ∙ ap (λ r. r +ℤ maker_gain maker) (net-book_side n.risk taker fill j)
        ∙ ap
            (λ k.
              net j n.risk.accounts
              +ℤ maker_gain taker
              +ℤ (if k == j then signed_qty maker.side fill.quantity else pos 0))
            market
        ∙ ap
            (λ s.
              net j n.risk.accounts
              +ℤ maker_gain taker
              +ℤ (if taker.market == j then signed_qty s fill.quantity else pos 0))
            side
        ∙ cancelled taker.side (taker.market == j) fill.quantity (net j n.risk.accounts))

-- Where both sides of each fill are known and opposite, in one market, booking the fills changes no
-- market's sum of positions: what one account gains another gives.
pub process_fills-net :
    (n : Node) (taker : RestingOrderContext) (offset : ℕ) (t : ℤ) (fills : List FillEvent) (j : ℕ)
    → All (IsBooked n.resting_orders taker) fills
    → net j (process_fills n taker offset t fills).risk.accounts ≡ net j n.risk.accounts
unfolding process_fills process_fill
process_fills-net n taker offset t [] j h = refl
process_fills-net n taker offset t (fill ∷ fills) j (h, hs) =
    process_fills-net (process_fill n taker offset t fill) taker offset t fills j hs
    ∙ net-process_fill n taker offset t fill j h
