-- ===== src/Matcher/Requests/Arrivals.antt =====
-- matching_engine.cpp, the placing of an order: price-time priority.
use mmperp.Prelude.{ℕ, List, [], ◌++◌, ◌≡◌, refl, sym, ap, subst, ◌∙◌, map, if◌then◌else◌}
use mmperp.Prelude.Int.{ℤ}
use mmperp.Common.Types.{Side, buy, sell, value}
use mmperp.Matcher.Types.{OrderRecord, OrderRequest, OrderResult, FillEvent, Book, MarketShard}
use mmperp.Matcher.Books.{own_book}
use mmperp.Matcher.Matching.{opposite, with_opposite, match_order}
use mmperp.Matcher.Engine.{new_record}
use mmperp.Matcher.Invariant.{IsConsistent, other}
use mmperp.Matcher.Invariant.Steps.{opposite-own, swept_book}
use mmperp.Matcher.Requests.Served.{maker_of, ranking, IsKept}
use mmperp.Matcher.Requests.Priority.{consume_book-Served}
use mmperp.Matcher.Requests.Rankings.{line_up}

opposite-with_opposite :
    (side : Side) (b : Book) (s : MarketShard) → opposite side (with_opposite side b s) ≡ b
opposite-with_opposite buy b s = refl
opposite-with_opposite sell b s = refl

-- The fills are with the first orders of the first book, and the second one is what is left of it.
abbrev ServesFirst : Book → List FillEvent → Book → Type 0
ServesFirst book fills book' =
    (left : List (ℤ × ℕ)) × (ranking book ≡ map maker_of fills ++ left)
    × IsKept fills left (ranking book')

pub match_order-ServesFirst :
    (s : MarketShard) (taker : OrderRecord)
    → IsConsistent s
    → ServesFirst
        (opposite taker.request.side s)
        (match_order s taker).2
        (opposite taker.request.side (match_order s taker).0)
unfolding match_order
match_order-ServesFirst s taker v =
    let side = taker.request.side in
    let (left, (new, same, served, kept)) =
      consume_book-Served (other side) (opposite side s) s.book_orders taker []
        (rw opposite-own (v.in_order (other side))) in
    (
      left,
      served ∙ ap (λ fs. map maker_of fs ++ left) (sym same),
      subst (λ b. IsKept (match_order s taker).2 left (ranking b))
          (sym (opposite-with_opposite side _ _))
          (subst (λ fs. IsKept fs left (ranking (swept_book s taker).book)) (sym same) kept),
    )

-- What a request reports and what it leaves of the two books of its market.
abbrev pub IsRanked : MarketShard → OrderRequest → OrderResult × MarketShard → Type 0
IsRanked s r p =
    ServesFirst (opposite r.side s) p.0.fills (opposite r.side p.1)
    × (ranking (own_book r.side p.1) ≡ (
        if p.0.resting
        then line_up r.side r.price (value r.id) (ranking (own_book r.side s))
        else ranking (own_book r.side s)))

request-new_record : (r : OrderRequest) (seq : ℕ) → (new_record r seq).request ≡ r
unfolding new_record
request-new_record r seq = refl
