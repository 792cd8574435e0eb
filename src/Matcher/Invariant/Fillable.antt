-- ===== src/Matcher/Invariant/Fillable.antt =====
-- matching_engine.cpp, `fillable_quantity` against `match_order`: what is counted can be traded.
use mmperp.Prelude.{
  ℕ, List, [], ◌∷◌, ◌≡◌, inl, inr, true, false, some, none, Option, Store, arith, refl, sym, ap,
  subst, ◌∙◌, Bool-cases, ltb→lt, leb→le,
}
use mmperp.Prelude.Int.{ℤ, pos, ◌+ℤ◌, ◌-ℤ◌, ◌<ℤ◌, ◌≤ℤ◌, ltb_ℤ, leb_ℤ, int_laws}
use mmperp.Common.Types.{Side}
use mmperp.Matcher.Types.{OrderRecord, OrderRequest, PriceLevel, Book, FillEvent}
use mmperp.Matcher.Matching.{
  Pass, crosses, trade, visit, consume_queue, consume_book, start_level, fillable_from,
}
use mmperp.Matcher.Matching.Trade.{trade_cases}
use mmperp.Matcher.Matching.Rule.{
  IsWilling, consume_book_cases, request-consume_queue, consume_queue_keeps,
}
use mmperp.Matcher.Matching.Fills.{filled, Conserves, Conserves-trade}
use mmperp.Matcher.Invariant.{IsBook, Queued, other}
use mmperp.Matcher.Invariant.Frames.{behind-IsBook}
use mmperp.Matcher.Invariant.Pass.{IsPassed, consume_queue-IsPassed}
use mmperp.Matcher.Invariant.Drained.{consume_book_done, consume_book-nil}

-- The taker's need over and above what the level has.
abbrev gap : Pass → ℤ
gap p = p.taker.remaining -ℤ p.level.total_qty

filled_gap : (r t m : ℤ) → r -ℤ m -ℤ (t -ℤ m) ≡ r -ℤ t
filled_gap r t m = omega int_laws

left_gap : (r t : ℤ) → pos 0 -ℤ (t -ℤ r) ≡ r -ℤ t
left_gap r t = omega int_laws

gap-trade : (price : ℤ) (key : ℕ) (p : Pass) (m : OrderRecord) → gap (trade price key p m) ≡ gap p
gap-trade price key p m = elim (trade_cases price key p m) [
  | inl f ↦ rw (f.taker_left, f.total) (filled_gap _ _ _)
  | inr (m', f) ↦ rw (f.taker_done, f.total) (left_gap _ _)
]

gap-visit :
    (price : ℤ) (key : ℕ) (p : Pass) (o : Option OrderRecord) → gap (visit price key p o) ≡ gap p
unfolding visit
gap-visit price key p none = refl
gap-visit price key p (some m) = gap-trade price key p m

-- A pass takes as much from the taker as from the level.
gap-consume_queue :
    (price : ℤ) (keys : List ℕ) (p : Pass) → gap (consume_queue price keys p) ≡ gap p
unfolding consume_queue
gap-consume_queue price [] p = refl
gap-consume_queue price (k ∷ ks) p = elim (Bool-cases (ltb_ℤ (pos 0) p.taker.remaining)) [
  | inl more ↦
      rw more (
        gap-consume_queue price ks (visit price k p (p.orders k))
        ∙ gap-visit price k p (p.orders k))
  | inr done ↦ rw done
]

nonneg-consume_queue :
    (price : ℤ) (keys : List ℕ) (p : Pass)
    → crosses p.taker.request.side p.taker.request.price price ≡ true
    → pos 0 ≤ℤ p.taker.remaining
    → pos 0 ≤ℤ (consume_queue price keys p).taker.remaining
nonneg-consume_queue price keys p c h =
    (consume_queue_keeps (Conserves (filled p.fills +ℤ p.taker.remaining)) (Conserves-trade _) price
      keys p c (refl, h)).1

zero_of_bounds : (a : ℤ) → ltb_ℤ (pos 0) a ≡ false → pos 0 ≤ℤ a → a ≡ pos 0
zero_of_bounds a h k = ground arith

covered_cannot_want : (q t r : ℤ) → q ≡ t +ℤ r → q ≤ℤ t → ¬ (pos 0 <ℤ r)
covered_cannot_want q t r e h = λ more. over (subst (λ x. x ≤ℤ t) e h) more
  where
    over : t +ℤ r ≤ℤ t → pos 0 <ℤ r → ⊥
    over k m = omega int_laws

next_total : (q t r l r' : ℤ) → q ≡ t +ℤ r → r' -ℤ pos 0 ≡ r -ℤ l → q ≡ t +ℤ l +ℤ r'
next_total q t r l r' e g =
    e ∙ ap (λ x. t +ℤ x) (split r l) ∙ ap (λ x. t +ℤ (l +ℤ x)) (sym g) ∙ drop_zero t l r'
  where
    split : (x y : ℤ) → x ≡ y +ℤ (x -ℤ y)
    split x y = omega int_laws

    drop_zero : (x y z : ℤ) → x +ℤ (y +ℤ (z -ℤ pos 0)) ≡ x +ℤ y +ℤ z
    drop_zero x y z = omega int_laws

-- `total` is what the levels ahead gave, and the count from there covers the order.
abbrev IsCounted : OrderRequest → ℤ → Book → OrderRecord → Type 0
IsCounted r total book taker =
    (taker.request ≡ r)
    × (pos 0 ≤ℤ taker.remaining)
    × (r.quantity ≡ total +ℤ taker.remaining)
    × (r.quantity ≤ℤ fillable_from r.side r.price r.quantity total book)

module _ (r : OrderRequest) (total price : ℤ) (level : PriceLevel) (rest : Book)
    (taker : OrderRecord) (c : IsCounted r total ((price, level) ∷ rest) taker) where
  stopped_filled : ¬ IsWilling taker price → taker.remaining ≡ pos 0
  unfolding fillable_from
  stopped_filled unwilling = elim (Bool-cases (ltb_ℤ (pos 0) taker.remaining)) [
    | inr done ↦ zero_of_bounds taker.remaining done c.1
    | inl more ↦ elim (Bool-cases (crosses r.side r.price price)) [
      | inl x ↦ absurd (
          unwilling (
            ltb→lt _ _ more,
            subst (λ (q : OrderRequest). crosses q.side q.price price ≡ true) (sym c.0) x,
          ))
      | inr x ↦
          absurd (
            covered_cannot_want r.quantity total taker.remaining c.2 (rw x at c.3)
              (ltb→lt _ _ more))
    ]
  ]

  -- The count goes on over the rest.
  IsCounted-rest :
      (p : Pass)
      → p.taker.request ≡ taker.request
      → IsWilling taker price
      → p.taker.remaining -ℤ pos 0 ≡ taker.remaining -ℤ level.total_qty
      → pos 0 <ℤ p.taker.remaining
      → IsCounted r (total +ℤ level.total_qty) rest p.taker
  unfolding fillable_from
  IsCounted-rest p same w g more = (
    same ∙ c.0,
    omega arith,
    sum,
    elim (Bool-cases (leb_ℤ r.quantity (total +ℤ level.total_qty))) [
      | inl enough ↦
          absurd (covered_cannot_want r.quantity _ p.taker.remaining sum (leb→le _ _ enough) more)
      | inr short ↦ rw (x, short) at c.3
    ],
  )
    where
      sum : r.quantity ≡ total +ℤ level.total_qty +ℤ p.taker.remaining
      sum = next_total r.quantity total taker.remaining level.total_qty p.taker.remaining c.2 g

      x : crosses r.side r.price price ≡ true
      x = subst (λ (q : OrderRequest). crosses q.side q.price price ≡ true) c.0 w.1

nothing_counted :
    (r : OrderRequest) (total : ℤ) (taker : OrderRecord)
    → IsCounted r total [] taker
    → taker.remaining ≡ pos 0
unfolding fillable_from
nothing_counted r total taker c = elim (Bool-cases (ltb_ℤ (pos 0) taker.remaining)) [
  | inl more ↦
      absurd (covered_cannot_want r.quantity total taker.remaining c.2 c.3 (ltb→lt _ _ more))
  | inr done ↦ zero_of_bounds taker.remaining done c.1
]

-- A level that a pass emptied has nothing left in its total.
drained_total :
    (side : Side) (price : ℤ) (p q : Pass)
    → IsPassed side price p q
    → pos 0 <ℤ q.taker.remaining
    → q.level.total_qty ≡ pos 0
drained_total side price p q passed more =
    (subst (λ ks. Queued q.orders side price ks q.level.total_qty q.level.visible_qty)
      (passed.drained more) passed.in_order).0

-- A count that covers the order means that the loop fills it.
pub consume_book-fills :
    (r : OrderRequest) (total : ℤ) (book : Book) (orders : Store OrderRecord) (taker : OrderRecord)
    (fills : List FillEvent)
    → IsBook orders (other r.side) book
    → IsCounted r total book taker
    → (consume_book book orders taker fills).taker.remaining ≡ pos 0
consume_book-fills r total [] orders taker fills b c =
    rw (consume_book-nil orders taker fills) (nothing_counted r total taker c)
consume_book-fills r total ((price, level) ∷ rest) orders taker fills b c =
    consume_book_cases (λ w. w.taker.remaining ≡ pos 0) price level rest orders taker fills
      (stopped_filled r total price level rest taker c)
      λ w.
        let start = start_level level orders taker fills in
        let passed = consume_queue-IsPassed (other r.side) price level.queue start refl b.0 in
        let p = consume_queue price level.queue start in
        elim (Bool-cases (ltb_ℤ (pos 0) p.taker.remaining)) [
          | inr done ↦ rw (consume_book_done rest p.orders p.taker p.fills done) (
              zero_of_bounds p.taker.remaining done
                (nonneg-consume_queue price level.queue start w.1 c.1))
          | inl more ↦
              consume_book-fills r (total +ℤ level.total_qty) rest p.orders p.taker p.fills
                (behind-IsBook orders p.orders (other r.side) price rest passed.preserves.elsewhere
                  b.2 b.3)
                (IsCounted-rest r total price level rest taker c p
                  (request-consume_queue price level.queue start) w
                  (ap (λ t. p.taker.remaining -ℤ t)
                      (sym (drained_total (other r.side) price start p passed (ltb→lt _ _ more)))
                    ∙ gap-consume_queue price level.queue start)
                  (ltb→lt _ _ more))
        ]
