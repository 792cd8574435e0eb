-- ===== src/Matcher/Matching/Rule.antt =====
-- matching_engine.cpp, `match_order`: a rule for what every trade of a matching keeps.
use mmperp.Prelude.{
  ℕ, List, [], ◌∷◌, ◌++◌, ◌≡◌, true, some, Store, arith, refl, ap, sym, ◌∙◌, ltb, false, ◌<◌,
  ltb→lt, none, Option, inl, inr, Bool-cases,
}
use mmperp.Prelude.Int.{ℤ, pos, ◌<ℤ◌, ltb_ℤ}
use mmperp.Matcher.Types.{FillEvent, OrderRecord, refresh_display, Book, PriceLevel}
use mmperp.Matcher.Matching.{
  Pass, Sweep, fill_event, crosses, reduce, traded_with, settle, trade, visit, consume_queue,
  consume_book, keep_level, start_level, stop_at,
}

-- A statement about the orders, the taker and the fills.
abbrev pub Statement : Type 1
Statement = Store OrderRecord → OrderRecord → List FillEvent → Type 0

-- The taker still wants to trade, and the price suits it.
abbrev pub IsWilling : OrderRecord → ℤ → Type 0
IsWilling t price = (pos 0 <ℤ t.remaining) × (crosses t.request.side t.request.price price ≡ true)

abbrev pub HoldsAt : Statement → Pass → Type 0
HoldsAt Q p = Q p.orders p.taker p.fills

-- A trade with a record of the map keeps the statement.
abbrev pub Keeps : Statement → Type 0
Keeps Q =
    (price : ℤ) (key : ℕ) (p : Pass) (maker : OrderRecord)
    → IsWilling p.taker price
    → p.orders key ≡ some maker
    → HoldsAt Q p
    → HoldsAt Q (trade price key p maker)

pub request-refresh_display : (r : OrderRecord) → (refresh_display r).request ≡ r.request
unfolding refresh_display
request-refresh_display r = ground arith

settle_outside :
    (key : ℕ) (p : Pass) (m : OrderRecord)
    → ((settle key p m).taker ≡ p.taker) × ((settle key p m).fills ≡ p.fills)
unfolding settle
settle_outside key p m = ground arith

-- What a trade does to the taker.
pub taker-trade :
    (price : ℤ) (key : ℕ) (p : Pass) (maker : OrderRecord)
    → (trade price key p maker).taker ≡ reduce p.taker (traded_with p.taker maker)
unfolding trade
taker-trade price key p maker = ground arith

-- And the fill that it reports.
pub fills-trade :
    (price : ℤ) (key : ℕ) (p : Pass) (maker : OrderRecord)
    → (trade price key p maker).fills
      ≡ p.fills ++ fill_event maker p.taker (traded_with p.taker maker) price ∷ []
unfolding trade
fills-trade price key p maker =
    ground (arith, request-refresh_display (reduce maker (traded_with p.taker maker)))

pub request-visit :
    (price : ℤ) (key : ℕ) (p : Pass) (o : Option OrderRecord)
    → (visit price key p o).taker.request ≡ p.taker.request
unfolding visit
request-visit price key p none = refl
request-visit price key p (some m) = ap (λ (r : OrderRecord). r.request) (taker-trade price key p m)

pub request-consume_queue :
    (price : ℤ) (keys : List ℕ) (p : Pass)
    → (consume_queue price keys p).taker.request ≡ p.taker.request
unfolding consume_queue
request-consume_queue price [] p = refl
request-consume_queue price (k ∷ ks) p = ground (
  arith,
  request-visit price k p (p.orders k),
  request-consume_queue price ks (visit price k p (p.orders k)),
)

ltb-false : (a b : ℕ) → ltb a b ≡ false → ¬ (a < b)
ltb-false a b h k = ground arith

true≢false : ¬ (true ≡ false)
true≢false h = cc

-- The outer loop stops, or goes on over the level and the rest.
pub consume_book_cases :
    (P : Sweep → Type 0) (price : ℤ) (level : PriceLevel) (rest : Book) (orders : Store OrderRecord)
    (taker : OrderRecord) (fills : List FillEvent)
    → (¬ IsWilling taker price → P (stop_at ((price, level) ∷ rest) orders taker fills))
    → (IsWilling taker price
        → let p = consume_queue price level.queue (start_level level orders taker fills) in
          P (keep_level price p.level (consume_book rest p.orders p.taker p.fills)))
    → P (consume_book ((price, level) ∷ rest) orders taker fills)
unfolding consume_book
consume_book_cases P price level rest orders taker fills stop on =
    elim (Bool-cases (ltb_ℤ (pos 0) taker.remaining)) [
      | inr done ↦ rw done (stop λ w. ltb-false _ _ done w.0)
      | inl more ↦ elim (Bool-cases (crosses taker.request.side taker.request.price price)) [
        | inl c ↦ rw (more, c) (on (ltb→lt _ _ more, c))
        | inr c ↦ rw (more, c) (stop λ w. true≢false (sym w.1 ∙ c))
      ]
    ]

module _ (Q : Statement) (keeps : Keeps Q) where
  visit_keeps :
      (price : ℤ) (key : ℕ) (p : Pass) (o : Option OrderRecord)
      → p.orders key ≡ o
      → IsWilling p.taker price
      → HoldsAt Q p
      → HoldsAt Q (visit price key p o)
  unfolding visit
  visit_keeps price key p none e w q = q
  visit_keeps price key p (some m) e w q = keeps price key p m w e q

  pub consume_queue_keeps :
      (price : ℤ) (keys : List ℕ) (p : Pass)
      → crosses p.taker.request.side p.taker.request.price price ≡ true
      → HoldsAt Q p
      → HoldsAt Q (consume_queue price keys p)
  unfolding consume_queue
  consume_queue_keeps price [] p c q = q
  consume_queue_keeps price (k ∷ ks) p c q = elim (Bool-cases (ltb_ℤ (pos 0) p.taker.remaining)) [
    | inl more ↦ rw more (
        consume_queue_keeps price ks (visit price k p (p.orders k))
          (rw (request-visit price k p (p.orders k)) c)
          (visit_keeps price k p (p.orders k) refl (ltb→lt _ _ more, c) q))
    | inr done ↦ rw done q
  ]

  -- The statement holds after the whole loop if it held before.
  pub consume_book_keeps :
      (book : Book) (orders : Store OrderRecord) (taker : OrderRecord) (fills : List FillEvent)
      → Q orders taker fills
      → let w = consume_book book orders taker fills in Q w.orders w.taker w.fills
  consume_book_keeps [] orders taker fills q = unfold consume_book in q
  consume_book_keeps ((price, level) ∷ rest) orders taker fills q =
      consume_book_cases (λ w. Q w.orders w.taker w.fills) price level rest orders taker fills
        (λ _. q)
        λ w.
          let p = consume_queue price level.queue (start_level level orders taker fills) in
          consume_book_keeps rest p.orders p.taker p.fills
            (consume_queue_keeps price level.queue (start_level level orders taker fills) w.1 q)
