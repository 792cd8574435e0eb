-- ===== src/Matcher/Invariant/Drained.antt =====
-- matching_engine.cpp, `match_order`: a taker that is not filled leaves no price that it crosses.
use mmperp.Prelude.{
  List, [], ◌∷◌, ◌≡◌, inl, inr, true, false, Store, All, arith, refl, sym, subst, ◌∙◌, Bool-cases,
  ltb→lt,
}
use mmperp.Prelude.Int.{ℤ, pos, ◌<ℤ◌, ltb_ℤ}
use mmperp.Common.Types.{Side, buy, sell}
use mmperp.Matcher.Types.{OrderRecord, OrderRequest, PriceLevel, Book, FillEvent}
use mmperp.Matcher.Books.{before}
use mmperp.Matcher.Matching.{
  Pass, Sweep, crosses, consume_queue, consume_book, keep_level, start_level, stop_at,
}
use mmperp.Matcher.Matching.Rule.{IsWilling, consume_book_cases, request-consume_queue}
use mmperp.Matcher.Invariant.{IsBook, HasPrice, other}
use mmperp.Matcher.Invariant.Frames.{Ahead-HasPrice, behind-IsBook}
use mmperp.Matcher.Invariant.Pass.{consume_queue-IsPassed}
use mmperp.Matcher.Invariant.Sweeps.{keep_level_cases}

-- A taker with nothing left changes nothing.
pub consume_book_done :
    (book : Book) (orders : Store OrderRecord) (taker : OrderRecord) (fills : List FillEvent)
    → ltb_ℤ (pos 0) taker.remaining ≡ false
    → consume_book book orders taker fills ≡ stop_at book orders taker fills
unfolding consume_book
consume_book_done [] orders taker fills h = refl
consume_book_done ((price, level) ∷ rest) orders taker fills h = rw h

pub consume_book-nil :
    (orders : Store OrderRecord) (taker : OrderRecord) (fills : List FillEvent)
    → consume_book [] orders taker fills ≡ stop_at [] orders taker fills
unfolding consume_book
consume_book-nil orders taker fills = refl

-- A price behind one that does not cross does not cross either.
pub crosses_behind :
    (side : Side) (limit p x : ℤ)
    → crosses side limit p ≡ false
    → before (other side) p x ≡ true
    → crosses side limit x ≡ false
unfolding crosses
crosses_behind buy limit p x h b = ground arith
crosses_behind sell limit p x h b = ground arith

-- No price of the book suits the order.
abbrev pub IsClear : OrderRequest → Book → Type 0
IsClear r book = (x : ℤ) → HasPrice x book → crosses r.side r.price x ≡ false

IsClear-from_head :
    (r : OrderRequest) (price : ℤ) (level : PriceLevel) (rest : Book)
    → crosses r.side r.price price ≡ false
    → All (λ e. before (other r.side) price e.0 ≡ true) rest
    → IsClear r ((price, level) ∷ rest)
IsClear-from_head r price level rest c a x (inl e) = rw e c
IsClear-from_head r price level rest c a x (inr h) =
    crosses_behind r.side r.price price x c (Ahead-HasPrice (other r.side) price x rest a h)

pub not_more : (a : ℤ) → ltb_ℤ (pos 0) a ≡ false → ¬ (pos 0 <ℤ a)
not_more a h k = ground arith

lt→ltb_ℤ : (a : ℤ) → pos 0 <ℤ a → ltb_ℤ (pos 0) a ≡ true
lt→ltb_ℤ a h = ground arith

abbrev IsDrained : OrderRequest → Sweep → Type 0
IsDrained r w = pos 0 <ℤ w.taker.remaining → IsClear r w.book

module _ (r : OrderRequest) (price : ℤ) (level : PriceLevel) (rest : Book)
    (orders : Store OrderRecord) (taker : OrderRecord) (fills : List FillEvent)
    (same : taker.request ≡ r) (b : IsBook orders (other r.side) ((price, level) ∷ rest)) where
  stopped-IsDrained :
      ¬ IsWilling taker price → IsDrained r (stop_at ((price, level) ∷ rest) orders taker fills)
  stopped-IsDrained unwilling more = IsClear-from_head r price level rest does_not b.2
    where
      does_not : crosses r.side r.price price ≡ false
      does_not = elim (Bool-cases (crosses r.side r.price price)) [
        | inl c ↦ absurd (
            unwilling (
              more,
              subst (λ (q : OrderRequest). crosses q.side q.price price ≡ true) (sym same) c,
            ))
        | inr c ↦ c
      ]

  turn-IsDrained :
      (p : Pass)
      → (pos 0 <ℤ p.taker.remaining → p.level.queue ≡ [])
      → IsDrained r (consume_book rest p.orders p.taker p.fills)
      → IsDrained r (keep_level price p.level (consume_book rest p.orders p.taker p.fills))
  turn-IsDrained p drained ih more = elim (Bool-cases (ltb_ℤ (pos 0) p.taker.remaining)) [
    | inl still ↦
        keep_level_cases (IsClear r) price p.level (consume_book rest p.orders p.taker p.fills)
          (λ _. ih more) (λ ne. absurd (ne (drained (ltb→lt _ _ still))))
    | inr done ↦ absurd (
        not_more p.taker.remaining done (
          subst (λ (w : Sweep). pos 0 <ℤ w.taker.remaining)
            (consume_book_done rest p.orders p.taker p.fills done) more))
  ]

-- If the taker still wants to trade after the loop, no price left suits it.
pub consume_book-IsDrained :
    (r : OrderRequest) (book : Book) (orders : Store OrderRecord) (taker : OrderRecord)
    (fills : List FillEvent)
    → taker.request ≡ r
    → IsBook orders (other r.side) book
    → IsDrained r (consume_book book orders taker fills)
consume_book-IsDrained r [] orders taker fills same b = λ more x h.
    absurd (subst (λ (w : Sweep). HasPrice x w.book) (consume_book-nil orders taker fills) h)
consume_book-IsDrained r ((price, level) ∷ rest) orders taker fills same b =
    consume_book_cases (IsDrained r) price level rest orders taker fills
      (stopped-IsDrained r price level rest orders taker fills same b)
      λ _.
        let start = start_level level orders taker fills in
        let passed = consume_queue-IsPassed (other r.side) price level.queue start refl b.0 in
        let p = consume_queue price level.queue start in
        turn-IsDrained r price level rest orders taker fills same b p passed.drained (
          consume_book-IsDrained r rest p.orders p.taker p.fills
            (request-consume_queue price level.queue start ∙ same)
            (behind-IsBook orders p.orders (other r.side) price rest passed.preserves.elsewhere b.2
              b.3))
