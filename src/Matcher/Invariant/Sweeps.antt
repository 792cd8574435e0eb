-- ===== src/Matcher/Invariant/Sweeps.antt =====
-- matching_engine.cpp, `match_order`: the outer loop over a book.
use mmperp.Prelude.{
  ℕ, List, [], ◌∷◌, ◌≡◌, ◌≢◌, inl, inr, true, Store, All, refl, sym, ap, subst, ◌∙◌, if◌then◌else◌,
}
use mmperp.Prelude.Int.{ℤ}
use mmperp.Common.Types.{Side}
use mmperp.Matcher.Types.{OrderRecord, OrderRequest, PriceLevel, Book, FillEvent}
use mmperp.Matcher.Books.{before}
use mmperp.Matcher.Level.{no_keys}
use mmperp.Matcher.Matching.{
  Pass, Sweep, consume_queue, consume_book, keep_level, start_level, stop_at,
}
use mmperp.Matcher.Matching.Rule.{consume_book_cases}
use mmperp.Matcher.Invariant.{
  IsBook, IsHeld, HasKey, HasPrice, SameOutside, Shrinks, IsCovered, IsCoveredBy,
}
use mmperp.Matcher.Invariant.Frames.{
  Queued-SameAt, before-ne, Ahead-HasPrice, behind-IsBook, ahead-SameAt,
}
use mmperp.Matcher.Invariant.Pass.{IsPassed, consume_queue-IsPassed}

-- What the loop over `book` leaves, for a taker of the other side.
pub record IsSwept (side : Side) (book : Book) (orders : Store OrderRecord) (w : Sweep)
    : Type 0 where
  pub in_order : IsBook w.orders side w.book
  pub outside : SameOutside side book orders w.orders
  pub shrinks : Shrinks orders w.orders
  pub covered : IsCoveredBy side book orders book → IsCoveredBy side book w.orders w.book
  pub prices : (x : ℤ) → HasPrice x w.book → HasPrice x book

pub stopped-IsSwept :
    (side : Side) (book : Book) (orders : Store OrderRecord) (taker : OrderRecord)
    (fills : List FillEvent)
    → IsBook orders side book
    → IsSwept side book orders (stop_at book orders taker fills)
stopped-IsSwept side book orders taker fills b = record {
  in_order = b;
  outside = λ k m e n. e;
  shrinks = λ k m e. (m, e, refl);
  covered = λ c. c;
  prices = λ x h. h;
}

pub cons≢nil : (k : ℕ) (ks : List ℕ) → k ∷ ks ≢ []
cons≢nil k ks e = cc

-- The level goes back in front of what the loop leaves of the rest, unless it is empty.
pub keep_level_cases :
    (P : Book → Type 0) (price : ℤ) (level : PriceLevel) (w : Sweep)
    → (level.queue ≡ [] → P w.book)
    → (level.queue ≢ [] → P ((price, level) ∷ w.book))
    → P (keep_level price level w).book
keep_level_cases P price level w gone kept = go level.queue refl
  where
    go : (ks : List ℕ) → level.queue ≡ ks → P (keep_level price level w).book
    go [] e =
        subst (λ b. P (if b then w.book else (price, level) ∷ w.book)) (sym (ap no_keys e)) (gone e)
    go (k ∷ ks) e =
        subst (λ b. P (if b then w.book else (price, level) ∷ w.book)) (sym (ap no_keys e))
          (kept (λ q. cons≢nil k ks (sym e ∙ q)))

All-prices :
    (side : Side) (p : ℤ) (book book' : Book)
    → ((x : ℤ) → HasPrice x book' → HasPrice x book)
    → All (λ e. before side p e.0 ≡ true) book
    → All (λ e. before side p e.0 ≡ true) book'
All-prices side p book [] sub a = tt
All-prices side p book ((q, l) ∷ rest) sub a = (
  Ahead-HasPrice side p q book a (sub q (inl refl)),
  All-prices side p book rest (λ x h. sub x (inr h)) a,
)

pub IsHeld-HasPrice : (k : ℕ) (x : ℤ) (book : Book) → IsHeld k x book → HasPrice x book
IsHeld-HasPrice k x [] h = h
IsHeld-HasPrice k x ((p, l) ∷ rest) (inl h) = inl (sym h.0)
IsHeld-HasPrice k x ((p, l) ∷ rest) (inr h) = inr (IsHeld-HasPrice k x rest h)

-- One turn of the outer loop: a pass over the level, and the loop over the rest.
module _ (side : Side) (price : ℤ) (level : PriceLevel) (rest : Book) (orders : Store OrderRecord)
    (taker : OrderRecord) (fills : List FillEvent) (b : IsBook orders side ((price, level) ∷ rest))
    (p : Pass) (passed : IsPassed side price (start_level level orders taker fills) p) (w : Sweep)
    (swept : IsSwept side rest p.orders w) where
  turn-IsBook : IsBook w.orders side (keep_level price p.level w).book
  turn-IsBook =
      keep_level_cases (IsBook w.orders side) price p.level w (λ _. swept.in_order)
        λ ne. (
          Queued-SameAt p.orders w.orders side price p.level.queue _ _
              (ahead-SameAt p.orders w.orders side price rest swept.outside b.2) passed.in_order,
          ne,
          All-prices side price rest w.book swept.prices b.2,
          swept.in_order,
        )

  turn-SameOutside : SameOutside side ((price, level) ∷ rest) orders w.orders
  turn-SameOutside k m e n =
      swept.outside k m (passed.preserves.elsewhere k m e (λ at. n (at.0, inl at.1)))
        (λ at. n (at.0, inr at.1))

  turn-Shrinks : Shrinks orders w.orders
  turn-Shrinks k m e =
      let (m₁, e₁, s₁) = swept.shrinks k m e in
      let (m₂, e₂, s₂) = passed.preserves.shrinks k m₁ e₁ in (m₂, e₂, s₂ ∙ s₁)

  turn_prices :
      (x : ℤ) → HasPrice x (keep_level price p.level w).book → HasPrice x ((price, level) ∷ rest)
  turn_prices x =
      keep_level_cases (λ b'. HasPrice x b' → HasPrice x ((price, level) ∷ rest)) price p.level w
        (λ _ h. inr (swept.prices x h)) (λ _. go)
    where
      go : HasPrice x ((price, p.level) ∷ w.book) → HasPrice x ((price, level) ∷ rest)
      go (inl e) = inl e
      go (inr h) = inr (swept.prices x h)

  not_behind : ¬ HasPrice price rest
  not_behind h = before-ne side price price (Ahead-HasPrice side price price rest b.2 h) refl

  module _ (c : IsCoveredBy side ((price, level) ∷ rest) orders ((price, level) ∷ rest)) where
    level-IsCovered : IsCovered side price orders level.queue
    level-IsCovered k m e at = elim (c k m e (at.0, inl at.1)) [
      | inl h ↦ h.1
      | inr h ↦ absurd (
          not_behind (subst (λ x. HasPrice x rest) at.1 (IsHeld-HasPrice k m.request.price rest h)))
    ]

    rest-IsCoveredBy : IsCoveredBy side rest p.orders rest
    rest-IsCoveredBy k m e at =
        let (m₀, e₀, s₀) = passed.preserves.shrinks k m e in
        elim (c k m₀ e₀ (
          ap (λ (r : OrderRequest). r.side) s₀ ∙ at.0,
          inr (subst (λ (r : OrderRequest). HasPrice r.price rest) (sym s₀) at.1),
        )) [
          | inl h ↦ absurd (
              not_behind (
                subst (λ x. HasPrice x rest) (sym (h.0 ∙ ap (λ (r : OrderRequest). r.price) s₀))
                  at.1))
          | inr h ↦ subst (λ (r : OrderRequest). IsHeld k r.price rest) s₀ h
        ]

    turn-IsCoveredBy :
        IsCoveredBy side ((price, level) ∷ rest) w.orders (keep_level price p.level w).book
    turn-IsCoveredBy k m e (on, inl at) =
        keep_level_cases (IsHeld k m.request.price) price p.level w
          (λ gone. absurd (subst (HasKey k) gone queued)) (λ _. inl (sym at, queued))
      where
        queued : HasKey k p.level.queue
        queued =
            let (m₀, e₀, s₀) = swept.shrinks k m e in
            passed.preserves.covered level-IsCovered k m₀ e₀ (
              ap (λ (r : OrderRequest). r.side) s₀ ∙ on,
              ap (λ (r : OrderRequest). r.price) s₀ ∙ at,
            )
    turn-IsCoveredBy k m e (on, inr at) =
        let h = swept.covered rest-IsCoveredBy k m e (on, at) in
        keep_level_cases (IsHeld k m.request.price) price p.level w (λ _. h) (λ _. inr h)

  turn-IsSwept : IsSwept side ((price, level) ∷ rest) orders (keep_level price p.level w)
  turn-IsSwept = record {
    in_order = turn-IsBook;
    outside = turn-SameOutside;
    shrinks = turn-Shrinks;
    covered = turn-IsCoveredBy;
    prices = turn_prices;
  }

-- The whole loop.
pub consume_book-IsSwept :
    (side : Side) (book : Book) (orders : Store OrderRecord) (taker : OrderRecord)
    (fills : List FillEvent)
    → IsBook orders side book
    → IsSwept side book orders (consume_book book orders taker fills)
consume_book-IsSwept side [] orders taker fills b =
    unfold consume_book in stopped-IsSwept side [] orders taker fills b
consume_book-IsSwept side ((price, level) ∷ rest) orders taker fills b =
    consume_book_cases (IsSwept side ((price, level) ∷ rest) orders) price level rest orders taker
      fills (λ _. stopped-IsSwept side ((price, level) ∷ rest) orders taker fills b)
      λ _.
        let passed =
          consume_queue-IsPassed side price level.queue (start_level level orders taker fills) refl
            b.0 in
        let p = consume_queue price level.queue (start_level level orders taker fills) in
        turn-IsSwept side price level rest orders taker fills b p passed
          (consume_book rest p.orders p.taker p.fills)
          (consume_book-IsSwept side rest p.orders p.taker p.fills
            (behind-IsBook orders p.orders side price rest passed.preserves.elsewhere b.2 b.3))
