-- ===== src/Matcher/Requests/Priority.antt =====
-- matching_engine.cpp, `match_order`: the order in which a book is served.
use mmperp.Prelude.{
  ℕ, List, [], ◌∷◌, ◌++◌, ◌≡◌, inl, inr, Store, refl, sym, ap, subst, ◌∙◌, Bool-cases, arith,
  ltb→lt,
}
use mmperp.Prelude.Int.{ℤ, pos, ◌<ℤ◌, ltb_ℤ}
use mmperp.Common.Types.{Side}
use mmperp.Matcher.Types.{OrderRecord, FillEvent, PriceLevel, Book}
use mmperp.Matcher.Matching.{
  Pass, Sweep, trade, visit, consume_queue, consume_book, keep_level, start_level, fill_event,
  traded_with,
}
use mmperp.Matcher.Matching.Rule.{fills-trade, consume_book_cases}
use mmperp.Matcher.Matching.Trade.{trade_cases}
use mmperp.Matcher.Invariant.{IsLinked, Queued, IsBook}
use mmperp.Matcher.Invariant.Queue.{unlinked_queue}
use mmperp.Matcher.Invariant.Pass.{consume_queue-IsPassed, consume_queue_done, filled-Queued}
use mmperp.Matcher.Invariant.Drained.{consume_book_done, consume_book-nil, not_more}
use mmperp.Matcher.Invariant.Frames.{behind-IsBook}
use mmperp.Matcher.Invariant.Sweeps.{keep_level_cases}
use mmperp.Matcher.Requests.Served.{
  tag, ranking, IsServed, Served_nil, Served_cons, Served_part, Served-append, Served-stop,
}

-- The pass over a level: the keys left over, which are none if the taker wants more.
abbrev QueueServed : ℤ → List ℕ → Pass → Pass → Type 0
QueueServed price keys p q =
    (left : List ℕ) × IsServed p.fills q.fills (tag price keys) (tag price left)
      (tag price q.level.queue)
    × (pos 0 <ℤ q.taker.remaining → left ≡ [])

module _ (side : Side) (price : ℤ) (k : ℕ) (ks : List ℕ) (p : Pass) (m : OrderRecord)
    (l : IsLinked side price k m) where
  first_fill : FillEvent
  first_fill = fill_event m p.taker (traded_with p.taker m) price

  served_first :
      (q : Pass) → QueueServed price ks (trade price k p m) q → QueueServed price (k ∷ ks) p q
  unfolding first_fill
  served_first q (left, s, d) = (
    left,
    subst
        (λ x.
          IsServed p.fills q.fills ((price, x) ∷ tag price ks) (tag price left)
            (tag price q.level.queue))
        l.has_key
        (Served_cons p.fills q.fills first_fill (tag price ks) (tag price left)
          (tag price q.level.queue)
          (subst
            (λ fs. IsServed fs q.fills (tag price ks) (tag price left) (tag price q.level.queue))
            (fills-trade price k p m) s)),
    d,
  )

  served_part :
      (trade price k p m).level.queue ≡ k ∷ ks
      → ¬ (pos 0 <ℤ (trade price k p m).taker.remaining)
      → QueueServed price (k ∷ ks) p (trade price k p m)
  unfolding first_fill
  served_part same done = (
    ks,
    subst (λ zs. IsServed p.fills (trade price k p m).fills (tag price (k ∷ ks)) (tag price ks) zs)
        (ap (tag price) (sym same))
        (subst
          (λ x.
            IsServed p.fills (trade price k p m).fills ((price, x) ∷ tag price ks) (tag price ks)
              ((price, x) ∷ tag price ks))
          l.has_key
          (Served_part p.fills (trade price k p m).fills first_fill (tag price ks)
            (fills-trade price k p m))),
    λ more. absurd (done more),
  )

positive_zero : (a : ℤ) → a ≡ pos 0 → ¬ (pos 0 <ℤ a)
positive_zero a e h = ground arith

consume_queue-Served :
    (side : Side) (price : ℤ) (keys : List ℕ) (p : Pass)
    → p.level.queue ≡ keys
    → Queued p.orders side price keys p.level.total_qty p.level.visible_qty
    → QueueServed price keys p (consume_queue price keys p)
unfolding consume_queue visit
consume_queue-Served side price [] p e h = (
  [],
  subst (λ ks. IsServed p.fills p.fills [] [] (tag price ks)) (sym e) (Served_nil p.fills []),
  λ _. refl,
)
consume_queue-Served side price (k ∷ ks) p e (m, o, l, fr, h) =
    elim (Bool-cases (ltb_ℤ (pos 0) p.taker.remaining)) [
      | inr stop ↦ rw stop (
        k ∷ ks,
        subst
            (λ js.
              IsServed p.fills p.fills (tag price (k ∷ ks)) (tag price (k ∷ ks)) (tag price js))
            (sym e) (Served_nil p.fills (tag price (k ∷ ks))),
        λ more. absurd (not_more p.taker.remaining stop more),
      )
      | inl more ↦
          rw (more, o)
            (elim (trade_cases price k p m) [
              | inl f ↦
                  served_first side price k ks p m l (consume_queue price ks (trade price k p m)) (
                    consume_queue-Served side price ks (trade price k p m)
                      (unlinked_queue side price k ks p (trade price k p m) m e o l f)
                      (filled-Queued side price k ks p m e o l fr h (trade price k p m) f))
              | inr (m', f) ↦ rw (consume_queue_done price ks (trade price k p m) f.taker_done) (
                  served_part side price k ks p m l (f.same_queue ∙ e)
                    (positive_zero (trade price k p m).taker.remaining f.taker_done))
            ])
    ]

-- What the loop over a book serves.
abbrev BookServed : Book → List FillEvent → Sweep → Type 0
BookServed book fills w =
    (left : List (ℤ × ℕ)) × IsServed fills w.fills (ranking book) left (ranking w.book)

ranking-keep_level :
    (price : ℤ) (level : PriceLevel) (w : Sweep)
    → tag price level.queue ++ ranking w.book ≡ ranking (keep_level price level w).book
ranking-keep_level price level w =
    keep_level_cases (λ b. tag price level.queue ++ ranking w.book ≡ ranking b) price level w
      (λ e. ap (λ ks. tag price ks ++ ranking w.book) e) (λ _. refl)

turn_served :
    (price : ℤ) (level : PriceLevel) (rest : Book) (start p : Pass)
    → QueueServed price level.queue start p
    → (pos 0 <ℤ p.taker.remaining → p.level.queue ≡ [])
    → BookServed rest p.fills (consume_book rest p.orders p.taker p.fills)
    → BookServed
        ((price, level) ∷ rest)
        start.fills
        (keep_level price p.level (consume_book rest p.orders p.taker p.fills))
turn_served price level rest start p (left, s, d) drained (left', s') =
    let w = consume_book rest p.orders p.taker p.fills in
    elim (Bool-cases (ltb_ℤ (pos 0) p.taker.remaining)) [
      | inr done ↦ (
        tag price left ++ ranking rest,
        subst
            (IsServed start.fills w.fills (ranking ((price, level) ∷ rest))
              (tag price left ++ ranking rest))
            (ranking-keep_level price p.level w)
            (subst
              (λ (w' : Sweep).
                IsServed start.fills w'.fills (ranking ((price, level) ∷ rest))
                  (tag price left ++ ranking rest) (tag price p.level.queue ++ ranking w'.book))
              (sym (consume_book_done rest p.orders p.taker p.fills done))
              (Served-stop start.fills p.fills (tag price level.queue) (tag price left)
                (tag price p.level.queue) (ranking rest) s)),
      )
      | inl more ↦ (
        left',
        subst (IsServed start.fills w.fills (ranking ((price, level) ∷ rest)) left')
            (ap (λ ks. tag price ks ++ ranking w.book) (sym (drained (ltb→lt _ _ more)))
              ∙ ranking-keep_level price p.level w)
            (Served-append start.fills p.fills w.fills (tag price level.queue) (ranking rest) left'
              (ranking w.book) (tag price p.level.queue)
              (subst
                (λ ks.
                  IsServed start.fills p.fills (tag price level.queue) (tag price ks)
                    (tag price p.level.queue))
                (d (ltb→lt _ _ more)) s)
              s'),
      )
    ]

-- Over a whole book, in the order of its ranking.
pub consume_book-Served :
    (side : Side) (book : Book) (orders : Store OrderRecord) (taker : OrderRecord)
    (fills : List FillEvent)
    → IsBook orders side book
    → BookServed book fills (consume_book book orders taker fills)
consume_book-Served side [] orders taker fills b =
    rw (consume_book-nil orders taker fills) ([], Served_nil fills [])
consume_book-Served side ((price, level) ∷ rest) orders taker fills b =
    consume_book_cases (BookServed ((price, level) ∷ rest) fills) price level rest orders taker
      fills
      (λ _. (ranking ((price, level) ∷ rest), Served_nil fills (ranking ((price, level) ∷ rest))))
      λ _.
        let start = start_level level orders taker fills in
        let p = consume_queue price level.queue start in
        let passed = consume_queue-IsPassed side price level.queue start refl b.0 in
        turn_served price level rest start p
          (consume_queue-Served side price level.queue start refl b.0) passed.drained
          (consume_book-Served side rest p.orders p.taker p.fills
            (behind-IsBook orders p.orders side price rest passed.preserves.elsewhere b.2 b.3))
