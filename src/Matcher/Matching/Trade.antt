-- ===== src/Matcher/Matching/Trade.antt =====
-- matching_engine.cpp, one round of the inner loop of `match_order`: the maker is filled and leaves
-- the book, or the taker is filled and the maker stays with the rest.
use mmperp.Prelude.{ℕ, ◌≡◌, arith, refl, ap, ◌∙◌, ◌⊎◌, inl, inr, insert, erase}
use mmperp.Prelude.Int.{ℤ, pos, ◌+ℤ◌, ◌-ℤ◌, ◌<ℤ◌, ◌≤ℤ◌, min_ℤ, int_laws, min_ℤ_cases, eq_of_parts}
use mmperp.Common.Types.{value}
use mmperp.Matcher.Types.{OrderRecord, refresh_display}
use mmperp.Matcher.Level.{unlink, remove}
use mmperp.Matcher.Matching.{Pass, reduce, traded_with, settle, fill, trade}
use mmperp.Matcher.Matching.Rule.{request-refresh_display}
use mmperp.Matcher.Matching.Fills.{remaining-refresh_display}

display-refresh_display_filled :
    (r : OrderRecord) → r.remaining ≡ pos 0 → (refresh_display r).display_remaining ≡ pos 0
unfolding refresh_display min_ℤ
display-refresh_display_filled r h = ground arith

pub level-refresh_display : (r : OrderRecord) → (refresh_display r).level ≡ r.level
unfolding refresh_display
level-refresh_display r = ground arith

settle_filled :
    (key : ℕ) (p : Pass) (m : OrderRecord)
    → m.remaining ≡ pos 0
    → settle key p m
      ≡ record p { level = (remove p.level key m).0; orders = erase (value m.request.id) p.orders }
unfolding settle
settle_filled key p m h = rw h

settle_partial :
    (key : ℕ) (p : Pass) (m : OrderRecord)
    → pos 0 <ℤ m.remaining
    → settle key p m ≡ record p { orders = insert key m p.orders }
unfolding settle
settle_partial key p m h = ground arith

-- The maker is filled.
pub record IsFilledBy (key : ℕ) (p q : Pass) (m : OrderRecord) : Type 0 where
  pub enough : m.remaining ≤ℤ p.taker.remaining
  pub taker_left : q.taker.remaining ≡ p.taker.remaining -ℤ m.remaining
  pub erased : q.orders ≡ erase (value m.request.id) p.orders
  pub unlinked : q.level.queue ≡ unlink key p.level.queue
  pub total : q.level.total_qty ≡ p.level.total_qty -ℤ m.remaining
  pub visible : q.level.visible_qty ≡ p.level.visible_qty -ℤ m.display_remaining

-- The maker stays, as `m'`.
pub record IsLeftBy (key : ℕ) (p q : Pass) (m m' : OrderRecord) : Type 0 where
  pub short : p.taker.remaining <ℤ m.remaining
  pub taker_done : q.taker.remaining ≡ pos 0
  pub stored : q.orders ≡ insert key m' p.orders
  pub same_request : m'.request ≡ m.request
  pub same_level : m'.level ≡ m.level
  pub left : m'.remaining ≡ m.remaining -ℤ p.taker.remaining
  pub same_queue : q.level.queue ≡ p.level.queue
  pub total : q.level.total_qty ≡ p.level.total_qty -ℤ p.taker.remaining
  pub visible :
      q.level.visible_qty ≡ p.level.visible_qty -ℤ m.display_remaining +ℤ m'.display_remaining

zero_of_sub : (a : ℤ) → a -ℤ a ≡ pos 0
zero_of_sub a = omega int_laws

sub_zero : (a : ℤ) → a -ℤ pos 0 ≡ a
sub_zero a = omega int_laws

back_and_forth : (v d : ℤ) → v -ℤ d +ℤ pos 0 -ℤ pos 0 ≡ v -ℤ d
back_and_forth v d = omega int_laws

antisym : {a b : ℤ} → a ≤ℤ b → b ≤ℤ a → a ≡ b
antisym {a} {b} h k = eq_of_parts a b (omega arith)

order_cases : (a b : ℤ) → (a ≤ℤ b) ⊎ (b <ℤ a)
order_cases a b = omega arith

module _ (price : ℤ) (key : ℕ) (p : Pass) (m : OrderRecord) where
  trade-settle : trade price key p m ≡ settle key (fill price p m).0 (fill price p m).1
  unfolding trade
  trade-settle = refl

  trade_filled :
      traded_with p.taker m ≡ m.remaining
      → m.remaining ≤ℤ p.taker.remaining
      → IsFilledBy key p (trade price key p m) m
  unfolding fill remove
  trade_filled e h =
      rw (trade-settle, settle_filled key (fill price p m).0 (fill price p m).1 (same ∙ nothing))
        (record {
          enough = h;
          taker_left = ap (λ t. p.taker.remaining -ℤ t) e;
          erased =
              ap (λ r. erase (value r.id) p.orders)
                (request-refresh_display (reduce m (traded_with p.taker m)));
          unlinked = refl;
          total = rw (same, nothing, sub_zero) (ap (λ t. p.level.total_qty -ℤ t) e);
          visible = rw hid (back_and_forth p.level.visible_qty m.display_remaining);
        })
    where
      same :
          (refresh_display (reduce m (traded_with p.taker m))).remaining
          ≡ m.remaining -ℤ traded_with p.taker m
      same = remaining-refresh_display (reduce m (traded_with p.taker m))

      nothing : m.remaining -ℤ traded_with p.taker m ≡ pos 0
      nothing = rw e (zero_of_sub m.remaining)

      hid : (refresh_display (reduce m (traded_with p.taker m))).display_remaining ≡ pos 0
      hid = display-refresh_display_filled (reduce m (traded_with p.taker m)) nothing

  trade_partial :
      traded_with p.taker m ≡ p.taker.remaining
      → p.taker.remaining <ℤ m.remaining
      → (m' : OrderRecord) × IsLeftBy key p (trade price key p m) m m'
  unfolding fill
  trade_partial e h = (
    left_maker,
    rw (trade-settle, settle_partial key (fill price p m).0 (fill price p m).1 some_left)
        (record {
          short = h;
          taker_done = rw e (zero_of_sub p.taker.remaining);
          stored = refl;
          same_request = request-refresh_display (reduce m (traded_with p.taker m));
          same_level = level-refresh_display (reduce m (traded_with p.taker m));
          left = same;
          same_queue = refl;
          total = ap (λ t. p.level.total_qty -ℤ t) e;
          visible = refl;
        }),
  )
    where
      left_maker : OrderRecord
      left_maker = refresh_display (reduce m (traded_with p.taker m))

      same : left_maker.remaining ≡ m.remaining -ℤ p.taker.remaining
      same =
          remaining-refresh_display (reduce m (traded_with p.taker m))
          ∙ ap (λ t. m.remaining -ℤ t) e

      some_left : pos 0 <ℤ left_maker.remaining
      some_left = rw same (omega int_laws)

  -- There is no third case.
  pub trade_cases :
      IsFilledBy key p (trade price key p m) m
      ⊎ ((m' : OrderRecord) × IsLeftBy key p (trade price key p m) m m')
  trade_cases = elim (min_ℤ_cases p.taker.remaining m.remaining) [
    | inl (e, h) ↦ elim (order_cases m.remaining p.taker.remaining) [
      | inl enough ↦ inl (trade_filled (e ∙ antisym h enough) enough)
      | inr short ↦ inr (trade_partial e short)
    ]
    | inr (e, h) ↦ inl (trade_filled e (omega arith))
  ]
