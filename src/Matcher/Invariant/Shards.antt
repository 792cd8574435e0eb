-- ===== src/Matcher/Invariant/Shards.antt =====
-- matching_engine.cpp: the steps of a request keep a shard consistent.
use mmperp.Prelude.{ℕ, ◌≡◌, ◌≢◌, ◌⊎◌, inl, inr, some, Store, refl, sym, ap, subst, ◌∙◌}
use mmperp.Prelude.Int.{ℤ}
use mmperp.Common.Types.{Side, buy, sell}
use mmperp.Matcher.Types.{OrderRecord, OrderRequest, Book, MarketShard}
use mmperp.Matcher.Books.{own_book, with_own_book}
use mmperp.Matcher.Invariant.{IsBook, IsHeld, IsConsistent, SameAt}
use mmperp.Matcher.Invariant.Frames.{IsBook-SameAt}

pub Side-cases : (a b : Side) → (a ≡ b) ⊎ (a ≢ b)
Side-cases buy buy = inl refl
Side-cases buy sell = inr (λ e. cc)
Side-cases sell buy = inr (λ e. cc)
Side-cases sell sell = inl refl

-- The shard with one book and the map of orders replaced.
abbrev pub updated : MarketShard → Side → Book → Store OrderRecord → MarketShard
updated s side book orders = with_own_book side book (record s { book_orders = orders })

pub orders-updated :
    (s : MarketShard) (side : Side) (book : Book) (orders : Store OrderRecord)
    → (updated s side book orders).book_orders ≡ orders
orders-updated s buy book orders = refl
orders-updated s sell book orders = refl

pub own_book-updated :
    (s : MarketShard) (side : Side) (book : Book) (orders : Store OrderRecord)
    → own_book side (updated s side book orders) ≡ book
own_book-updated s buy book orders = refl
own_book-updated s sell book orders = refl

pub own_book-updated_ne :
    (s : MarketShard) (side side' : Side) (book : Book) (orders : Store OrderRecord)
    → side' ≢ side
    → own_book side' (updated s side book orders) ≡ own_book side' s
own_book-updated_ne s buy buy book orders ne = absurd (ne refl)
own_book-updated_ne s buy sell book orders ne = refl
own_book-updated_ne s sell buy book orders ne = refl
own_book-updated_ne s sell sell book orders ne = absurd (ne refl)

-- A new book and a new map fit a consistent shard if they fit each other, and the other side sees
-- no change.
pub record Fits (s : MarketShard) (side : Side) (book : Book) (orders : Store OrderRecord)
    : Type 0 where
  pub in_order : IsBook orders side book
  pub other_side : (side' : Side) (x : ℤ) → side' ≢ side → SameAt side' x s.book_orders orders
  pub holds :
      (k : ℕ) (m : OrderRecord)
      → orders k ≡ some m
      → m.request.side ≡ side
      → IsHeld k m.request.price book
  pub no_other :
      (k : ℕ) (m : OrderRecord)
      → orders k ≡ some m
      → m.request.side ≢ side
      → (n : OrderRecord) × (s.book_orders k ≡ some n) × (n.request ≡ m.request)

module _ (s : MarketShard) (side : Side) (book : Book) (orders : Store OrderRecord)
    (v : IsConsistent s) (f : Fits s side book orders) where
  fits-IsBook : (side' : Side) → IsBook orders side' (own_book side' (updated s side book orders))
  fits-IsBook side' = elim (Side-cases side' side) [
    | inl e ↦ rw (e, own_book-updated s side book orders) f.in_order
    | inr ne ↦ rw (own_book-updated_ne s side side' book orders ne) (
        IsBook-SameAt s.book_orders orders side' (own_book side' s) (λ x _. f.other_side side' x ne)
          (v.in_order side'))
  ]

  fits-IsHeld :
      (k : ℕ) (m : OrderRecord)
      → orders k ≡ some m
      → IsHeld k m.request.price (own_book m.request.side (updated s side book orders))
  fits-IsHeld k m e = elim (Side-cases m.request.side side) [
    | inl at ↦
        subst (IsHeld k m.request.price)
          (sym (
            ap (λ x. own_book x (updated s side book orders)) at
            ∙ own_book-updated s side book orders))
          (f.holds k m e at)
    | inr ne ↦
        let (n, o, q) = f.no_other k m e ne in
        subst (IsHeld k m.request.price)
          (sym (own_book-updated_ne s side m.request.side book orders ne))
          (subst (λ (r : OrderRequest). IsHeld k r.price (own_book r.side s)) q (v.held k n o))
  ]

  pub updated-IsConsistent : IsConsistent (updated s side book orders)
  updated-IsConsistent = record {
    in_order = λ side'.
        subst (λ o. IsBook o side' (own_book side' (updated s side book orders)))
          (sym (orders-updated s side book orders)) (fits-IsBook side');
    held = λ k m e.
        fits-IsHeld k m
          (ap (λ (o : Store OrderRecord). o k) (sym (orders-updated s side book orders)) ∙ e);
  }
