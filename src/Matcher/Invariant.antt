-- ===== src/Matcher/Invariant.antt =====
-- libs/matcher: what holds of a book and of the map of orders between two requests.
pub mod Stores
pub mod Queue
pub mod Pass
pub mod Frames
pub mod Sweeps
pub mod Drained
pub mod Fillable
pub mod Resting
pub mod Withdrawal
pub mod Shards
pub mod Steps
pub mod Uncrossed
use mmperp.Prelude.{ℕ, List, [], ◌∷◌, ◌≡◌, ◌≢◌, ◌⊎◌, true, some, Store, All}
use mmperp.Prelude.Int.{ℤ, pos, ◌-ℤ◌, ◌<ℤ◌}
use mmperp.Common.Types.{Side, buy, sell, value}
use mmperp.Matcher.Types.{OrderRecord, PriceLevel, Book, MarketShard}
use mmperp.Matcher.Books.{before, own_book}

-- The record `m` is linked into the level of `price` on a side, under its encoded id.
pub record IsLinked (side : Side) (price : ℤ) (key : ℕ) (m : OrderRecord) : Type 0 where
  pub on_side : m.request.side ≡ side
  pub at_price : m.request.price ≡ price
  pub in_level : m.level ≡ some price
  pub has_key : value m.request.id ≡ key
  pub positive : pos 0 <ℤ m.remaining

abbrev pub IsFresh : ℕ → List ℕ → Type 0
IsFresh k = All (λ j. k ≢ j)

abbrev pub HasKey : ℕ → List ℕ → Type 0
HasKey k [] = ⊥
HasKey k (j ∷ ks) = (k ≡ j) ⊎ HasKey k ks

-- The keys are distinct, each refers to a linked record, and the two quantities are the sums over
-- these records.
abbrev pub Queued : Store OrderRecord → Side → ℤ → List ℕ → ℤ → ℤ → Type 0
Queued orders side price [] total visible = (total ≡ pos 0) × (visible ≡ pos 0)
Queued orders side price (k ∷ ks) total visible =
    (m : OrderRecord) × (orders k ≡ some m)
    × IsLinked side price k m
    × IsFresh k ks
    × Queued orders side price ks (total -ℤ m.remaining) (visible -ℤ m.display_remaining)

abbrev pub IsLevel : Store OrderRecord → Side → ℤ → PriceLevel → Type 0
IsLevel orders side price l = Queued orders side price l.queue l.total_qty l.visible_qty

-- The levels stand in the order of the map, and none is empty.
abbrev pub IsBook : Store OrderRecord → Side → Book → Type 0
IsBook orders side [] = Unit {0}
IsBook orders side ((price, l) ∷ rest) =
    IsLevel orders side price l
    × (l.queue ≢ [])
    × All (λ e. before side price e.0 ≡ true) rest
    × IsBook orders side rest

-- A level of the book at this price holds the key.
abbrev pub IsHeld : ℕ → ℤ → Book → Type 0
IsHeld k price [] = ⊥
IsHeld k price ((p, l) ∷ rest) = ((p ≡ price) × HasKey k l.queue) ⊎ IsHeld k price rest

-- Both books are in order, and each record of the map is held by the level that it names.
pub record IsConsistent (s : MarketShard) : Type 0 where
  pub in_order : (side : Side) → IsBook s.book_orders side (own_book side s)
  pub held :
      (k : ℕ) (m : OrderRecord)
      → s.book_orders k ≡ some m
      → IsHeld k m.request.price (own_book m.request.side s)

-- Orders away from the level (side, price) are the same in both maps.
abbrev pub SameElsewhere : Side → ℤ → Store OrderRecord → Store OrderRecord → Type 0
SameElsewhere side price orders orders' =
    (k : ℕ) (m : OrderRecord)
    → orders k ≡ some m
    → ¬ ((m.request.side ≡ side) × (m.request.price ≡ price))
    → orders' k ≡ some m

-- No order appears, and none changes its request.
abbrev pub Shrinks : Store OrderRecord → Store OrderRecord → Type 0
Shrinks orders orders' =
    (k : ℕ) (m' : OrderRecord)
    → orders' k ≡ some m'
    → (m : OrderRecord) × (orders k ≡ some m) × (m.request ≡ m'.request)

-- Every order of the level (side, price) stands in the queue.
abbrev pub IsCovered : Side → ℤ → Store OrderRecord → List ℕ → Type 0
IsCovered side price orders keys =
    (k : ℕ) (m : OrderRecord)
    → orders k ≡ some m
    → (m.request.side ≡ side) × (m.request.price ≡ price)
    → HasKey k keys

-- Orders of the level (side, price) are the same in both maps.
abbrev pub SameAt : Side → ℤ → Store OrderRecord → Store OrderRecord → Type 0
SameAt side price orders orders' =
    (k : ℕ) (m : OrderRecord)
    → orders k ≡ some m
    → (m.request.side ≡ side) × (m.request.price ≡ price)
    → orders' k ≡ some m

-- The book has a level at this price.
abbrev pub HasPrice : ℤ → Book → Type 0
HasPrice x [] = ⊥
HasPrice x ((p, l) ∷ rest) = (x ≡ p) ⊎ HasPrice x rest

-- Orders at none of the book's levels are the same in both maps.
abbrev pub SameOutside : Side → Book → Store OrderRecord → Store OrderRecord → Type 0
SameOutside side book orders orders' =
    (k : ℕ) (m : OrderRecord)
    → orders k ≡ some m
    → ¬ ((m.request.side ≡ side) × HasPrice m.request.price book)
    → orders' k ≡ some m

-- Every order at a price of `book` is held by a level of `book'`.
abbrev pub IsCoveredBy : Side → Book → Store OrderRecord → Book → Type 0
IsCoveredBy side book orders book' =
    (k : ℕ) (m : OrderRecord)
    → orders k ≡ some m
    → (m.request.side ≡ side) × HasPrice m.request.price book
    → IsHeld k m.request.price book'

abbrev pub other : Side → Side
other buy = sell
other sell = buy
