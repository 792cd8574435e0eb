-- ===== src/Matcher/Invariant/Frames.antt =====
-- Levels and books are untouched by changes to orders that they do not hold.
use mmperp.Prelude.{ℕ, List, [], ◌∷◌, ◌≡◌, ◌≢◌, inl, inr, true, Store, All, arith, refl, sym, ◌∙◌}
use mmperp.Prelude.Int.{ℤ}
use mmperp.Common.Types.{Side, buy, sell}
use mmperp.Matcher.Types.{OrderRecord, Book}
use mmperp.Matcher.Books.{before}
use mmperp.Matcher.Invariant.{Queued, IsBook, SameAt, SameElsewhere, SameOutside, HasPrice}

pub Queued-SameAt :
    (orders orders' : Store OrderRecord) (side : Side) (price : ℤ) (keys : List ℕ) (t v : ℤ)
    → SameAt side price orders orders'
    → Queued orders side price keys t v
    → Queued orders' side price keys t v
Queued-SameAt orders orders' side price [] t v same h = h
Queued-SameAt orders orders' side price (j ∷ ks) t v same (m, e, l, fr, h) = (
  m,
  same j m e (l.on_side, l.at_price),
  l,
  fr,
  Queued-SameAt orders orders' side price ks _ _ same h,
)

pub before-ne : (side : Side) (p q : ℤ) → before side p q ≡ true → p ≢ q
before-ne buy p q h e = ground arith
before-ne sell p q h e = ground arith

pub Ahead-HasPrice :
    (side : Side) (p x : ℤ) (rest : Book)
    → All (λ e. before side p e.0 ≡ true) rest
    → HasPrice x rest
    → before side p x ≡ true
Ahead-HasPrice side p x [] ahead h = elim h [ ]
Ahead-HasPrice side p x ((q, l) ∷ rest) (h, hs) (inl e) = rw e h
Ahead-HasPrice side p x ((q, l) ∷ rest) (h, hs) (inr e) = Ahead-HasPrice side p x rest hs e

-- A book all of whose levels are untouched.
pub IsBook-SameAt :
    (orders orders' : Store OrderRecord) (side : Side) (book : Book)
    → ((x : ℤ) → HasPrice x book → SameAt side x orders orders')
    → IsBook orders side book
    → IsBook orders' side book
IsBook-SameAt orders orders' side [] same b = tt
IsBook-SameAt orders orders' side ((p, l) ∷ rest) same (h, ne, ahead, b) = (
  Queued-SameAt orders orders' side p l.queue _ _ (same p (inl refl)) h,
  ne,
  ahead,
  IsBook-SameAt orders orders' side rest (λ x hx. same x (inr hx)) b,
)

-- The levels behind one that was worked on.
pub behind-IsBook :
    (orders orders' : Store OrderRecord) (side : Side) (p : ℤ) (rest : Book)
    → SameElsewhere side p orders orders'
    → All (λ e. before side p e.0 ≡ true) rest
    → IsBook orders side rest
    → IsBook orders' side rest
behind-IsBook orders orders' side p rest same ahead =
    IsBook-SameAt orders orders' side rest λ x hx k m e at.
      same k m e λ r. before-ne side p x (Ahead-HasPrice side p x rest ahead hx) (sym r.1 ∙ at.1)

-- The level ahead of those that were worked on.
pub ahead-SameAt :
    (orders orders' : Store OrderRecord) (side : Side) (p : ℤ) (rest : Book)
    → SameOutside side rest orders orders'
    → All (λ e. before side p e.0 ≡ true) rest
    → SameAt side p orders orders'
ahead-SameAt orders orders' side p rest same ahead k m e at = same k m e λ r.
    before-ne side p m.request.price (Ahead-HasPrice side p m.request.price rest ahead r.1)
      (sym at.1)
