-- ===== src/Matcher/Invariant/Resting.antt =====
-- matching_engine.cpp, `rest_order`: a new order at the end of its level.
use mmperp.Prelude.{
  ℕ, List, [], ◌∷◌, ◌++◌, ◌≡◌, ◌≢◌, ◌⊎◌, inl, inr, true, false, some, none, Store, All, All-snoc,
  arith, refl, sym, ap, subst, ◌∙◌, Bool-cases, insert, insert_ne, insert_self,
}
use mmperp.Prelude.Int.{ℤ, pos, ◌+ℤ◌, ◌-ℤ◌, eqb_ℤ, eqb_ℤ→eq, int_laws}
use mmperp.Common.Types.{Side, buy, sell}
use mmperp.Matcher.Types.{OrderRecord, PriceLevel, empty_level, Book}
use mmperp.Matcher.Level.{push_back}
use mmperp.Matcher.Books.{before, push_at}
use mmperp.Matcher.Invariant.{IsLinked, IsLevel, IsBook, IsHeld, HasKey, HasPrice, Queued, SameAt}
use mmperp.Matcher.Invariant.Stores.{none≢some}
use mmperp.Matcher.Invariant.Queue.{Queued-cast}
use mmperp.Matcher.Invariant.Frames.{Ahead-HasPrice, IsBook-SameAt}
use mmperp.Matcher.Invariant.Sweeps.{cons≢nil}

pub before_trans :
    (side : Side) (p q r : ℤ)
    → before side p q ≡ true
    → before side q r ≡ true
    → before side p r ≡ true
before_trans buy p q r h k = ground arith
before_trans sell p q r h k = ground arith

before_total :
    (side : Side) (p q : ℤ) → eqb_ℤ p q ≡ false → before side q p ≡ false → before side p q ≡ true
before_total buy p q h k = ground arith
before_total sell p q h k = ground arith

pub All-of_prices :
    (side : Side) (p : ℤ) (book : Book)
    → ((x : ℤ) → HasPrice x book → before side p x ≡ true)
    → All (λ e. before side p e.0 ≡ true) book
All-of_prices side p [] h = tt
All-of_prices side p ((q, l) ∷ rest) h =
    (h q (inl refl), All-of_prices side p rest (λ x k. h x (inr k)))

HasKey-append : (j k : ℕ) (ks : List ℕ) → HasKey j ks → HasKey j (ks ++ k ∷ [])
HasKey-append j k [] h = elim h [ ]
HasKey-append j k (i ∷ ks) (inl e) = inl e
HasKey-append j k (i ∷ ks) (inr h) = inr (HasKey-append j k ks h)

HasKey-snoc : (k : ℕ) (ks : List ℕ) → HasKey k (ks ++ k ∷ [])
HasKey-snoc k [] = inl refl
HasKey-snoc k (j ∷ ks) = inr (HasKey-snoc k ks)

nothing_left : (t r : ℤ) → t ≡ pos 0 → t +ℤ r -ℤ r ≡ pos 0
nothing_left t r e = rw e (zero_plus r)
  where
    zero_plus : (x : ℤ) → pos 0 +ℤ x -ℤ x ≡ pos 0
    zero_plus x = omega int_laws

commute : (t a r : ℤ) → t -ℤ a +ℤ r ≡ t +ℤ r -ℤ a
commute t a r = omega int_laws

module _ (side : Side) (price : ℤ) (key : ℕ) (r : OrderRecord) where
  -- The order joins its level, or a new level goes in front, or it goes on behind.
  pub push_at_cases :
      (P : Book → Type 0) (p : ℤ) (l : PriceLevel) (rest : Book)
      → (p ≡ price → P ((price, (push_back l key price r).0) ∷ rest))
      → (before side price p ≡ true
          → P ((price, (push_back empty_level key price r).0) ∷ (p, l) ∷ rest))
      → (before side p price ≡ true → P ((p, l) ∷ push_at side price key r rest))
      → P (push_at side price key r ((p, l) ∷ rest))
  unfolding push_at
  push_at_cases P p l rest joins front behind = elim (Bool-cases (eqb_ℤ p price)) [
    | inl e ↦ rw e (
        subst (λ x. P ((x, (push_back l key price r).0) ∷ rest)) (sym (eqb_ℤ→eq p price e))
          (joins (eqb_ℤ→eq p price e)))
    | inr ne ↦ elim (Bool-cases (before side price p)) [
      | inl b ↦ rw (ne, b) (front b)
      | inr b ↦ rw (ne, b) (behind (before_total side p price ne b))
    ]
  ]

  pub push_at-HasPrice :
      (book : Book) (x : ℤ)
      → HasPrice x (push_at side price key r book)
      → (x ≡ price) ⊎ HasPrice x book
  push_at-HasPrice [] x = unfold push_at in λ h. elim h [ inl e ↦ inl e | inr f ↦ absurd f ]
  push_at-HasPrice ((p, l) ∷ rest) x =
      push_at_cases (λ b. HasPrice x b → (x ≡ price) ⊎ HasPrice x ((p, l) ∷ rest)) p l rest
        (λ _ h. elim h [ inl e ↦ inl e | inr f ↦ inr (inr f) ])
        (λ _ h. elim h [ inl e ↦ inl e | inr f ↦ inr f ])
        (λ _ h. elim h [
          | inl e ↦ inr (inl e)
          | inr f ↦ elim (push_at-HasPrice rest x f) [ inl e ↦ inl e | inr g ↦ inr (inr g) ]
        ])

-- `r` is new to the map, and `r'` is `r` as the map holds it afterwards.
module _ (orders : Store OrderRecord) (side : Side) (price : ℤ) (key : ℕ) (r r' : OrderRecord)
    (new : orders key ≡ none) (linked : IsLinked side price key r')
    (same_remaining : r'.remaining ≡ r.remaining)
    (same_display : r'.display_remaining ≡ r.display_remaining) where
  stored-ne : (j : ℕ) (m : OrderRecord) → orders j ≡ some m → j ≢ key
  stored-ne j m e q = none≢some m (sym new ∙ sym (ap orders q) ∙ e)

  pub rested-SameAt : (side' : Side) (x : ℤ) → SameAt side' x orders (insert key r' orders)
  rested-SameAt side' x j m e at = insert_ne key j r' orders (stored-ne j m e) ∙ e

  Queued-snoc :
      (ks : List ℕ) (t v : ℤ)
      → Queued orders side price ks t v
      → Queued
          (insert key r' orders)
          side
          price
          (ks ++ key ∷ [])
          (t +ℤ r.remaining)
          (v +ℤ r.display_remaining)
  Queued-snoc [] t v (e, f) = (
    r',
    insert_self key r' orders,
    linked,
    tt,
    (
      rw same_remaining (nothing_left t r.remaining e),
      rw same_display (nothing_left v r.display_remaining f),
    ),
  )
  Queued-snoc (j ∷ ks) t v (m, e, l, fr, h) = (
    m,
    rested-SameAt side price j m e (l.on_side, l.at_price),
    l,
    All-snoc (λ i. j ≢ i) ks key fr (stored-ne j m e),
    Queued-cast (insert key r' orders) side price (ks ++ key ∷ [])
        (commute t m.remaining r.remaining) (commute v m.display_remaining r.display_remaining)
        (Queued-snoc ks (t -ℤ m.remaining) (v -ℤ m.display_remaining) h),
  )

  pushed-IsLevel :
      (l : PriceLevel)
      → IsLevel orders side price l
      → IsLevel (insert key r' orders) side price (push_back l key price r).0
  unfolding push_back
  pushed-IsLevel l h = Queued-snoc l.queue l.total_qty l.visible_qty h

  pushed_not_empty : (l : PriceLevel) → (push_back l key price r).0.queue ≢ []
  unfolding push_back
  pushed_not_empty l = go l.queue
    where
      go : (ks : List ℕ) → ks ++ key ∷ [] ≢ []
      go [] = cons≢nil key []
      go (k ∷ ks) = cons≢nil k (ks ++ key ∷ [])

  -- The book stays in order.
  pub push_at-IsBook :
      (book : Book)
      → IsBook orders side book
      → IsBook (insert key r' orders) side (push_at side price key r book)
  push_at-IsBook [] b =
      unfold push_at in
      (pushed-IsLevel empty_level (refl, refl), pushed_not_empty empty_level, tt, tt)
  push_at-IsBook ((p, l) ∷ rest) b =
      push_at_cases side price key r (IsBook (insert key r' orders) side) p l rest
        (λ e. (
          pushed-IsLevel l (subst (λ x. IsLevel orders side x l) e b.0),
          pushed_not_empty l,
          subst (λ x. All (λ q. before side x q.0 ≡ true) rest) e b.2,
          untouched.3,
        ))
        (λ f. (
          pushed-IsLevel empty_level (refl, refl),
          pushed_not_empty empty_level,
          (
            f,
            All-of_prices side price rest
                (λ x h. before_trans side price p x f (Ahead-HasPrice side p x rest b.2 h)),
          ),
          untouched,
        ))
        (λ f. (
          untouched.0,
          b.1,
          All-of_prices side p (push_at side price key r rest) (λ x h.
              elim (push_at-HasPrice side price key r rest x h) [
                | inl e ↦ rw e f
                | inr g ↦ Ahead-HasPrice side p x rest b.2 g
              ]),
          push_at-IsBook rest b.3,
        ))
    where
      untouched : IsBook (insert key r' orders) side ((p, l) ∷ rest)
      untouched =
          IsBook-SameAt orders (insert key r' orders) side ((p, l) ∷ rest)
            (λ x _. rested-SameAt side x) b

  queue-push_back : (l : PriceLevel) → (push_back l key price r).0.queue ≡ l.queue ++ key ∷ []
  unfolding push_back
  queue-push_back l = refl

  -- The order is held, and so is whatever was held.
  pub push_at_holds : (book : Book) → IsHeld key price (push_at side price key r book)
  push_at_holds [] = unfold push_at in inl (refl, inl refl)
  push_at_holds ((p, l) ∷ rest) =
      push_at_cases side price key r (IsHeld key price) p l rest
        (λ _. inl (refl, rw (queue-push_back l) (HasKey-snoc key l.queue)))
        (λ _. inl (refl, rw (queue-push_back empty_level) (HasKey-snoc key [])))
        (λ _. inr (push_at_holds rest))

  pub push_at_keeps :
      (book : Book) (j : ℕ) (x : ℤ) → IsHeld j x book → IsHeld j x (push_at side price key r book)
  push_at_keeps [] j x h = elim h [ ]
  push_at_keeps ((p, l) ∷ rest) j x h =
      push_at_cases side price key r (IsHeld j x) p l rest
        (λ e. elim h [
          | inl f ↦ inl (sym e ∙ f.0, rw (queue-push_back l) (HasKey-append j key l.queue f.1))
          | inr f ↦ inr f
        ])
        (λ _. inr h) (λ _. elim h [ inl f ↦ inl f | inr f ↦ inr (push_at_keeps rest j x f) ])
