-- ===== src/Matcher/Requests/Rankings.antt =====
-- matching_engine.cpp, `rest_order` and `remove_order_from_book`: the place of an order in its book.
use mmperp.Prelude.{
  ℕ, List, [], ◌∷◌, ◌++◌, ◌≡◌, ◌≢◌, inl, inr, true, false, Store, All, arith, refl, sym, ap, subst,
  ◌∙◌, ◌&&◌, ◌==◌, if◌then◌else◌, ℕ_discrete,
}
use mmperp.Prelude.Int.{ℤ, eqb_ℤ}
use mmperp.Common.Types.{Side, buy, sell}
use mmperp.Matcher.Types.{OrderRecord, PriceLevel, empty_level, Book}
use mmperp.Matcher.Level.{push_back, remove, unlink}
use mmperp.Matcher.Books.{before, push_at, remove_at}
use mmperp.Matcher.Invariant.{IsBook, IsHeld, HasKey}
use mmperp.Matcher.Invariant.Frames.{Ahead-HasPrice, before-ne}
use mmperp.Matcher.Invariant.Sweeps.{IsHeld-HasPrice}
use mmperp.Matcher.Invariant.Resting.{push_at_cases}
use mmperp.Matcher.Invariant.Withdrawal.{remove_at_cases, unlink_self, unlink_ne, queue-remove}
use mmperp.Matcher.Requests.Served.{ranking, tag}

-- A new order stands behind every order whose price is as good as its own or better, and in front of
-- the first whose price is worse.
abbrev pub line_up : Side → ℤ → ℕ → List (ℤ × ℕ) → List (ℤ × ℕ)
line_up side price k [] = (price, k) ∷ []
line_up side price k ((p, j) ∷ xs) =
    let later = line_up side price k xs in
    if before side price p then (price, k) ∷ (p, j) ∷ xs else (p, j) ∷ later

-- The order leaves, and the others keep their places.
abbrev pub leave : ℤ → ℕ → List (ℤ × ℕ) → List (ℤ × ℕ)
leave price k [] = []
leave price k ((p, j) ∷ xs) =
    let later = leave price k xs in if eqb_ℤ p price && (j == k) then xs else (p, j) ∷ later

before_self : (side : Side) (p : ℤ) → before side p p ≡ false
before_self buy p = ground arith
before_self sell p = ground arith

before_not : (side : Side) (p q : ℤ) → before side p q ≡ true → before side q p ≡ false
before_not buy p q h = ground arith
before_not sell p q h = ground arith

module _ (side : Side) (price : ℤ) (k : ℕ) where
  line_up_front :
      (p : ℤ) (ks : List ℕ) (ys : List (ℤ × ℕ))
      → before side price p ≡ true
      → ks ≢ []
      → line_up side price k (tag p ks ++ ys) ≡ (price, k) ∷ (tag p ks ++ ys)
  line_up_front p [] ys b ne = absurd (ne refl)
  line_up_front p (j ∷ ks) ys b ne = rw b refl

  line_up_behind :
      (p : ℤ) (ks : List ℕ) (ys : List (ℤ × ℕ))
      → before side price p ≡ false
      → line_up side price k (tag p ks ++ ys) ≡ tag p ks ++ line_up side price k ys
  line_up_behind p [] ys b = refl
  line_up_behind p (j ∷ ks) ys b = rw b (ap (λ xs. (p, j) ∷ xs) (line_up_behind p ks ys b))

  line_up_ahead :
      (orders : Store OrderRecord) (book : Book)
      → IsBook orders side book
      → All (λ e. before side price e.0 ≡ true) book
      → line_up side price k (ranking book) ≡ (price, k) ∷ ranking book
  line_up_ahead orders [] b a = refl
  line_up_ahead orders ((p, l) ∷ rest) b a = line_up_front p l.queue (ranking rest) a.0 b.1

tag_snoc :
    (p : ℤ) (ks : List ℕ) (k : ℕ) (ys : List (ℤ × ℕ))
    → tag p (ks ++ k ∷ []) ++ ys ≡ tag p ks ++ (p, k) ∷ ys
tag_snoc p [] k ys = refl
tag_snoc p (j ∷ ks) k ys = ap (λ xs. (p, j) ∷ xs) (tag_snoc p ks k ys)

queue-push_back :
    (l : PriceLevel) (key : ℕ) (price : ℤ) (r : OrderRecord)
    → (push_back l key price r).0.queue ≡ l.queue ++ key ∷ []
unfolding push_back
queue-push_back l key price r = refl

-- Resting puts the order behind all orders of its price.
pub ranking-push_at :
    (orders : Store OrderRecord) (side : Side) (price : ℤ) (key : ℕ) (r : OrderRecord) (book : Book)
    → IsBook orders side book
    → ranking (push_at side price key r book) ≡ line_up side price key (ranking book)
ranking-push_at orders side price key r [] b =
    unfold push_at in ap (λ ks. tag price ks ++ []) (queue-push_back empty_level key price r)
ranking-push_at orders side price key r ((p, l) ∷ rest) b =
    push_at_cases side price key r
      (λ x. ranking x ≡ line_up side price key (ranking ((p, l) ∷ rest))) p l rest
      (λ e.
        ap (λ ks. tag price ks ++ ranking rest) (queue-push_back l key price r)
        ∙ tag_snoc price l.queue key (ranking rest)
        ∙ ap (λ xs. tag price l.queue ++ xs)
            (sym (
              line_up_ahead side price key orders rest b.3
                (subst (λ x. All (λ q. before side x q.0 ≡ true) rest) e b.2)))
        ∙ sym (line_up_behind side price key price l.queue (ranking rest) (before_self side price))
        ∙ ap (λ x. line_up side price key (tag x l.queue ++ ranking rest)) (sym e))
      (λ f.
        ap (λ ks. tag price ks ++ ranking ((p, l) ∷ rest)) (queue-push_back empty_level key price r)
        ∙ sym (line_up_front side price key p l.queue (ranking rest) f b.1))
      (λ f.
        ap (λ xs. tag p l.queue ++ xs) (ranking-push_at orders side price key r rest b.3)
        ∙ sym (line_up_behind side price key p l.queue (ranking rest) (before_not side p price f)))

leave_self : (price : ℤ) (k : ℕ) (xs : List (ℤ × ℕ)) → leave price k ((price, k) ∷ xs) ≡ xs
leave_self price k xs = ground arith

leave_ne :
    (price : ℤ) (k j : ℕ) (xs : List (ℤ × ℕ))
    → j ≢ k
    → leave price k ((price, j) ∷ xs) ≡ (price, j) ∷ leave price k xs
leave_ne price k j xs ne = ground arith

leave_elsewhere :
    (price p : ℤ) (k j : ℕ) (xs : List (ℤ × ℕ))
    → p ≢ price
    → leave price k ((p, j) ∷ xs) ≡ (p, j) ∷ leave price k xs
leave_elsewhere price p k j xs ne = ground arith

leave_level :
    (price : ℤ) (k : ℕ) (ks : List ℕ) (ys : List (ℤ × ℕ))
    → HasKey k ks
    → leave price k (tag price ks ++ ys) ≡ tag price (unlink k ks) ++ ys
leave_level price k [] ys h = elim h [ ]
leave_level price k (j ∷ ks) ys h = elim (ℕ_discrete j k) [
  | yes e ↦ rw (e, unlink_self k ks) (leave_self price k (tag price ks ++ ys))
  | no ne ↦
      leave_ne price k j (tag price ks ++ ys) ne
      ∙ ap (λ xs. (price, j) ∷ xs)
          (leave_level price k ks ys (elim h [ inl f ↦ absurd (ne (sym f)) | inr f ↦ f ]))
      ∙ ap (λ zs. tag price zs ++ ys) (sym (unlink_ne k j ks ne))
]

leave_past :
    (price p : ℤ) (k : ℕ) (ks : List ℕ) (ys : List (ℤ × ℕ))
    → p ≢ price
    → leave price k (tag p ks ++ ys) ≡ tag p ks ++ leave price k ys
leave_past price p k [] ys ne = refl
leave_past price p k (j ∷ ks) ys ne =
    leave_elsewhere price p k j (tag p ks ++ ys) ne
    ∙ ap (λ xs. (p, j) ∷ xs) (leave_past price p k ks ys ne)

-- Removing an order that the book holds takes it out of the ranking, and nothing else.
pub ranking-remove_at :
    (orders : Store OrderRecord) (side : Side) (price : ℤ) (k : ℕ) (m : OrderRecord) (book : Book)
    → IsHeld k price book
    → IsBook orders side book
    → ranking (remove_at price k m book) ≡ leave price k (ranking book)
ranking-remove_at orders side price k m [] h b = elim h [ ]
ranking-remove_at orders side price k m ((p, l) ∷ rest) h b =
    remove_at_cases (λ x. ranking x ≡ leave price k (ranking ((p, l) ∷ rest))) price k m p l rest
      (λ e gone. ap (λ ks. tag p ks ++ ranking rest) (sym gone) ∙ in_level e) (λ e _. in_level e)
      (λ ne.
        ap (λ xs. tag p l.queue ++ xs)
          (ranking-remove_at orders side price k m rest
            (elim h [ inl f ↦ absurd (ne f.0) | inr f ↦ f ]) b.3)
        ∙ sym (leave_past price p k l.queue (ranking rest) ne))
  where
    has : p ≡ price → HasKey k l.queue
    has e = elim h [
      | inl f ↦ f.1
      | inr f ↦ absurd (
          before-ne side p price
            (Ahead-HasPrice side p price rest b.2 (IsHeld-HasPrice k price rest f)) e)
    ]

    in_level :
        p ≡ price
        → tag p (remove l k m).0.queue ++ ranking rest
          ≡ leave price k (tag p l.queue ++ ranking rest)
    in_level e =
        ap (λ ks. tag p ks ++ ranking rest) (queue-remove l k m)
        ∙ ap (λ x. tag x (unlink k l.queue) ++ ranking rest) e
        ∙ sym (leave_level price k l.queue (ranking rest) (has e))
        ∙ ap (λ x. leave price k (tag x l.queue ++ ranking rest)) (sym e)
