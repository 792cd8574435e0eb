-- ===== src/Matcher/Invariant/Queue.antt =====
-- matching_engine.cpp, `match_order`: a pass over one level keeps the level and its neighbours.
use mmperp.Prelude.{
  ℕ, List, [], ◌∷◌, ◌≡◌, ◌≢◌, inl, inr, some, Store, arith, refl, sym, ap, subst, ◌∙◌, erase,
  insert_ne, insert_self,
}
use mathlib.Core.Path.{subst₂}
use mmperp.Prelude.Int.{ℤ, pos, ◌-ℤ◌, ◌+ℤ◌, ◌<ℤ◌, int_laws}
use mmperp.Common.Types.{Side, value}
use mmperp.Matcher.Types.{OrderRecord, OrderRequest}
use mmperp.Matcher.Level.{unlink}
use mmperp.Matcher.Matching.{Pass}
use mmperp.Matcher.Matching.Trade.{IsFilledBy, IsLeftBy}
use mmperp.Matcher.Invariant.Stores.{
  erase-found, insert-found, erase-elsewhere, insert-elsewhere, erase-Shrinks, insert-Shrinks,
}
use mmperp.Matcher.Invariant.{
  IsLinked, IsFresh, IsLevel, HasKey, Queued, SameElsewhere, Shrinks, IsCovered,
}

-- The quantities follow an equation.
pub Queued-cast :
    (orders : Store OrderRecord) (side : Side) (price : ℤ) (keys : List ℕ) {t v t' v' : ℤ}
    → t ≡ t'
    → v ≡ v'
    → Queued orders side price keys t v
    → Queued orders side price keys t' v'
Queued-cast orders side price keys e f h = subst₂ (Queued orders side price keys) e f h

-- A change at a key that the queue does not hold.
pub Queued-fresh :
    (orders orders' : Store OrderRecord) (side : Side) (price : ℤ) (k : ℕ) (keys : List ℕ) (t v : ℤ)
    → ((j : ℕ) → j ≢ k → orders' j ≡ orders j)
    → IsFresh k keys
    → Queued orders side price keys t v
    → Queued orders' side price keys t v
Queued-fresh orders orders' side price k [] t v same f h = h
Queued-fresh orders orders' side price k (j ∷ ks) t v same (ne, f) (m, e, l, fr, h) = (
  m,
  same j (λ q. ne (sym q)) ∙ e,
  l,
  fr,
  Queued-fresh orders orders' side price k ks _ _ same f h,
)

-- A change at another level.
pub Queued-elsewhere :
    (orders orders' : Store OrderRecord) (side side' : Side) (price price' : ℤ) (keys : List ℕ)
    (t v : ℤ)
    → SameElsewhere side price orders orders'
    → ¬ ((side' ≡ side) × (price' ≡ price))
    → Queued orders side' price' keys t v
    → Queued orders' side' price' keys t v
Queued-elsewhere orders orders' side side' price price' [] t v same ne h = h
Queued-elsewhere orders orders' side side' price price' (j ∷ ks) t v same ne (m, e, l, fr, h) = (
  m,
  same j m e (λ q. ne (sym l.on_side ∙ q.0, sym l.at_price ∙ q.1)),
  l,
  fr,
  Queued-elsewhere orders orders' side side' price price' ks _ _ same ne h,
)

-- What a pass over the level (side, price) keeps.
pub record Preserves (side : Side) (price : ℤ) (p q : Pass) : Type 0 where
  pub elsewhere : SameElsewhere side price p.orders q.orders
  pub shrinks : Shrinks p.orders q.orders
  pub covered :
      IsCovered side price p.orders p.level.queue → IsCovered side price q.orders q.level.queue

pub Preserves-refl : (side : Side) (price : ℤ) (p : Pass) → Preserves side price p p
Preserves-refl side price p = record {
  elsewhere = λ k m e n. e;
  shrinks = λ k m e. (m, e, refl);
  covered = λ c. c;
}

pub Preserves-trans :
    (side : Side) (price : ℤ) (p q r : Pass)
    → Preserves side price p q
    → Preserves side price q r
    → Preserves side price p r
Preserves-trans side price p q r a b = record {
  elsewhere = λ k m e n. b.elsewhere k m (a.elsewhere k m e n) n;
  shrinks = λ k m e.
      let (m₁, e₁, s₁) = b.shrinks k m e in
      let (m₂, e₂, s₂) = a.shrinks k m₁ e₁ in (m₂, e₂, s₂ ∙ s₁);
  covered = λ c. b.covered (a.covered c);
}

HasKey-after : (k j : ℕ) (ks : List ℕ) → j ≢ k → HasKey j (k ∷ ks) → HasKey j ks
HasKey-after k j ks ne (inl e) = absurd (ne e)
HasKey-after k j ks ne (inr h) = h

unlink-head : (k : ℕ) (ks : List ℕ) → unlink k (k ∷ ks) ≡ ks
unfolding unlink
unlink-head k ks = ground arith

positive_sub : (a b : ℤ) → b <ℤ a → pos 0 <ℤ a -ℤ b
positive_sub a b h = omega int_laws

regroup_total : (t a b : ℤ) → t -ℤ a ≡ t -ℤ b -ℤ (a -ℤ b)
regroup_total t a b = omega int_laws

regroup_visible : (v d d' : ℤ) → v -ℤ d ≡ v -ℤ d +ℤ d' -ℤ d'
regroup_visible v d d' = omega int_laws

-- One round, on the first key of the queue.
module _ (side : Side) (price : ℤ) (k : ℕ) (ks : List ℕ) (p q : Pass) (m : OrderRecord)
    (e : p.level.queue ≡ k ∷ ks) (o : p.orders k ≡ some m) (l : IsLinked side price k m) where
  module _ (f : IsFilledBy k p q m) where
    pub erased_orders : q.orders ≡ erase k p.orders
    erased_orders = f.erased ∙ ap (λ j. erase j p.orders) l.has_key

    pub unlinked_queue : q.level.queue ≡ ks
    unlinked_queue = f.unlinked ∙ ap (unlink k) e ∙ unlink-head k ks

    pub filled-Preserves : Preserves side price p q
    filled-Preserves = record {
      elsewhere =
          subst (SameElsewhere side price p.orders) (sym erased_orders)
            (erase-elsewhere p.orders k side price m o (l.on_side, l.at_price));
      shrinks = subst (Shrinks p.orders) (sym erased_orders) (erase-Shrinks p.orders k);
      covered = λ c j n g at.
          let (ne, g') =
            erase-found p.orders k j n
              (ap (λ (s : Store OrderRecord). s j) (sym erased_orders) ∙ g) in
          subst (HasKey j) (sym unlinked_queue)
            (HasKey-after k j ks ne (subst (HasKey j) e (c j n g' at)));
    }

  module _ (m' : OrderRecord) (f : IsLeftBy k p q m m') where
    pub left-Preserves : Preserves side price p q
    left-Preserves = record {
      elsewhere =
          subst (SameElsewhere side price p.orders) (sym f.stored)
            (insert-elsewhere p.orders k side price m o (l.on_side, l.at_price) m');
      shrinks =
          subst (Shrinks p.orders) (sym f.stored) (insert-Shrinks p.orders k m m' o f.same_request);
      covered = λ c j n g at. subst (HasKey j) (sym f.same_queue) (covers c j n g at);
    }
      where
        covers :
            IsCovered side price p.orders p.level.queue
            → IsCovered side price q.orders p.level.queue
        covers c j n g at =
            elim (insert-found p.orders k j m' n
              (ap (λ (s : Store OrderRecord). s j) (sym f.stored) ∙ g)) [
                | inl (same, _) ↦ subst (HasKey j) (sym e) (inl same)
                | inr (_, g') ↦ c j n g' at
              ]

    left-IsLinked : IsLinked side price k m'
    left-IsLinked = record {
      on_side = ap (λ (r : OrderRequest). r.side) f.same_request ∙ l.on_side;
      at_price = ap (λ (r : OrderRequest). r.price) f.same_request ∙ l.at_price;
      in_level = f.same_level ∙ l.in_level;
      has_key = ap (λ (r : OrderRequest). value r.id) f.same_request ∙ l.has_key;
      positive = rw f.left (positive_sub m.remaining p.taker.remaining f.short);
    }

    pub left-IsLevel :
        IsFresh k ks
        → Queued p.orders side price ks
            (p.level.total_qty -ℤ m.remaining)
            (p.level.visible_qty -ℤ m.display_remaining)
        → IsLevel q.orders side price q.level
    left-IsLevel fr h =
        subst (λ keys. Queued q.orders side price keys q.level.total_qty q.level.visible_qty)
          (sym (f.same_queue ∙ e))
          (
            m',
            ap (λ (s : Store OrderRecord). s k) f.stored ∙ insert_self k m' p.orders,
            left-IsLinked,
            fr,
            Queued-cast q.orders side price ks
                (rw (f.total, f.left)
                  (regroup_total p.level.total_qty m.remaining p.taker.remaining))
                (rw f.visible
                  (regroup_visible p.level.visible_qty m.display_remaining m'.display_remaining))
                (Queued-fresh p.orders q.orders side price k ks _ _
                  (λ j ne.
                    ap (λ (s : Store OrderRecord). s j) f.stored ∙ insert_ne k j m' p.orders ne)
                  fr h),
          )
