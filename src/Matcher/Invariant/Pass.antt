-- ===== src/Matcher/Invariant/Pass.antt =====
-- matching_engine.cpp, `match_order`: the inner loop over one level.
use mmperp.Prelude.{
  ℕ, List, [], ◌∷◌, ◌≡◌, inl, inr, false, some, Store, arith, refl, sym, ap, subst, ◌∙◌, Bool-cases,
  erase_ne,
}
use mmperp.Prelude.Int.{ℤ, pos, ◌-ℤ◌, ◌<ℤ◌, ltb_ℤ}
use mmperp.Common.Types.{Side}
use mmperp.Matcher.Types.{OrderRecord}
use mmperp.Matcher.Matching.{Pass, trade, visit, consume_queue}
use mmperp.Matcher.Matching.Trade.{IsFilledBy, IsLeftBy, trade_cases}
use mmperp.Matcher.Invariant.{IsLinked, IsFresh, IsLevel, Queued}
use mmperp.Matcher.Invariant.Queue.{
  Preserves, Preserves-refl, Preserves-trans, filled-Preserves, left-Preserves, left-IsLevel,
  erased_orders, unlinked_queue, Queued-cast, Queued-fresh,
}

pub consume_queue_done :
    (price : ℤ) (keys : List ℕ) (p : Pass)
    → p.taker.remaining ≡ pos 0
    → consume_queue price keys p ≡ p
unfolding consume_queue
consume_queue_done price [] p h = refl
consume_queue_done price (k ∷ ks) p h = rw h

-- What a pass over the whole level leaves: a level in order, emptied if the taker wants more.
pub record IsPassed (side : Side) (price : ℤ) (p q : Pass) : Type 0 where
  pub in_order : IsLevel q.orders side price q.level
  pub preserves : Preserves side price p q
  pub drained : pos 0 <ℤ q.taker.remaining → q.level.queue ≡ []

abbrev IsPass : Side → ℤ → List ℕ → Type 0
IsPass side price keys =
    (p : Pass)
    → p.level.queue ≡ keys
    → Queued p.orders side price keys p.level.total_qty p.level.visible_qty
    → IsPassed side price p (consume_queue price keys p)

stopped-IsPassed :
    (side : Side) (price : ℤ) (keys : List ℕ) (p : Pass)
    → ltb_ℤ (pos 0) p.taker.remaining ≡ false
    → p.level.queue ≡ keys
    → Queued p.orders side price keys p.level.total_qty p.level.visible_qty
    → IsPassed side price p p
stopped-IsPassed side price keys p stop e h = record {
  in_order =
      subst (λ ks. Queued p.orders side price ks p.level.total_qty p.level.visible_qty) (sym e) h;
  preserves = Preserves-refl side price p;
  drained = λ more. absurd (ground arith);
}

positive_zero : (a : ℤ) → a ≡ pos 0 → ¬ (pos 0 <ℤ a)
positive_zero a e h = ground arith

-- The round and the rest of the loop, in the two cases of the round.
module _ (side : Side) (price : ℤ) (k : ℕ) (ks : List ℕ) (p : Pass) (m : OrderRecord)
    (e : p.level.queue ≡ k ∷ ks) (o : p.orders k ≡ some m) (l : IsLinked side price k m)
    (fr : IsFresh k ks)
    (h : Queued p.orders side price ks
      (p.level.total_qty -ℤ m.remaining)
      (p.level.visible_qty -ℤ m.display_remaining)) where
  -- The rest of the queue after a round that fills the maker.
  pub filled-Queued :
      (q : Pass)
      → IsFilledBy k p q m
      → Queued q.orders side price ks q.level.total_qty q.level.visible_qty
  filled-Queued q f = Queued-cast q.orders side price ks (sym f.total) (sym f.visible) (
      Queued-fresh p.orders q.orders side price k ks _ _
        (λ j ne.
          ap (λ (s : Store OrderRecord). s j) (erased_orders side price k ks p q m e o l f)
          ∙ erase_ne k j p.orders ne)
        fr h)

  after_filled :
      (q : Pass)
      → IsFilledBy k p q m
      → IsPass side price ks
      → IsPassed side price p (consume_queue price ks q)
  after_filled q f ih = record {
    in_order = rest.in_order;
    preserves =
        Preserves-trans side price p q (consume_queue price ks q)
          (filled-Preserves side price k ks p q m e o l f) rest.preserves;
    drained = rest.drained;
  }
    where
      rest : IsPassed side price q (consume_queue price ks q)
      rest = ih q (unlinked_queue side price k ks p q m e o l f) (filled-Queued q f)

  after_left :
      (q : Pass) (m' : OrderRecord)
      → IsLeftBy k p q m m'
      → IsPassed side price p (consume_queue price ks q)
  after_left q m' f = rw (consume_queue_done price ks q f.taker_done) (record {
    in_order = left-IsLevel side price k ks p q m e o l m' f fr h;
    preserves = left-Preserves side price k ks p q m e o l m' f;
    drained = λ more. absurd (positive_zero q.taker.remaining f.taker_done more);
  })

  round-IsPassed :
      IsPass side price ks
      → IsPassed side price p (consume_queue price ks (visit price k p (p.orders k)))
  unfolding visit
  round-IsPassed ih = rw o (elim (trade_cases price k p m) [
    | inl f ↦ after_filled (trade price k p m) f ih
    | inr (m', f) ↦ after_left (trade price k p m) m' f
  ])

-- The pass over the whole queue of a level.
pub consume_queue-IsPassed : (side : Side) (price : ℤ) (keys : List ℕ) → IsPass side price keys
unfolding consume_queue
consume_queue-IsPassed side price [] p e h = record {
  in_order =
      subst (λ ks. Queued p.orders side price ks p.level.total_qty p.level.visible_qty) (sym e) h;
  preserves = Preserves-refl side price p;
  drained = λ more. e;
}
consume_queue-IsPassed side price (k ∷ ks) p e h =
    elim (Bool-cases (ltb_ℤ (pos 0) p.taker.remaining)) [
      | inl more ↦ rw more (
          round-IsPassed side price k ks p h.0 e h.1 h.2 h.3 h.4
            (consume_queue-IsPassed side price ks))
      | inr stop ↦ rw stop (stopped-IsPassed side price (k ∷ ks) p stop e h)
    ]
