-- ===== src/Node/Tracked.antt =====
-- apps/tradecored/src/main.cpp: the contexts of resting orders belong to the orders of the books.
pub mod Handlers
pub mod Changes
use mmperp.Prelude.{
  ==_iff, ℕ, ◌-◌, ◌≡◌, ◌≢◌, ◌⊎◌, inl, inr, refl, sym, ap, ◌∙◌, subst, Bool, true, false, not,
  Option, none, some, List, [], ◌∷◌, Store, insert, insert_self, insert_ne, erase_ne, All, ◌==◌,
  if◌then◌else◌, Bool-cases,
}
use mmperp.Common.Types.{Side, buy, sell, value}
use mmperp.Matcher.Types.{OrderRecord, OrderRequest, OrderResult, FillEvent, MarketShard}
use mmperp.Matcher.Engine.{Engine, new_shard, or_new}
use mmperp.Matcher.Invariant.{other}
use mmperp.Matcher.Invariant.Stores.{none≢some, some_inj}
use mmperp.Matcher.Requests.Makers.{IsOrderOn, IsMadeOn, IsAfter}
use mmperp.Node.Fills.{RestingOrderContext}
use mmperp.Node.Orders.{track}
use mmperp.Node.Positions.{IsBooked, opposite_side}

-- The context of the order is known, and is that of its request.
abbrev pub IsKnown : ℕ → Store RestingOrderContext → ℕ → OrderRequest → Type 0
IsKnown d resting k r =
    (c : RestingOrderContext) × (resting k ≡ some c)
    × (c.account ≡ r.account)
    × (c.market ≡ d)
    × (c.side ≡ r.side)

-- Every order of a shard is known.
abbrev pub AllKnown : ℕ → Store RestingOrderContext → MarketShard → Type 0
AllKnown d resting s =
    (k : ℕ) (m : OrderRecord) → s.book_orders k ≡ some m → IsKnown d resting k m.request

-- The orders stand in one market, and each has its context.
pub record IsTracked (d : ℕ) (e : Engine) (resting : Store RestingOrderContext) : Type 0 where
  pub in_market :
      (j : ℕ) (s : MarketShard) (k : ℕ) (m : OrderRecord)
      → e j ≡ some s
      → s.book_orders k ≡ some m
      → j ≡ d
  pub known : (s : MarketShard) → e d ≡ some s → AllKnown d resting s

pub or_new-AllKnown :
    (d : ℕ) (resting : Store RestingOrderContext) (o : Option MarketShard)
    → ((s : MarketShard) → o ≡ some s → AllKnown d resting s)
    → AllKnown d resting (or_new o)
or_new-AllKnown d resting none h = λ k m e. absurd (none≢some m e)
or_new-AllKnown d resting (some s) h = h s refl

pub found_shard :
    (e : Engine) (d j : ℕ) (s t : MarketShard)
    → insert d s e j ≡ some t
    → ((j ≡ d) × (s ≡ t)) ⊎ ((j ≢ d) × (e j ≡ some t))
found_shard e d j s t f = elim (Bool-cases (j == d)) [
  | inl same ↦
      let at = (==_iff j d).0 same in
      inl (at, some_inj (sym (ap (insert d s e) at ∙ insert_self d s e) ∙ f))
  | inr ne ↦
      let away : j ≢ d = λ q. absurd (cc ((==_iff j d).1 q, ne)) in
      inr (away, sym (insert_ne d j s e away) ∙ f)
]

-- A new shard in place of the market's.
pub insert-IsTracked :
    (d : ℕ) (e : Engine) (old resting : Store RestingOrderContext) (s : MarketShard)
    → IsTracked d e old
    → AllKnown d resting s
    → IsTracked d (insert d s e) resting
insert-IsTracked d e old resting s t h = record {
  in_market = λ j s' k m f o. elim (found_shard e d j s s' f) [
    | inl (same, _) ↦ same
    | inr (_, f') ↦ t.in_market j s' k m f' o
  ];
  known = λ s' f. elim (found_shard e d d s s' f) [
    | inl (_, same) ↦ subst (AllKnown d resting) same h
    | inr (ne, _) ↦ absurd (ne refl)
  ];
}

-- The contexts after a request that was reported like this.
abbrev pub tracked_if :
    Bool → Bool → ℕ → RestingOrderContext → Store RestingOrderContext → Store RestingOrderContext
tracked_if accepted resting key c contexts =
    if not accepted then contexts else track resting key c contexts

abbrev pub tracked :
    OrderResult → ℕ → RestingOrderContext → Store RestingOrderContext → Store RestingOrderContext
tracked o key c resting = tracked_if o.accepted o.resting key c resting

track_ne :
    (b : Bool) (key k : ℕ) (c : RestingOrderContext) (resting : Store RestingOrderContext)
    → k ≢ key
    → track b key c resting k ≡ resting k
track_ne true key k c resting ne = insert_ne key k c resting ne
track_ne false key k c resting ne = erase_ne key k resting ne

tracked_ne :
    (o : OrderResult) (key k : ℕ) (c : RestingOrderContext) (resting : Store RestingOrderContext)
    → k ≢ key
    → tracked o key c resting k ≡ resting k
tracked_ne o key k c resting ne = elim (Bool-cases (not o.accepted)) [
  | inl refused ↦ rw refused refl
  | inr taken ↦ rw taken (track_ne o.resting key k c resting ne)
]

tracked_self :
    (o : OrderResult) (key : ℕ) (c : RestingOrderContext) (resting : Store RestingOrderContext)
    → o.accepted ≡ true
    → o.resting ≡ true
    → tracked o key c resting key ≡ some c
tracked_self o key c resting a r = rw (a, r) (insert_self key c resting)

-- A request whose id is in no order of the shard.
module _ (d : ℕ) (resting : Store RestingOrderContext) (s : MarketShard) (r : OrderRequest)
    (taker : RestingOrderContext) (account : taker.account ≡ r.account) (market : taker.market ≡ d)
    (side : taker.side ≡ r.side) (all : AllKnown d resting s)
    (unused : s.book_orders (value r.id) ≡ none) where
  pub after-AllKnown :
      (o : OrderResult) (s' : MarketShard)
      → IsAfter s r o s'
      → AllKnown d (tracked o (value r.id) taker resting) s'
  after-AllKnown o s' h k m e = elim (h.orders k m e) [
    | inl (old, found, same) ↦
        let ne : k ≢ value r.id =
          λ q. none≢some old (sym unused ∙ ap s.book_orders (sym q) ∙ found) in
        let (c, f, a, b, z) = all k old found in
        (
          c,
          tracked_ne o (value r.id) k taker resting ne ∙ f,
          a ∙ ap (λ (q : OrderRequest). q.account) same,
          b,
          z ∙ ap (λ (q : OrderRequest). q.side) same,
        )
    | inr (at, rests, same) ↦
        let own = tracked_self o (value r.id) taker resting (h.is_accepted rests) rests in
        (
          taker,
          ap (tracked o (value r.id) taker resting) at ∙ own,
          account ∙ ap (λ (q : OrderRequest). q.account) (sym same),
          market,
          side ∙ ap (λ (q : OrderRequest). q.side) (sym same),
        )
  ]

  other_side : (x : Side) → other x ≡ opposite_side x
  other_side buy = refl
  other_side sell = refl

  pub makers-IsBooked :
      (fills : List FillEvent)
      → All (IsMadeOn s.book_orders (other r.side)) fills
      → All (IsBooked resting taker) fills
  makers-IsBooked [] h = tt
  makers-IsBooked (fill ∷ fills) ((m, found, on), hs) =
      let (c, f, a, b, z) = all (value fill.maker_order) m found in
      (
        (c, f, b ∙ sym market, z ∙ on ∙ other_side r.side ∙ ap opposite_side (sym side)),
        makers-IsBooked fills hs,
      )
