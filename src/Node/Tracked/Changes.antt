-- ===== src/Node/Tracked/Changes.antt =====
-- apps/tradecored/src/main.cpp: so do the handlers of cancels and replaces.
use mmperp.Prelude.{
  ℕ, ◌≡◌, ◌≢◌, inl, inr, refl, sym, ap, ◌∙◌, subst, Option, none, some, Store, insert, erase,
  erase_self, erase_ne, All,
}
use mmperp.Common.Types.{OrderId, value}
use mmperp.Ingress.{Frame}
use mmperp.Ingress.Messages.{Cancel, Replace, decode_cancel, decode_replace}
use mmperp.Matcher.Types.{OrderRecord, ReplaceRequest, ReplaceResult, MarketShard}
use mmperp.Matcher.Engine.{
  Engine, place_order, withdraw, cancel, replace, cancel_record, cancel_in, replace_record,
  replace_in, replaced_request, to_replace_result,
}
use mmperp.Matcher.Invariant.Stores.{erase-found}
use mmperp.Matcher.Invariant.Shards.{orders-updated}
use mmperp.Matcher.Invariant.Steps.{withdraw-updated}
use mmperp.Matcher.Requests.{IsSound, IsSoundEngine}
use mmperp.Matcher.Requests.Soundness.{withdraw-IsSound}
use mmperp.Matcher.Requests.Makers.{place_order-IsAfter}
use mmperp.Node.Fills.{RestingOrderContext, Node, log_frame, decode_order_id}
use mmperp.Node.Orders.{
  take_cancel, handle_cancel, replacer, replace_request, book_replace, take_replace, handle_replace,
  forget,
}
use mmperp.Node.Positions.{IsBooked}
use mmperp.Node.Tracked.{
  AllKnown, IsTracked, found_shard, insert-IsTracked, tracked_if, after-AllKnown, makers-IsBooked,
}
use mmperp.Node.Tracked.Handlers.{IsSettled, IsInOrder, refl-IsSettled, booked-IsSettled}

-- The shard stands in its market as before.
reinserted-IsTracked :
    (d m : ℕ) (e : Engine) (resting : Store RestingOrderContext) (s : MarketShard)
    → e m ≡ some s
    → IsTracked d e resting
    → IsTracked d (insert m s e) resting
reinserted-IsTracked d m e resting s f t = record {
  in_market = λ j s' k o g h. elim (found_shard e m j s s' g) [
    | inl (at, same) ↦ t.in_market j s' k o (ap e at ∙ f ∙ ap some same) h
    | inr (_, g') ↦ t.in_market j s' k o g' h
  ];
  known = λ s' g. elim (found_shard e m d s s' g) [
    | inl (at, same) ↦ t.known s' (ap e at ∙ f ∙ ap some same)
    | inr (_, g') ↦ t.known s' g'
  ];
}

-- An order that is taken out of its shard.
module _ (s : MarketShard) (k : ℕ) (m : OrderRecord) (v : IsSound s)
    (found : s.book_orders k ≡ some m) where
  book_orders-withdraw : (withdraw s k m).book_orders ≡ erase k s.book_orders
  book_orders-withdraw =
      ap (λ (x : MarketShard). x.book_orders) (withdraw-updated s k m v.consistent found)
      ∙ orders-updated s m.request.side _ _

  withdrawn_unused : (withdraw s k m).book_orders k ≡ none
  withdrawn_unused =
      ap (λ (o : Store OrderRecord). o k) book_orders-withdraw ∙ erase_self k s.book_orders

  still_there :
      (j : ℕ) (o : OrderRecord)
      → (withdraw s k m).book_orders j ≡ some o
      → (j ≢ k) × (s.book_orders j ≡ some o)
  still_there j o e =
      erase-found s.book_orders k j o
        (ap (λ (x : Store OrderRecord). x j) (sym book_orders-withdraw) ∙ e)

  withdraw-AllKnown :
      (d : ℕ) (resting : Store RestingOrderContext)
      → AllKnown d resting s
      → AllKnown d resting (withdraw s k m)
  withdraw-AllKnown d resting all j o e = all j o (still_there j o e).1

  forgotten-AllKnown :
      (d : ℕ) (resting : Store RestingOrderContext)
      → AllKnown d resting s
      → AllKnown d (erase k resting) (withdraw s k m)
  forgotten-AllKnown d resting all j o e =
      let (ne, there) = still_there j o e in
      let (c, f, a, b, z) = all j o there in (c, erase_ne k j resting ne ∙ f, a, b, z)

-- A cancellation, and a replacement by the order's context.
module _ (d : ℕ) (e : Engine) (resting : Store RestingOrderContext) (t : IsTracked d e resting)
    (sound : IsSoundEngine e) where
  cancel_record-IsTracked :
      (j : ℕ) (s : MarketShard) (k : ℕ) (o : Option OrderRecord)
      → e j ≡ some s
      → s.book_orders k ≡ o
      → IsTracked d
          (insert j (cancel_record s k o).1 e)
          (forget (cancel_record s k o).0.cancelled k resting)
  unfolding cancel_record
  cancel_record-IsTracked j s k none f h = reinserted-IsTracked d j e resting s f t
  cancel_record-IsTracked j s k (some m) f h =
      let at = t.in_market j s k m f h in
      subst (λ i. IsTracked d (insert i (withdraw s k m) e) (erase k resting)) (sym at)
        (insert-IsTracked d e resting (erase k resting) (withdraw s k m) t
          (forgotten-AllKnown s k m (sound j s f) h d resting (t.known s (ap e (sym at) ∙ f))))

  cancel_in-IsTracked :
      (id : OrderId) (o : Option MarketShard)
      → e id.market ≡ o
      → IsTracked d
          (cancel_in id.market e id o).1
          (forget (cancel_in id.market e id o).0.cancelled (value id) resting)
  unfolding cancel_in
  cancel_in-IsTracked id none f = t
  cancel_in-IsTracked id (some s) f = cancel_record-IsTracked id.market s (value id) _ f refl

  -- What a replacement returns, with what it leaves.
  abbrev Replaced : ReplaceRequest → RestingOrderContext → ReplaceResult × Engine → Type 0
  Replaced r c x =
      All (IsBooked resting c) x.0.fills
      × IsTracked d x.1 (tracked_if x.0.accepted x.0.resting (value r.id) c resting)

  replace_record-Replaced :
      (f : Frame) (j : ℕ) (s : MarketShard) (r : ReplaceRequest) (o : Option OrderRecord)
      → e j ≡ some s
      → s.book_orders (value r.id) ≡ o
      → Replaced r
          (replacer f r.id (resting (value r.id)))
          ((replace_record s r o).0, insert j (replace_record s r o).1 e)
  unfolding replace_record
  replace_record-Replaced f j s r none g h = (tt, reinserted-IsTracked d j e resting s g t)
  replace_record-Replaced f j s r (some old) g h =
      let k = value r.id in
      let at = t.in_market j s k old g h in
      let all = t.known s (ap e (sym at) ∙ g) in
      let (c, found, account, market, side) = all k old h in
      let s1 = withdraw s k old in
      let request = replaced_request old.request r in
      let after = place_order-IsAfter s1 request (withdraw-IsSound s k old h (sound j s g)) in
      let left = withdraw-AllKnown s k old (sound j s g) h d resting all in
      let unused = withdrawn_unused s k old (sound j s g) h in
      let (o, s2) = place_order s1 request in
      subst (λ x. Replaced r (replacer f r.id x) (to_replace_result o, insert j s2 e)) (sym found)
        (
          makers-IsBooked d resting s1 request c account market side left unused o.fills
              after.makers,
          subst (λ i. IsTracked d (insert i s2 e) (tracked_if o.accepted o.resting k c resting))
              (sym at)
              (insert-IsTracked d e resting _ s2 t
                (after-AllKnown d resting s1 request c account market side left unused o s2 after)),
        )

  replace_in-Replaced :
      (f : Frame) (r : ReplaceRequest) (o : Option MarketShard)
      → e r.id.market ≡ o
      → Replaced r (replacer f r.id (resting (value r.id))) (replace_in e r o)
  unfolding replace_in
  replace_in-Replaced f r none g = (tt, t)
  replace_in-Replaced f r (some s) g =
      replace_record-Replaced f r.id.market s r (s.book_orders (value r.id)) g refl

take_cancel-IsSettled :
    (n : Node) (c : Option Cancel)
    → IsInOrder n
    → IsSoundEngine n.matcher
    → IsSettled n (take_cancel n c)
unfolding take_cancel cancel
take_cancel-IsSettled n none t sound = refl-IsSettled n t
take_cancel-IsSettled n (some c) t sound =
    let id = decode_order_id c.order_id in
    record {
      market_lem = refl;
      tracks = cancel_in-IsTracked n.default_market n.matcher n.resting_orders t sound id _ refl;
      net_lem = λ j. refl;
    }

pub handle_cancel-IsSettled :
    (n : Node) (f : Frame) → IsInOrder n → IsSoundEngine n.matcher → IsSettled n (handle_cancel n f)
unfolding handle_cancel log_frame
handle_cancel-IsSettled n f t sound =
    let h = take_cancel-IsSettled (log_frame n f).1 (decode_cancel f.payload) t sound in
    record { market_lem = h.market_lem; tracks = h.tracks; net_lem = h.net_lem }

take_replace-IsSettled :
    (n : Node) (f : Frame) (offset : ℕ) (r : Option Replace)
    → IsInOrder n
    → IsSoundEngine n.matcher
    → IsSettled n (take_replace n f offset r)
unfolding take_replace book_replace replace
take_replace-IsSettled n f offset none t sound = refl-IsSettled n t
take_replace-IsSettled n f offset (some m) t sound =
    let r = replace_request m in
    let c = replacer f r.id (n.resting_orders (value r.id)) in
    let (o, e) = replace n.matcher r in
    let (makers, tracks) =
      replace_in-Replaced n.default_market n.matcher n.resting_orders t sound f r _ refl in
    booked-IsSettled n e c offset f.header.received_time_ns o.fills o.accepted o.resting
      (value r.id) makers tracks

pub handle_replace-IsSettled :
    (n : Node) (f : Frame)
    → IsInOrder n
    → IsSoundEngine n.matcher
    → IsSettled n (handle_replace n f)
unfolding handle_replace log_frame
handle_replace-IsSettled n f t sound =
    let (offset, n') = log_frame n f in
    let h = take_replace-IsSettled n' f offset (decode_replace f.payload) t sound in
    record { market_lem = h.market_lem; tracks = h.tracks; net_lem = h.net_lem }
