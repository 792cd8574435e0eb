-- ===== src/Matcher/Requests/Soundness.antt =====
-- matching_engine.cpp: every request keeps every market sound.
use mmperp.Prelude.{
  ℕ, List, [], ◌∷◌, ◌≡◌, inl, inr, true, false, some, none, Option, ◌&&◌, refl, sym, ap, subst, ◌∙◌,
  Bool-cases, insert, insert_ne, insert_self, vacant, ◌==◌, ==_iff,
}
use mmperp.Prelude.Int.{pos, leb_ℤ}
use mmperp.Common.Types.{Side, buy, sell, OrderId, value, has_flag, iceberg}
use mmperp.Matcher.Types.{OrderRecord, OrderRequest, ReplaceRequest, MarketShard}
use mmperp.Matcher.Books.{own_book}
use mmperp.Matcher.Engine.{
  Engine, place_order, new_shard, or_new, ensure_market, add_market, clear_market, submit,
  bad_display, withdraw, cancel, replace, cancel_record, cancel_in, replace_record, replace_in,
  replaced_request,
}
use mmperp.Matcher.Invariant.{IsBook}
use mmperp.Matcher.Invariant.Stores.{none≢some, some_inj}
use mmperp.Matcher.Invariant.Steps.{withdraw-IsConsistent}
use mmperp.Matcher.Invariant.Uncrossed.{fewer-IsUncrossed, withdraw_fewer}
use mmperp.Matcher.Requests.{IsSound, IsSoundEngine}
use mmperp.Matcher.Requests.Placing.{place_order-IsSound}

true≢false : ¬ (true ≡ false)
true≢false h = cc

pub withdraw-IsSound :
    (s : MarketShard) (k : ℕ) (m : OrderRecord)
    → s.book_orders k ≡ some m
    → IsSound s
    → IsSound (withdraw s k m)
withdraw-IsSound s k m o v = record {
  consistent = withdraw-IsConsistent s k m v.consistent o;
  uncrossed =
      fewer-IsUncrossed (withdraw s k m) s (withdraw_fewer s k m v.consistent o) v.uncrossed;
}

new_shard-IsSound : IsSound new_shard
new_shard-IsSound = record {
  consistent = record { in_order = empty_books; held = λ k m e. absurd (none≢some m e) };
  uncrossed = λ p q hp hq. absurd hp;
}
  where
    empty_books : (side : Side) → IsBook vacant side (own_book side new_shard)
    empty_books buy = tt
    empty_books sell = tt

pub or_new-IsSound :
    (o : Option MarketShard) → ((s : MarketShard) → o ≡ some s → IsSound s) → IsSound (or_new o)
or_new-IsSound none h = new_shard-IsSound
or_new-IsSound (some s) h = h s refl

insert-IsSound :
    (e : Engine) (m : ℕ) (s : MarketShard)
    → IsSound s
    → IsSoundEngine e
    → IsSoundEngine (insert m s e)
insert-IsSound e m s v all k t f = elim (Bool-cases (k == m)) [
  | inl same ↦
      subst IsSound
        (some_inj (sym (ap (insert m s e) ((==_iff k m).0 same) ∙ insert_self m s e) ∙ f)) v
  | inr ne ↦ all k t (sym (insert_ne m k s e (λ q. true≢false (sym ((==_iff k m).1 q) ∙ ne))) ∙ f)
]

pub submit-IsSound :
    (e : Engine) (r : OrderRequest) → IsSoundEngine e → IsSoundEngine (submit e r).1
unfolding submit
submit-IsSound e r all = elim (Bool-cases (leb_ℤ r.quantity (pos 0))) [
  | inl bad ↦ rw bad all
  | inr good ↦ elim (Bool-cases (has_flag r.flags iceberg && bad_display r)) [
    | inl bad ↦ rw (good, bad) all
    | inr fine ↦
        rw (good, fine)
          (insert-IsSound e r.id.market (place_order (ensure_market r.id.market e) r).1
            (place_order-IsSound (ensure_market r.id.market e) r
              (or_new-IsSound (e r.id.market) (all r.id.market)))
            all)
  ]
]

cancel_record-IsSound :
    (s : MarketShard) (k : ℕ) (o : Option OrderRecord)
    → s.book_orders k ≡ o
    → IsSound s
    → IsSound (cancel_record s k o).1
unfolding cancel_record
cancel_record-IsSound s k none e v = v
cancel_record-IsSound s k (some r) e v = withdraw-IsSound s k r e v

cancel_in-IsSound :
    (e : Engine) (id : OrderId) (o : Option MarketShard)
    → ((s : MarketShard) → o ≡ some s → IsSound s)
    → IsSoundEngine e
    → IsSoundEngine (cancel_in id.market e id o).1
unfolding cancel_in
cancel_in-IsSound e id none h all = all
cancel_in-IsSound e id (some s) h all =
    insert-IsSound e id.market (cancel_record s (value id) (s.book_orders (value id))).1
      (cancel_record-IsSound s (value id) (s.book_orders (value id)) refl (h s refl)) all

pub cancel-IsSound : (e : Engine) (id : OrderId) → IsSoundEngine e → IsSoundEngine (cancel e id).1
unfolding cancel
cancel-IsSound e id all = cancel_in-IsSound e id (e id.market) (all id.market) all

replace_record-IsSound :
    (s : MarketShard) (r : ReplaceRequest) (o : Option OrderRecord)
    → s.book_orders (value r.id) ≡ o
    → IsSound s
    → IsSound (replace_record s r o).1
unfolding replace_record
replace_record-IsSound s r none e v = v
replace_record-IsSound s r (some old) e v =
    place_order-IsSound (withdraw s (value r.id) old) (replaced_request old.request r)
      (withdraw-IsSound s (value r.id) old e v)

replace_in-IsSound :
    (e : Engine) (r : ReplaceRequest) (o : Option MarketShard)
    → ((s : MarketShard) → o ≡ some s → IsSound s)
    → IsSoundEngine e
    → IsSoundEngine (replace_in e r o).1
unfolding replace_in
replace_in-IsSound e r none h all = all
replace_in-IsSound e r (some s) h all =
    insert-IsSound e r.id.market (replace_record s r (s.book_orders (value r.id))).1
      (replace_record-IsSound s r (s.book_orders (value r.id)) refl (h s refl)) all

pub replace-IsSound :
    (e : Engine) (r : ReplaceRequest) → IsSoundEngine e → IsSoundEngine (replace e r).1
unfolding replace
replace-IsSound e r all = replace_in-IsSound e r (e r.id.market) (all r.id.market) all

-- The requests that change the engine.
pub data Request : Type 0 where
  adds clears : ℕ → Request
  submits : OrderRequest → Request
  cancels : OrderId → Request
  replaces : ReplaceRequest → Request

unfoldable pub step : Engine → Request → Engine
unfolding add_market clear_market submit cancel replace
step e (adds m) = add_market m e
step e (clears m) = clear_market m e
step e (submits r) = (submit e r).1
step e (cancels id) = (cancel e id).1
step e (replaces r) = (replace e r).1

unfoldable pub run : Engine → List Request → Engine
unfolding step
run e [] = e
run e (r ∷ rs) = run (step e r) rs

pub step-IsSound : (e : Engine) (r : Request) → IsSoundEngine e → IsSoundEngine (step e r)
unfolding step
step-IsSound e (adds m) all = insert-IsSound e m (or_new (e m)) (or_new-IsSound (e m) (all m)) all
step-IsSound e (clears m) all = insert-IsSound e m new_shard new_shard-IsSound all
step-IsSound e (submits r) all = submit-IsSound e r all
step-IsSound e (cancels id) all = cancel-IsSound e id all
step-IsSound e (replaces r) all = replace-IsSound e r all

run-IsSound : (e : Engine) (rs : List Request) → IsSoundEngine e → IsSoundEngine (run e rs)
unfolding run
run-IsSound e [] all = all
run-IsSound e (r ∷ rs) all = run-IsSound (step e r) rs (step-IsSound e r all)

-- After any requests to a fresh engine, in every market: the levels of each book are in price order
-- and none is empty, the keys of each queue are distinct and refer to orders of that side and price
-- with something left, the two cached quantities of each level are the sums over its orders, every
-- order of the map is in its level, and every bid is below every ask.
pub run-vacant-IsSound : (rs : List Request) → IsSoundEngine (run vacant rs)
run-vacant-IsSound rs = run-IsSound vacant rs (λ m s e. absurd (none≢some s e))
