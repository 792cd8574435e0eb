-- ===== src/Matcher/Invariant/Stores.antt =====
-- matching_engine.cpp: what erasing or overwriting one order does to the map of orders.
use mmperp.Prelude.{
  ℕ, ◌≡◌, ◌≢◌, ◌⊎◌, inl, inr, some, none, Store, refl, sym, ap, ◌∙◌, insert, erase, insert_ne,
  erase_ne, insert_self, erase_self, ℕ_discrete, subst,
}
use mmperp.Prelude.Int.{ℤ}
use mmperp.Common.Types.{Side}
use mmperp.Matcher.Types.{OrderRecord}
use mmperp.Matcher.Invariant.{SameElsewhere, Shrinks}

pub none≢some {ℓ} : {A : Type ℓ} (a : A) → ¬ (none ≡ some a)
none≢some a h = cc

pub some_inj {ℓ} : {A : Type ℓ} {a b : A} → some a ≡ some b → a ≡ b
some_inj h = cc

module _ (orders : Store OrderRecord) (k : ℕ) where
  pub erase-found :
      (j : ℕ) (n : OrderRecord) → erase k orders j ≡ some n → (j ≢ k) × (orders j ≡ some n)
  erase-found j n e = elim (ℕ_discrete j k) [
    | yes q ↦ absurd (none≢some n (sym (ap (erase k orders) q ∙ erase_self k orders) ∙ e))
    | no q ↦ (q, sym (erase_ne k j orders q) ∙ e)
  ]

  pub insert-found :
      (j : ℕ) (m n : OrderRecord)
      → insert k m orders j ≡ some n
      → ((j ≡ k) × (m ≡ n)) ⊎ ((j ≢ k) × (orders j ≡ some n))
  insert-found j m n e = elim (ℕ_discrete j k) [
    | yes q ↦ inl (q, some_inj (sym (ap (insert k m orders) q ∙ insert_self k m orders) ∙ e))
    | no q ↦ inr (q, sym (insert_ne k j m orders q) ∙ e)
  ]

  module _ (side : Side) (price : ℤ) (m : OrderRecord) (o : orders k ≡ some m)
      (at : (m.request.side ≡ side) × (m.request.price ≡ price)) where
    not_here :
        (j : ℕ) (n : OrderRecord)
        → orders j ≡ some n
        → ¬ ((n.request.side ≡ side) × (n.request.price ≡ price))
        → j ≢ k
    not_here j n e ne q =
        ne (subst (λ r. (r.request.side ≡ side) × (r.request.price ≡ price)) same at)
      where
        same : m ≡ n
        same = some_inj (sym o ∙ sym (ap orders q) ∙ e)

    pub erase-elsewhere : SameElsewhere side price orders (erase k orders)
    erase-elsewhere j n e ne = erase_ne k j orders (not_here j n e ne) ∙ e

    pub insert-elsewhere : (m' : OrderRecord) → SameElsewhere side price orders (insert k m' orders)
    insert-elsewhere m' j n e ne = insert_ne k j m' orders (not_here j n e ne) ∙ e

  pub erase-Shrinks : Shrinks orders (erase k orders)
  erase-Shrinks j n e = (n, (erase-found j n e).1, refl)

  pub insert-Shrinks :
      (m m' : OrderRecord)
      → orders k ≡ some m
      → m'.request ≡ m.request
      → Shrinks orders (insert k m' orders)
  insert-Shrinks m m' o s j n e = elim (insert-found j m' n e) [
    | inl (q, same) ↦ (m, ap orders q ∙ o, sym s ∙ ap (λ (r : OrderRecord). r.request) same)
    | inr (q, f) ↦ (n, f, refl)
  ]
