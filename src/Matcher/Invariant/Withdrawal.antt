-- ===== src/Matcher/Invariant/Withdrawal.antt =====
-- matching_engine.cpp, `remove_order_from_book`: an order leaves its level, and then the map.
use mmperp.Prelude.{
  ℕ, List, [], ◌∷◌, ◌≡◌, ◌≢◌, inl, inr, false, some, Store, arith, refl, sym, ap, subst, ◌∙◌,
  Bool-cases, erase, erase_ne, if◌then◌else◌, ℕ_discrete,
}
use mmperp.Prelude.Int.{ℤ, ◌-ℤ◌, eqb_ℤ, eqb_ℤ→eq, int_laws}
use mmperp.Common.Types.{Side}
use mmperp.Matcher.Types.{OrderRecord, PriceLevel, Book}
use mmperp.Matcher.Level.{unlink, remove, is_empty, no_keys}
use mmperp.Matcher.Books.{remove_at}
use mmperp.Matcher.Invariant.{
  IsFresh, IsLevel, IsBook, IsHeld, HasKey, HasPrice, Queued, SameElsewhere,
}
use mmperp.Matcher.Invariant.Stores.{some_inj, erase-elsewhere}
use mmperp.Matcher.Invariant.Queue.{Queued-cast, Queued-fresh}
use mmperp.Matcher.Invariant.Frames.{Ahead-HasPrice, Queued-SameAt, behind-IsBook, before-ne}
use mmperp.Matcher.Invariant.Sweeps.{cons≢nil, IsHeld-HasPrice}
use mmperp.Matcher.Invariant.Resting.{All-of_prices}

pub unlink_self : (k : ℕ) (ks : List ℕ) → unlink k (k ∷ ks) ≡ ks
unfolding unlink
unlink_self k ks = ground arith

pub unlink_ne : (k j : ℕ) (ks : List ℕ) → j ≢ k → unlink k (j ∷ ks) ≡ j ∷ unlink k ks
unfolding unlink
unlink_ne k j ks ne = ground arith

unlink-IsFresh : (j k : ℕ) (ks : List ℕ) → IsFresh j ks → IsFresh j (unlink k ks)
unlink-IsFresh j k [] f = unfold unlink in tt
unlink-IsFresh j k (i ∷ ks) f = elim (ℕ_discrete i k) [
  | yes e ↦ rw (e, unlink_self k ks) f.1
  | no ne ↦ rw (unlink_ne k i ks ne) (f.0, unlink-IsFresh j k ks f.1)
]

unlink-HasKey : (j k : ℕ) (ks : List ℕ) → j ≢ k → HasKey j ks → HasKey j (unlink k ks)
unlink-HasKey j k [] ne h = elim h [ ]
unlink-HasKey j k (i ∷ ks) ne h = elim (ℕ_discrete i k) [
  | yes e ↦ rw (e, unlink_self k ks) (elim h [ inl f ↦ absurd (ne (f ∙ e)) | inr f ↦ f ])
  | no d ↦
      rw (unlink_ne k i ks d) (elim h [ inl f ↦ inl f | inr f ↦ inr (unlink-HasKey j k ks ne f) ])
]

commute : (t a r : ℤ) → t -ℤ a -ℤ r ≡ t -ℤ r -ℤ a
commute t a r = omega int_laws

-- `m` is the order that leaves.
module _ (orders : Store OrderRecord) (side : Side) (price : ℤ) (k : ℕ) (m : OrderRecord)
    (o : orders k ≡ some m) (at : (m.request.side ≡ side) × (m.request.price ≡ price)) where
  Queued-unlink :
      (ks : List ℕ) (t v : ℤ)
      → HasKey k ks
      → Queued orders side price ks t v
      → Queued
          (erase k orders)
          side
          price
          (unlink k ks)
          (t -ℤ m.remaining)
          (v -ℤ m.display_remaining)
  Queued-unlink [] t v h q = elim h [ ]
  Queued-unlink (j ∷ ks) t v h (n, e, l, fr, q) = elim (ℕ_discrete j k) [
    | yes same ↦
        let is_m : n ≡ m = some_inj (sym e ∙ ap orders same ∙ o) in
        rw (same, unlink_self k ks)
          (Queued-cast (erase k orders) side price ks
            (ap (λ (r : OrderRecord). t -ℤ r.remaining) is_m)
            (ap (λ (r : OrderRecord). v -ℤ r.display_remaining) is_m)
            (Queued-fresh orders (erase k orders) side price k ks _ _
              (λ i ne. erase_ne k i orders ne) (subst (λ i. IsFresh i ks) same fr) q))
    | no ne ↦ rw (unlink_ne k j ks ne) (
      n,
      erase_ne k j orders ne ∙ e,
      l,
      unlink-IsFresh j k ks fr,
      Queued-cast (erase k orders) side price (unlink k ks) (commute t n.remaining m.remaining)
          (commute v n.display_remaining m.display_remaining)
          (Queued-unlink ks (t -ℤ n.remaining) (v -ℤ n.display_remaining)
            (elim h [ inl f ↦ absurd (ne (sym f)) | inr f ↦ f ]) q),
    )
  ]

  removed-IsLevel :
      (l : PriceLevel)
      → HasKey k l.queue
      → IsLevel orders side price l
      → IsLevel (erase k orders) side price (remove l k m).0
  unfolding remove
  removed-IsLevel l h q = Queued-unlink l.queue l.total_qty l.visible_qty h q

neqb : (p q : ℤ) → eqb_ℤ p q ≡ false → p ≢ q
neqb p q h e = ground arith

-- The level is reached, and goes if it is left empty; or the search goes on.
pub remove_at_cases :
    (P : Book → Type 0) (price : ℤ) (k : ℕ) (m : OrderRecord) (p : ℤ) (l : PriceLevel) (rest : Book)
    → (p ≡ price → (remove l k m).0.queue ≡ [] → P rest)
    → (p ≡ price → (remove l k m).0.queue ≢ [] → P ((p, (remove l k m).0) ∷ rest))
    → (p ≢ price → P ((p, l) ∷ remove_at price k m rest))
    → P (remove_at price k m ((p, l) ∷ rest))
unfolding remove_at
remove_at_cases P price k m p l rest gone kept behind = elim (Bool-cases (eqb_ℤ p price)) [
  | inl e ↦ rw e (go (remove l k m).0.queue refl (eqb_ℤ→eq p price e))
  | inr e ↦ rw e (behind (neqb p price e))
]
  where
    go :
        (ks : List ℕ)
        → (remove l k m).0.queue ≡ ks
        → p ≡ price
        → P (if is_empty (remove l k m).0 then rest else (p, (remove l k m).0) ∷ rest)
    go [] q e =
        subst (λ b. P (if b then rest else (p, (remove l k m).0) ∷ rest)) (sym (ap no_keys q))
          (gone e q)
    go (j ∷ ks) q e =
        subst (λ b. P (if b then rest else (p, (remove l k m).0) ∷ rest)) (sym (ap no_keys q))
          (kept e (λ n. cons≢nil j ks (sym q ∙ n)))

pub remove_at-HasPrice :
    (price : ℤ) (k : ℕ) (m : OrderRecord) (book : Book) (x : ℤ)
    → HasPrice x (remove_at price k m book)
    → HasPrice x book
remove_at-HasPrice price k m [] x = unfold remove_at in λ h. h
remove_at-HasPrice price k m ((p, l) ∷ rest) x =
    remove_at_cases (λ b. HasPrice x b → HasPrice x ((p, l) ∷ rest)) price k m p l rest
      (λ _ _ h. inr h) (λ _ _ h. elim h [ inl e ↦ inl e | inr f ↦ inr f ])
      (λ _ h. elim h [ inl e ↦ inl e | inr f ↦ inr (remove_at-HasPrice price k m rest x f) ])

pub queue-remove :
    (l : PriceLevel) (k : ℕ) (m : OrderRecord) → (remove l k m).0.queue ≡ unlink k l.queue
unfolding remove
queue-remove l k m = refl

-- Other orders stay where they are.
pub remove_at_keeps :
    (price : ℤ) (k : ℕ) (m : OrderRecord) (book : Book) (j : ℕ) (x : ℤ)
    → j ≢ k
    → IsHeld j x book
    → IsHeld j x (remove_at price k m book)
remove_at_keeps price k m [] j x ne h = elim h [ ]
remove_at_keeps price k m ((p, l) ∷ rest) j x ne h =
    remove_at_cases (IsHeld j x) price k m p l rest
      (λ _ e. elim h [ inl f ↦ absurd (subst (HasKey j) e (still f.1)) | inr f ↦ f ])
      (λ _ _. elim h [ inl f ↦ inl (f.0, still f.1) | inr f ↦ inr f ])
      (λ _. elim h [ inl f ↦ inl f | inr f ↦ inr (remove_at_keeps price k m rest j x ne f) ])
  where
    still : HasKey j l.queue → HasKey j (remove l k m).0.queue
    still f = subst (HasKey j) (sym (queue-remove l k m)) (unlink-HasKey j k l.queue ne f)

module _ (orders : Store OrderRecord) (side : Side) (price : ℤ) (k : ℕ) (m : OrderRecord)
    (o : orders k ≡ some m) (at : (m.request.side ≡ side) × (m.request.price ≡ price)) where
  elsewhere : SameElsewhere side price orders (erase k orders)
  elsewhere = erase-elsewhere orders k side price m o at

  -- The book stays in order, its order erased.
  pub remove_at-IsBook :
      (book : Book)
      → IsHeld k price book
      → IsBook orders side book
      → IsBook (erase k orders) side (remove_at price k m book)
  remove_at-IsBook [] h b = elim h [ ]
  remove_at-IsBook ((p, l) ∷ rest) h b =
      remove_at_cases (IsBook (erase k orders) side) price k m p l rest (λ e _. rest_untouched e)
        (λ e ne. (
          subst (λ x. IsLevel (erase k orders) side x (remove l k m).0) (sym e)
              (removed-IsLevel orders side price k m o at l (in_level e)
                (subst (λ x. IsLevel orders side x l) e b.0)),
          ne,
          b.2,
          rest_untouched e,
        ))
        (λ ne. (
          Queued-SameAt orders (erase k orders) side p l.queue _ _
              (λ j n f at'. elsewhere j n f (λ r. ne (sym at'.1 ∙ r.1))) b.0,
          b.1,
          All-of_prices side p (remove_at price k m rest)
              (λ x g. Ahead-HasPrice side p x rest b.2 (remove_at-HasPrice price k m rest x g)),
          remove_at-IsBook rest (elim h [ inl f ↦ absurd (ne f.0) | inr f ↦ f ]) b.3,
        ))
    where
      rest_untouched : p ≡ price → IsBook (erase k orders) side rest
      rest_untouched e =
          behind-IsBook orders (erase k orders) side p rest
            (subst (λ x. SameElsewhere side x orders (erase k orders)) (sym e) elsewhere) b.2 b.3

      in_level : p ≡ price → HasKey k l.queue
      in_level e = elim h [
        | inl f ↦ f.1
        | inr f ↦ absurd (
            before-ne side p price
              (Ahead-HasPrice side p price rest b.2 (IsHeld-HasPrice k price rest f)) e)
      ]
