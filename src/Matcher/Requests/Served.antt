-- ===== src/Matcher/Requests/Served.antt =====
-- The orders of a book, and fills with the first of them.
use mmperp.Prelude.{
  ℕ, List, [], ◌∷◌, ◌++◌, ◌≡◌, ◌⊎◌, inl, inr, refl, sym, ap, ◌∙◌, map, append_assoc, append-nil,
}
use mathlib.Core.List.{map-append}
use mmperp.Prelude.Int.{ℤ}
use mmperp.Common.Types.{value}
use mmperp.Matcher.Types.{FillEvent, Book}

-- The price of a fill with the key of its maker.
abbrev pub maker_of : FillEvent → ℤ × ℕ
maker_of f = (f.price, value f.maker_order)

abbrev pub tag : ℤ → List ℕ → List (ℤ × ℕ)
tag price = map (λ k. (price, k))

-- The orders of a book: the best price first, and each price in the order of its queue.
abbrev pub ranking : Book → List (ℤ × ℕ)
ranking [] = []
ranking ((price, l) ∷ rest) = map (λ k. (price, k)) l.queue ++ ranking rest

-- The orders not served stay, behind the last order served if something of it is left.
abbrev pub IsKept : List FillEvent → List (ℤ × ℕ) → List (ℤ × ℕ) → Type 0
IsKept fills left kept =
    (kept ≡ left)
    ⊎ ((gone : List (ℤ × ℕ)) × (x : ℤ × ℕ) × (map maker_of fills ≡ gone ++ x ∷ [])
        × (kept ≡ x ∷ left))

-- The fills from `before` on are with the first of these orders; `kept` is what is then in the book.
abbrev pub IsServed :
    List FillEvent → List FillEvent → List (ℤ × ℕ) → List (ℤ × ℕ) → List (ℤ × ℕ) → Type 0
IsServed before after orders left kept =
    (new : List FillEvent) × (after ≡ before ++ new)
    × (orders ≡ map maker_of new ++ left)
    × IsKept new left kept

pub Served_nil : (fills : List FillEvent) (xs : List (ℤ × ℕ)) → IsServed fills fills xs xs xs
Served_nil fills xs = ([], sym (append-nil fills), refl, inl refl)

pub Served_cons :
    (before after : List FillEvent) (f : FillEvent) (xs left kept : List (ℤ × ℕ))
    → IsServed (before ++ f ∷ []) after xs left kept
    → IsServed before after (maker_of f ∷ xs) left kept
Served_cons before after f xs left kept (new, e, g, h) = (
  f ∷ new,
  e ∙ append_assoc before (f ∷ []) new,
  ap (λ ys. maker_of f ∷ ys) g,
  elim h [
    | inl same ↦ inl same
    | inr (gone, x, last, more) ↦ inr (maker_of f ∷ gone, x, ap (λ ys. maker_of f ∷ ys) last, more)
  ],
)

-- The last of these orders, of which something is left.
pub Served_part :
    (before after : List FillEvent) (f : FillEvent) (xs : List (ℤ × ℕ))
    → after ≡ before ++ f ∷ []
    → IsServed before after (maker_of f ∷ xs) xs (maker_of f ∷ xs)
Served_part before after f xs e = (f ∷ [], e, refl, inr ([], maker_of f, refl, refl))

pub Served-append :
    (a b c : List FillEvent) (xs ys zs kept none : List (ℤ × ℕ))
    → IsServed a b xs [] none
    → IsServed b c ys zs kept
    → IsServed a c (xs ++ ys) zs kept
Served-append a b c xs ys zs kept none (n, e, g, _) (m, f, h, k) = (
  n ++ m,
  f ∙ ap (λ l. l ++ m) e ∙ append_assoc a n m,
  rw (g, h, append-nil, map-append) (sym (append_assoc (map maker_of n) (map maker_of m) zs)),
  elim k [
    | inl same ↦ inl same
    | inr (gone, x, last, more) ↦ inr (
      map maker_of n ++ gone,
      x,
      rw (map-append, last) (sym (append_assoc (map maker_of n) gone (x ∷ []))),
      more,
    )
  ],
)

pub Served-stop :
    (a b : List FillEvent) (xs left kept ys : List (ℤ × ℕ))
    → IsServed a b xs left kept
    → IsServed a b (xs ++ ys) (left ++ ys) (kept ++ ys)
Served-stop a b xs left kept ys (n, e, g, k) = (
  n,
  e,
  rw g (append_assoc (map maker_of n) left ys),
  elim k [
    | inl same ↦ inl (ap (λ zs. zs ++ ys) same)
    | inr (gone, x, last, more) ↦ inr (gone, x, last, ap (λ zs. zs ++ ys) more)
  ],
)
