-- ===== src/Ingress/Limits.antt =====
-- How many requests the rate limit lets through.
use mmperp.Prelude.{
  ℕ, suc, ◌-◌, ◌≡◌, false, List, [], ◌∷◌, map, All, arith, leb, if◌then◌else◌, refl, sym, ap, ◌∙◌,
  subst,
}
use mmperp.Prelude.Int.{ℤ, pos, ◌-ℤ◌, ◌≤ℤ◌, ◌<ℤ◌}
use mmperp.Ingress.{
  MessageKind, new_order, cancel, replace, heartbeat, is_heartbeat, IngressConfig, AccountWindow,
  rolled, limited, rate_limit,
}
use mmperp.Ingress.Arrivals.{is_kind}

abbrev counter : MessageKind → AccountWindow → ℕ
counter new_order w = w.new_orders
counter cancel w = w.cancels
counter replace w = w.replaces
counter heartbeat w = 0

abbrev pub limit_of : MessageKind → IngressConfig → ℕ
limit_of new_order c = c.max_new_orders_per_second
limit_of cancel c = c.max_cancels_per_second
limit_of replace c = c.max_replaces_per_second
limit_of heartbeat c = 0

-- The requests of one account, with their times; the kinds of those that are let through.
unfoldable pub admitted : IngressConfig → AccountWindow → List (MessageKind × ℤ) → List MessageKind
unfolding rate_limit
admitted c w [] = []
admitted c w ((k, t) ∷ requests) =
    let (over, w') = rate_limit c w k t in
    let rest = admitted c w' requests in if over then rest else k ∷ rest

abbrev pub how_many : MessageKind → List MessageKind → ℕ
how_many j [] = 0
how_many j (k ∷ ks) = if is_kind j k then suc (how_many j ks) else how_many j ks

abbrev pub smaller : ℕ → ℕ → ℕ
smaller a b = if leb a b then a else b

-- One request in the window, and those after it.
abbrev Counts : IngressConfig → AccountWindow → MessageKind → List MessageKind → ℕ → Type 0
Counts c w j ks n = how_many j ks ≡ smaller (limit_of j c - counter j w) n

one_more :
    (c : IngressConfig) (w : AccountWindow) (j k : MessageKind) (rest : List MessageKind) (n : ℕ)
    → is_heartbeat j ≡ false
    → Counts c (limited c k w).1 j rest n
    → Counts c w j (if (limited c k w).0 then rest else k ∷ rest) (if is_kind j k then suc n else n)
unfolding limited
one_more c w new_order new_order rest n b h = ground arith
one_more c w new_order cancel rest n b h = ground arith
one_more c w new_order replace rest n b h = ground arith
one_more c w new_order heartbeat rest n b h = h
one_more c w cancel new_order rest n b h = ground arith
one_more c w cancel cancel rest n b h = ground arith
one_more c w cancel replace rest n b h = ground arith
one_more c w cancel heartbeat rest n b h = h
one_more c w replace new_order rest n b h = ground arith
one_more c w replace cancel rest n b h = ground arith
one_more c w replace replace rest n b h = ground arith
one_more c w replace heartbeat rest n b h = h
one_more c w heartbeat k rest n b h = absurd (cc)

window_start-limited :
    (c : IngressConfig) (k : MessageKind) (w : AccountWindow)
    → (limited c k w).1.window_start ≡ w.window_start
unfolding limited
window_start-limited c new_order w = ground arith
window_start-limited c cancel w = ground arith
window_start-limited c replace w = ground arith
window_start-limited c heartbeat w = refl

same_window : (w : AccountWindow) (t : ℤ) → t -ℤ w.window_start <ℤ pos 1000000000 → rolled w t ≡ w
unfolding rolled
same_window w t h = ground arith

next_window :
    (w : AccountWindow) (t : ℤ)
    → pos 1000000000 ≤ℤ t -ℤ w.window_start
    → rolled w t ≡ record { window_start = t; new_orders = 0; cancels = 0; replaces = 0 }
unfolding rolled
next_window w t h = ground arith

abbrev pub InSecond : ℤ → MessageKind × ℤ → Type 0
InSecond start (k, t) = t -ℤ start <ℤ pos 1000000000

abbrev pub kind_of : MessageKind × ℤ → MessageKind
kind_of (k, t) = k

in_window :
    (c : IngressConfig) (w : AccountWindow) (j : MessageKind) (requests : List (MessageKind × ℤ))
    → is_heartbeat j ≡ false
    → All (InSecond w.window_start) requests
    → Counts c w j (admitted c w requests) (how_many j (map kind_of requests))
unfolding admitted rate_limit
in_window c w j [] b h = ground arith
in_window c w j ((k, t) ∷ requests) b (h, hs) =
    let w' = (limited c k w).1 in
    let later =
      in_window c w' j requests b
        (subst (λ s. All (InSecond s) requests) (sym (window_start-limited c k w)) hs) in
    subst
      (λ v.
        Counts c w j
          (if (limited c k v).0
            then admitted c (limited c k v).1 requests
            else k ∷ admitted c (limited c k v).1 requests)
          (how_many j (map kind_of ((k, t) ∷ requests))))
      (sym (same_window w t h)) (one_more c w j k (admitted c w' requests) _ b later)

abbrev empty_window : ℤ → AccountWindow
empty_window t = record { window_start = t; new_orders = 0; cancels = 0; replaces = 0 }

all_room :
    (c : IngressConfig) (j : MessageKind) (t : ℤ)
    → limit_of j c - counter j (empty_window t) ≡ limit_of j c
all_room c new_order t = omega arith
all_room c cancel t = omega arith
all_room c replace t = omega arith
all_room c heartbeat t = omega arith

-- An account makes requests, the first at least a second after its window began, and the others less
-- than a second after that first one. Of each kind but heartbeats, as many are let through as there
-- are, up to the limit of the kind, and the others are refused.
pub how_many-admitted :
    (c : IngressConfig) (w : AccountWindow) (j k : MessageKind) (t : ℤ)
    (requests : List (MessageKind × ℤ))
    → is_heartbeat j ≡ false
    → pos 1000000000 ≤ℤ t -ℤ w.window_start
    → All (InSecond t) requests
    → how_many j (admitted c w ((k, t) ∷ requests))
      ≡ smaller (limit_of j c) (how_many j (k ∷ map kind_of requests))
unfolding admitted rate_limit
how_many-admitted c w j k t requests b first later =
    let v = empty_window t in
    let v' = (limited c k v).1 in
    let asked = how_many j (k ∷ map kind_of requests) in
    let rest =
      in_window c v' j requests b
        (subst (λ s. All (InSecond s) requests) (sym (window_start-limited c k v)) later) in
    subst
      (λ x.
        how_many j (
          if (limited c k x).0
          then admitted c (limited c k x).1 requests
          else k ∷ admitted c (limited c k x).1 requests)
        ≡ smaller (limit_of j c) asked)
      (sym (next_window w t first))
      (one_more c v j k (admitted c v' requests) _ b rest
        ∙ ap (λ n. smaller n asked) (all_room c j t))
