-- ===== src/Api/Buffers.antt =====
-- The router's buffers hold the latest entries.
use mmperp.Prelude.{
  ℕ, zero, suc, ◌+◌, ◌-◌, ◌≤◌, ◌<◌, ◌≡◌, inl, inr, refl, sym, ap, ◌∙◌, false, List, [], ◌∷◌, ◌++◌,
  append-nil, append_assoc, arith, length, length-append, length-drop, drop, ltb, leb, ◌==◌,
  Bool-cases,
}
use mmperp.Api.{
  ApiRouter, ExpressFeedFrame, new_router, at_least_one, push_express_feed_frame, evict,
  push_with_fifo_eviction,
}

module _ {ℓ} {A : Type ℓ} where
  unfoldable pub push_all : List A → ℕ → List A → List A
  push_all buffer capacity [] = buffer
  push_all buffer capacity (v ∷ vs) =
      push_all (push_with_fifo_eviction buffer capacity v) capacity vs

  evict-drop :
      (capacity : ℕ) (xs : List A)
      → 0 < capacity
      → evict capacity xs ≡ drop (length xs + 1 - capacity) xs
  unfolding evict
  evict-drop capacity [] h = let e : 0 + 1 - capacity ≡ 0 = omega arith in rw e
  evict-drop capacity (x ∷ xs) h = elim (Bool-cases (leb capacity (suc (length xs)))) [
    | inl over ↦
        let e : suc (length xs) + 1 - capacity ≡ suc (length xs + 1 - capacity) = ground arith in
        rw (over, e) (evict-drop capacity xs h)
    | inr fits ↦ let e : suc (length xs) + 1 - capacity ≡ 0 = ground arith in rw (fits, e)
  ]

  -- The last entries of a list, as many as the capacity has room for.
  abbrev pub latest_of : ℕ → List A → List A
  latest_of capacity xs = drop (length xs - capacity) xs

  drop_next : (n : ℕ) (xs : List A) → drop 1 (drop n xs) ≡ drop (suc n) xs
  drop_next zero xs = refl
  drop_next (suc n) [] = refl
  drop_next (suc n) (x ∷ xs) = drop_next n xs

  drop_snoc :
      (n : ℕ) (xs : List A) (v : A) → n ≤ length xs → drop n (xs ++ v ∷ []) ≡ drop n xs ++ v ∷ []
  drop_snoc zero xs v h = refl
  drop_snoc (suc n) [] v h = absurd (omega arith)
  drop_snoc (suc n) (x ∷ xs) v h = drop_snoc n xs v (omega arith)

  room_made :
      (capacity : ℕ) (h : List A)
      → 0 < capacity
      → drop (length (latest_of capacity h) + 1 - capacity) (latest_of capacity h)
        ≡ drop (length h + 1 - capacity) h
  room_made capacity h p = elim (Bool-cases (ltb (length h) capacity)) [
    | inl below ↦ let e : length h - capacity ≡ 0 = ground arith in rw e
    | inr full ↦
        let e : length (drop (length h - capacity) h) + 1 - capacity ≡ 1 =
          ground (arith, length-drop (length h - capacity) h) in
        let e' : length h + 1 - capacity ≡ suc (length h - capacity) = ground arith in
        rw (e, e') (drop_next (length h - capacity) h)
  ]

  -- One push, on the last entries of a history.
  pushed :
      (capacity : ℕ) (h : List A) (v : A)
      → 0 < capacity
      → push_with_fifo_eviction (latest_of capacity h) capacity v ≡ latest_of capacity (h ++ v ∷ [])
  unfolding push_with_fifo_eviction
  pushed capacity h v pos =
      let on : (capacity == 0) ≡ false = ground arith in
      let kept = latest_of capacity h in
      let longer : length (h ++ v ∷ []) ≡ length h + 1 = omega (arith, length-append h (v ∷ [])) in
      rw (on, evict-drop capacity kept pos, longer)
        (ap (λ t. t ++ v ∷ []) (room_made capacity h pos)
          ∙ sym (drop_snoc (length h + 1 - capacity) h v (omega arith)))

  pushed_all :
      (capacity : ℕ) (h vs : List A)
      → 0 < capacity
      → push_all (latest_of capacity h) capacity vs ≡ latest_of capacity (h ++ vs)
  unfolding push_all
  pushed_all capacity h [] p = ap (latest_of capacity) (sym (append-nil h))
  pushed_all capacity h (v ∷ vs) p =
      ap (λ b. push_all b capacity vs) (pushed capacity h v p)
      ∙ pushed_all capacity (h ++ v ∷ []) vs p
      ∙ ap (latest_of capacity) (append_assoc h (v ∷ []) vs)

-- Frames and trades that are pushed in turn.
unfoldable pub push_frames : ApiRouter → List ExpressFeedFrame → ApiRouter
unfolding push_express_feed_frame
push_frames r [] = r
push_frames r (f ∷ fs) = push_frames (push_express_feed_frame r f) fs

frames_pushed :
    (r : ApiRouter) (fs : List ExpressFeedFrame)
    → (push_frames r fs).express_feed_frames
      ≡ push_all r.express_feed_frames r.express_feed_capacity fs
unfolding push_frames push_express_feed_frame push_all
frames_pushed r [] = refl
frames_pushed r (f ∷ fs) = frames_pushed (push_express_feed_frame r f) fs

-- Whatever frames are pushed on a new router, its buffer holds the latest of them, in order, as many as
-- its capacity has room for, where a capacity of 0 counts as 1.
pub push_frames-latest_of :
    (feed trades : ℕ) (fs : List ExpressFeedFrame)
    → (push_frames (new_router feed trades) fs).express_feed_frames
      ≡ latest_of (at_least_one feed) fs
unfolding new_router
push_frames-latest_of feed trades fs =
    frames_pushed (new_router feed trades) fs
    ∙ ap (λ b. push_all b (at_least_one feed) fs) (sym (none_yet (at_least_one feed)))
    ∙ pushed_all (at_least_one feed) [] fs (ground arith)
  where
    none_yet : (n : ℕ) → latest_of {A = ExpressFeedFrame} n [] ≡ []
    none_yet n = let e : 0 - n ≡ 0 = omega arith in rw e
