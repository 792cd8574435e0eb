-- ===== src/Common/Ring/Refine.antt =====
-- The ring behaves as a bounded queue.
use mathlib.Core.Path.{ap₂}
use native.Mathlib.Nat.{mod-add-mod, mod-eq_of_lt, mod-eq-sub-mod, add-zero}
use native.Mathlib.Decide.{dec_lt}
use mmperp.Prelude.{
  ℕ, suc, ◌+◌, ◌-◌, ◌%◌, ◌≤◌, ◌<◌, ◌≡◌, ◌≢◌, inl, inr, refl, sym, ap, ◌∙◌, subst, Bool, true, false,
  Option, none, some, List, [], ◌∷◌, ◌++◌, arith, Store, insert, erase, insert_self, insert_ne,
  erase_ne, length, length-append, ◌==◌, if◌then◌else◌, Bool-cases,
}
use mmperp.Common.Ring.{Ring, push, pop, new_ring}

-- A queue with room for one element less than the capacity, the oldest first.
unfoldable pub queue_push {ℓ} : {A : Type ℓ} → ℕ → List A → A → Bool × List A
queue_push capacity q v = if length q + 1 == capacity then (false, q) else (true, q ++ v ∷ [])

unfoldable pub queue_pop {ℓ} : {A : Type ℓ} → List A → Option A × List A
queue_pop [] = (none, [])
queue_pop (v ∷ q) = (some v, q)

-- Fewer steps than the capacity do not come back to the start, and as many do.
steps_ne : (capacity i k : ℕ) → i < capacity → suc k < capacity → (i + suc k) % capacity ≢ i
steps_ne capacity i k h l = elim (dec_lt (i + suc k) capacity) [
  | yes p ↦ omega (arith, mod-eq_of_lt p)
  | no p ↦ omega (
    arith,
    mod-eq-sub-mod {n = i + suc k} {m = capacity} (omega arith),
    mod-eq_of_lt {n = i + suc k - capacity} {m = capacity} (omega arith),
  )
]

steps_round : (capacity i k : ℕ) → i < capacity → suc k ≡ capacity → (i + suc k) % capacity ≡ i
steps_round capacity i k h e = omega (
  arith,
  mod-eq-sub-mod {n = i + suc k} {m = capacity} (omega arith),
  mod-eq_of_lt {n = i + suc k - capacity} {m = capacity} (omega arith),
)

step_on : (capacity i k : ℕ) → ((i + 1) % capacity + k) % capacity ≡ (i + suc k) % capacity
step_on capacity i k = rw mod-add-mod (ap (λ n. n % capacity) (omega arith))

next_step : (capacity i k : ℕ) → ((i + k) % capacity + 1) % capacity ≡ (i + suc k) % capacity
next_step capacity i k = rw mod-add-mod (ap (λ n. n % capacity) (omega arith))

eq_test : (a b : ℕ) → a ≡ b → (a == b) ≡ true
eq_test a b h = ground arith

ne_test : (a b : ℕ) → a ≢ b → (a == b) ≡ false
ne_test a b h = ground arith

fits : (n capacity : ℕ) → n < capacity → (n + 1 == capacity) ≡ false → suc n < capacity
fits n capacity h e = ground arith

module _ {ℓ} {A : Type ℓ} where
  -- The elements stand in the slots from the index on.
  abbrev pub Stored : Store A → ℕ → ℕ → List A → Type ℓ
  Stored buffer capacity i [] = Unit
  Stored buffer capacity i (v ∷ q) =
      (buffer i ≡ some v) × Stored buffer capacity ((i + 1) % capacity) q

  pub record Represents (r : Ring A) (q : List A) : Type ℓ where
    pub room : length q < r.capacity
    pub tail_in : r.tail < r.capacity
    pub head_lem : r.head ≡ (r.tail + length q) % r.capacity
    pub slots : Stored r.buffer r.capacity r.tail q

  Stored-insert :
      (buffer : Store A) (capacity i j : ℕ) (q : List A) (v : A)
      → i < capacity
      → length q < capacity
      → j ≡ (i + length q) % capacity
      → Stored buffer capacity i q
      → Stored (insert j v buffer) capacity i (q ++ v ∷ [])
  Stored-insert buffer capacity i j [] v hi hq e s =
      let same : j ≡ i = rw (e, add-zero) (mod-eq_of_lt hi) in
      (subst (λ k. insert k v buffer i ≡ some v) (sym same) (insert_self i v buffer), tt)
  Stored-insert buffer capacity i j (x ∷ q) v hi hq e (sx, sq) = (
    insert_ne j i v buffer (λ p. steps_ne capacity i (length q) hi hq (sym (p ∙ e))) ∙ sx,
    Stored-insert buffer capacity ((i + 1) % capacity) j q v (omega arith) (omega arith)
        (e ∙ sym (step_on capacity i (length q))) sq,
  )

  Stored-erase :
      (buffer : Store A) (capacity t k i : ℕ) (q : List A)
      → t < capacity
      → i ≡ (t + suc k) % capacity
      → suc k + length q ≤ capacity
      → Stored buffer capacity i q
      → Stored (erase t buffer) capacity i q
  Stored-erase buffer capacity t k i [] ht e l s = tt
  Stored-erase buffer capacity t k i (x ∷ q) ht e l (sx, sq) = (
    erase_ne t i buffer (λ p. steps_ne capacity t k ht (omega arith) (sym e ∙ p)) ∙ sx,
    Stored-erase buffer capacity t (suc k) ((i + 1) % capacity) q ht
        (ap (λ n. (n + 1) % capacity) e ∙ next_step capacity t (suc k)) (omega arith) sq,
  )

  advanced :
      (r : Ring A) (q : List A)
      → Represents r q
      → (r.head + 1) % r.capacity ≡ (r.tail + suc (length q)) % r.capacity
  advanced r q h =
      ap (λ n. (n + 1) % r.capacity) h.head_lem ∙ next_step r.capacity r.tail (length q)

  pushed :
      (r : Ring A) (q : List A) (v : A)
      → Represents r q
      → suc (length q) < r.capacity
      → Represents
          (record r { buffer = insert r.head v r.buffer; head = (r.head + 1) % r.capacity })
          (q ++ v ∷ [])
  pushed r q v h room =
      let longer : length (q ++ v ∷ []) ≡ suc (length q) =
        omega (arith, length-append q (v ∷ [])) in
      record {
        room = omega (arith, longer);
        tail_in = h.tail_in;
        head_lem = advanced r q h ∙ ap (λ n. (r.tail + n) % r.capacity) (sym longer);
        slots =
            Stored-insert r.buffer r.capacity r.tail r.head q v h.tail_in h.room h.head_lem h.slots;
      }

  popped :
      (r : Ring A) (v : A) (q : List A)
      → Represents r (v ∷ q)
      → Represents (record r { buffer = erase r.tail r.buffer; tail = (r.tail + 1) % r.capacity }) q
  popped r v q h = record {
    room = omega (arith, h.room);
    tail_in = omega (arith, h.tail_in);
    head_lem = h.head_lem ∙ sym (step_on r.capacity r.tail (length q));
    slots =
        Stored-erase r.buffer r.capacity r.tail 0 ((r.tail + 1) % r.capacity) q h.tail_in refl
          (omega (arith, h.room)) h.slots.1;
  }

  -- Pushing on a ring that represents a queue answers as the queue does, and leaves a ring that
  -- represents the new queue.
  pub push-Represents :
      (r : Ring A) (q : List A) (v : A)
      → Represents r q
      → ((push r v).0 ≡ (queue_push r.capacity q v).0)
        × Represents (push r v).1 (queue_push r.capacity q v).1
  unfolding push queue_push
  push-Represents r q v h = elim (Bool-cases (length q + 1 == r.capacity)) [
    | inl full ↦
        let back : (r.head + 1) % r.capacity ≡ r.tail =
          advanced r q h ∙ steps_round r.capacity r.tail (length q) h.tail_in (ground arith) in
        rw (eq_test _ _ back, full) (refl, h)
    | inr free ↦
        let room : suc (length q) < r.capacity = fits (length q) r.capacity h.room free in
        let ahead : (r.head + 1) % r.capacity ≢ r.tail =
          λ e. steps_ne r.capacity r.tail (length q) h.tail_in room (sym (advanced r q h) ∙ e) in
        rw (ne_test _ _ ahead, free) (refl, pushed r q v h room)
  ]

  pub pop-Represents :
      (r : Ring A) (q : List A)
      → Represents r q
      → ((pop r).0 ≡ (queue_pop q).0) × Represents (pop r).1 (queue_pop q).1
  unfolding pop queue_pop
  pop-Represents r [] h =
      let same : r.tail ≡ r.head = sym (rw (h.head_lem, add-zero) (mod-eq_of_lt h.tail_in)) in
      rw (eq_test _ _ same) (refl, h)
  pop-Represents r (v ∷ q) h =
      let apart : r.tail ≢ r.head =
        λ e. steps_ne r.capacity r.tail (length q) h.tail_in h.room (sym (e ∙ h.head_lem)) in
      rw (ne_test _ _ apart) (h.slots.0, popped r v q h)

  -- Nothing changes at an empty ring.
  pub pop-nil : (r : Ring A) → Represents r [] → pop r ≡ (none, r)
  unfolding pop
  pop-nil r h =
      let same : r.tail ≡ r.head = sym (rw (h.head_lem, add-zero) (mod-eq_of_lt h.tail_in)) in
      rw (eq_test _ _ same) refl

  pub new_ring-Represents : (capacity : ℕ) → 0 < capacity → Represents (new_ring capacity) []
  new_ring-Represents capacity h = record {
    room = h;
    tail_in = h;
    head_lem = sym (rw add-zero (mod-eq_of_lt h));
    slots = tt;
  }

  -- A client's calls in turn, and what each returns: whether it was pushed, or what was popped.
  unfoldable pub run_ring : Ring A → List (Option A) → List (Bool × Option A)
  unfolding push pop
  run_ring r [] = []
  run_ring r (some v ∷ calls) = let (pushed, r') = push r v in (pushed, none) ∷ run_ring r' calls
  run_ring r (none ∷ calls) = let (out, r') = pop r in (true, out) ∷ run_ring r' calls

  unfoldable pub run_queue : ℕ → List A → List (Option A) → List (Bool × Option A)
  run_queue capacity q [] = []
  run_queue capacity q (some v ∷ calls) =
      let (pushed, q') = queue_push capacity q v in (pushed, none) ∷ run_queue capacity q' calls
  run_queue capacity q (none ∷ calls) =
      let (out, q') = queue_pop q in (true, out) ∷ run_queue capacity q' calls

  capacity-push : (r : Ring A) (v : A) → (push r v).1.capacity ≡ r.capacity
  unfolding push
  capacity-push r v = ground arith

  capacity-pop : (r : Ring A) → (pop r).1.capacity ≡ r.capacity
  unfolding pop
  capacity-pop r = ground arith

  run_represented :
      (r : Ring A) (q : List A) (calls : List (Option A))
      → Represents r q
      → run_ring r calls ≡ run_queue r.capacity q calls
  unfolding run_ring run_queue
  run_represented r q [] h = refl
  run_represented r q (some v ∷ calls) h =
      let (answer, h') = push-Represents r q v h in
      ap₂ (λ a rest. (a, none) ∷ rest) answer
        (run_represented (push r v).1 (queue_push r.capacity q v).1 calls h'
          ∙ ap (λ n. run_queue n (queue_push r.capacity q v).1 calls) (capacity-push r v))
  run_represented r q (none ∷ calls) h =
      let (answer, h') = pop-Represents r q h in
      ap₂ (λ a rest. (true, a) ∷ rest) answer
        (run_represented (pop r).1 (queue_pop q).1 calls h'
          ∙ ap (λ n. run_queue n (queue_pop q).1 calls) (capacity-pop r))

  -- No sequence of pushes and pops tells a new ring from a queue with room for one element less than
  -- the capacity.
  pub run_ring-run_queue :
      (capacity : ℕ) (calls : List (Option A))
      → 0 < capacity
      → run_ring (new_ring capacity) calls ≡ run_queue capacity [] calls
  run_ring-run_queue capacity calls h =
      run_represented (new_ring capacity) [] calls (new_ring-Represents capacity h)
