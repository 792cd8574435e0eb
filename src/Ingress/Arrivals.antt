-- ===== src/Ingress/Arrivals.antt =====
-- Which frames wait in the queues after a frame has been submitted.
use mmperp.Prelude.{
  ℕ, ◌+◌, ◌≡◌, inl, inr, refl, sym, ap, ◌∙◌, subst, Bool, true, false, List, [], ◌∷◌, ◌++◌,
  append-nil, length, ◌==◌, if◌then◌else◌, Bool-cases,
}
use mmperp.Common.Ring.{Ring, push}
use mmperp.Common.Ring.Refine.{Represents, queue_push, push-Represents}
use mmperp.Ingress.{
  MessageKind, new_order, cancel, replace, heartbeat, Frame, Queues, Pipeline, is_heartbeat,
  enqueue, finish, admit, check_rate, check_auth, refuses, submit_frame,
}

abbrev pub is_kind : MessageKind → MessageKind → Bool
is_kind new_order new_order = true
is_kind new_order _ = false
is_kind cancel cancel = true
is_kind cancel _ = false
is_kind replace replace = true
is_kind replace _ = false
is_kind heartbeat heartbeat = true
is_kind heartbeat _ = false

abbrev pub of_kind : MessageKind → List Frame → List Frame
of_kind k [] = []
of_kind k (f ∷ fs) = if is_kind k f.header.kind then f ∷ of_kind k fs else of_kind k fs

-- The frames in each of the three queues.
abbrev pub InQueues : Queues → List Frame → List Frame → List Frame → Type 0
InQueues q orders cancels replaces =
    Represents q.new_orders orders × Represents q.cancels cancels × Represents q.replaces replaces

-- The frame, if it is put in a queue. A heartbeat is accepted and put in none.
unfoldable pub queued_frames : Pipeline → Frame → List Frame
unfolding submit_frame
queued_frames p f =
    if is_heartbeat f.header.kind then [] else if (submit_frame p f).0 then f ∷ [] else []

-- Each frame is put at the end of the queue of its kind.
abbrev pub Adds : Queues → Queues → List Frame → Type 0
Adds q q' frames =
    (orders cancels replaces : List Frame)
    → InQueues q orders cancels replaces
    → InQueues q' (orders ++ of_kind new_order frames) (cancels ++ of_kind cancel frames)
        (replaces ++ of_kind replace frames)

Adds-nil : (q : Queues) → Adds q q []
Adds-nil q orders cancels replaces h =
    rw (append-nil orders, append-nil cancels, append-nil replaces) h

abbrev kept_if : Bool → Frame → List Frame
kept_if b f = if b then f ∷ [] else []

pushed-kept_if :
    (capacity : ℕ) (q : List Frame) (f : Frame)
    → (queue_push capacity q f).1 ≡ q ++ kept_if (queue_push capacity q f).0 f
unfolding queue_push
pushed-kept_if capacity q f = elim (Bool-cases (length q + 1 == capacity)) [
  | inl full ↦ rw full (sym (append-nil q))
  | inr free ↦ rw free refl
]

push-kept_if :
    (r : Ring Frame) (q : List Frame) (f : Frame)
    → Represents r q
    → Represents (push r f).1 (q ++ kept_if (push r f).0 f)
push-kept_if r q f h =
    let (answer, h') = push-Represents r q f h in
    subst (Represents (push r f).1)
      (pushed-kept_if r.capacity q f ∙ ap (λ b. q ++ kept_if b f) (sym answer)) h'

either_nil : (t : Bool) → ◌≡◌ {A = List Frame} [] (if t then [] else [])
either_nil true = refl
either_nil false = refl

of_kind-kept_if :
    (k j : MessageKind) (b : Bool) (f : Frame)
    → f.header.kind ≡ j
    → of_kind k (kept_if b f) ≡ (if is_kind k j then kept_if b f else [])
of_kind-kept_if k j true f e = ap (λ i. if is_kind k i then f ∷ [] else []) e
of_kind-kept_if k j false f e = either_nil (is_kind k j)

own_kind :
    (k j : MessageKind) (b : Bool) (f : Frame) (r : Ring Frame) (q : List Frame)
    → f.header.kind ≡ j
    → is_kind k j ≡ true
    → Represents r (q ++ kept_if b f)
    → Represents r (q ++ of_kind k (kept_if b f))
own_kind k j b f r q e t =
    subst (λ fs. Represents r (q ++ fs))
      (sym (of_kind-kept_if k j b f e ∙ ap (λ c. if c then kept_if b f else []) t))

other_kind :
    (k j : MessageKind) (b : Bool) (f : Frame) (r : Ring Frame) (q : List Frame)
    → f.header.kind ≡ j
    → is_kind k j ≡ false
    → Represents r q
    → Represents r (q ++ of_kind k (kept_if b f))
other_kind k j b f r q e t h =
    subst (Represents r)
      (sym (append-nil q)
        ∙ ap (λ fs. q ++ fs)
            (sym (of_kind-kept_if k j b f e ∙ ap (λ c. if c then kept_if b f else []) t)))
      h

-- The ring of one kind takes the frame, and the others get nothing.
enqueue-Adds :
    (j : MessageKind) (q : Queues) (f : Frame)
    → f.header.kind ≡ j
    → Adds q (enqueue j q f).1 (kept_if (enqueue j q f).0 f)
unfolding enqueue
enqueue-Adds new_order q f e orders cancels replaces (ho, hc, hr) =
    let b = (push q.new_orders f).0 in
    (
      own_kind new_order new_order b f _ orders e refl (push-kept_if q.new_orders orders f ho),
      other_kind cancel new_order b f _ cancels e refl hc,
      other_kind replace new_order b f _ replaces e refl hr,
    )
enqueue-Adds cancel q f e orders cancels replaces (ho, hc, hr) =
    let b = (push q.cancels f).0 in
    (
      other_kind new_order cancel b f _ orders e refl ho,
      own_kind cancel cancel b f _ cancels e refl (push-kept_if q.cancels cancels f hc),
      other_kind replace cancel b f _ replaces e refl hr,
    )
enqueue-Adds replace q f e orders cancels replaces (ho, hc, hr) =
    let b = (push q.replaces f).0 in
    (
      other_kind new_order replace b f _ orders e refl ho,
      other_kind cancel replace b f _ cancels e refl hc,
      own_kind replace replace b f _ replaces e refl (push-kept_if q.replaces replaces f hr),
    )
enqueue-Adds heartbeat q f e orders cancels replaces (ho, hc, hr) =
    Adds-nil q orders cancels replaces (ho, hc, hr)

-- What one call adds, by its answer.
abbrev Added : Pipeline → Frame → Bool × Pipeline → Type 0
Added p f x = Adds p.queues x.1.queues (kept_if x.0 f)

finish-Added :
    (p : Pipeline) (f : Frame) (x : Bool × Queues)
    → Adds p.queues x.1 (kept_if x.0 f)
    → Added p f (finish p x)
unfolding finish
finish-Added p f (true, q) h = h
finish-Added p f (false, q) h = h

admit-Added : (p : Pipeline) (f : Frame) (over : Bool) → Added p f (admit p f over)
unfolding admit
admit-Added p f true = Adds-nil p.queues
admit-Added p f false =
    finish-Added p f (enqueue f.header.kind p.queues f) (enqueue-Adds f.header.kind p.queues f refl)

Added-if :
    (b : Bool) (p : Pipeline) (f : Frame) (x y : Bool × Pipeline)
    → Added p f x
    → Added p f y
    → Added p f (if b then x else y)
Added-if true p f x y h k = h
Added-if false p f x y h k = k

check_auth-Added : (p : Pipeline) (f : Frame) → Added p f (check_auth p f)
unfolding check_auth check_rate
check_auth-Added p f =
    Added-if (refuses p.verifier f) p f _ _ (Adds-nil p.queues) (admit-Added _ f _)

-- A frame that is submitted is put, if at all, at the end of the queue of its kind, and the other
-- queues stay as they are.
pub submit_frame-Adds :
    (p : Pipeline) (f : Frame) → Adds p.queues (submit_frame p f).1.queues (queued_frames p f)
unfolding submit_frame queued_frames
submit_frame-Adds p f = elim (Bool-cases (is_heartbeat f.header.kind)) [
  | inl beat ↦ rw beat (Adds-nil p.queues)
  | inr other ↦ rw other (check_auth-Added p f)
]
