-- ===== src/Node/System/Kinds.antt =====
-- The frames of one kind: those that were put in its queue, in order, are those that were taken out of
-- it and those that wait.
use mmperp.Prelude.{
  ◌≡◌, inl, inr, refl, sym, ap, ◌∙◌, subst, true, false, some, List, [], ◌∷◌, ◌++◌, append-nil,
  append_assoc, All, if◌then◌else◌, Bool-cases,
}
use mmperp.Common.Ring.{Ring, pop}
use mmperp.Common.Ring.Refine.{Represents, queue_pop, pop-Represents}
use mmperp.Ingress.{MessageKind, new_order, cancel, replace, heartbeat, Frame}
use mmperp.Ingress.Arrivals.{is_kind, of_kind}

abbrev pub Balanced : MessageKind → List Frame → List Frame → List Frame → Type 0
Balanced k queued taken waiting = of_kind k queued ≡ of_kind k taken ++ waiting

pub of_kind-append :
    (k : MessageKind) (xs ys : List Frame) → of_kind k (xs ++ ys) ≡ of_kind k xs ++ of_kind k ys
of_kind-append k [] ys = refl
of_kind-append k (x ∷ xs) ys = elim (Bool-cases (is_kind k x.header.kind)) [
  | inl same ↦ rw same (ap (λ t. x ∷ t) (of_kind-append k xs ys))
  | inr other ↦ rw other (of_kind-append k xs ys)
]

abbrev IsOf : MessageKind → Frame → Type 0
IsOf k f = is_kind k f.header.kind ≡ true

of_kind-IsOf : (k : MessageKind) (xs : List Frame) → All (IsOf k) (of_kind k xs)
of_kind-IsOf k [] = tt
of_kind-IsOf k (x ∷ xs) = elim (Bool-cases (is_kind k x.header.kind)) [
  | inl same ↦ rw same (same, of_kind-IsOf k xs)
  | inr other ↦ rw other (of_kind-IsOf k xs)
]

All-later {ℓ κ} : {A : Type ℓ} (P : A → Type κ) (xs ys : List A) → All P (xs ++ ys) → All P ys
All-later P [] ys h = h
All-later P (x ∷ xs) ys h = All-later P xs ys h.1

kind_lem : (k j : MessageKind) → is_kind k j ≡ true → j ≡ k
kind_lem new_order new_order h = refl
kind_lem new_order cancel h = cc
kind_lem new_order replace h = cc
kind_lem new_order heartbeat h = cc
kind_lem cancel new_order h = cc
kind_lem cancel cancel h = refl
kind_lem cancel replace h = cc
kind_lem cancel heartbeat h = cc
kind_lem replace new_order h = cc
kind_lem replace cancel h = cc
kind_lem replace replace h = refl
kind_lem replace heartbeat h = cc
kind_lem heartbeat new_order h = cc
kind_lem heartbeat cancel h = cc
kind_lem heartbeat replace h = cc
kind_lem heartbeat heartbeat h = refl

waiting-IsOf :
    (k : MessageKind) (queued taken q : List Frame) (f : Frame)
    → Balanced k queued taken (f ∷ q)
    → IsOf k f
waiting-IsOf k queued taken q f h =
    (All-later (IsOf k) (of_kind k taken) (f ∷ q)
      (subst (All (IsOf k)) h (of_kind-IsOf k queued))).0

-- A frame that waits in the queue of a kind is of this kind.
pub waiting_kind :
    (k : MessageKind) (queued taken q : List Frame) (f : Frame)
    → Balanced k queued taken (f ∷ q)
    → f.header.kind ≡ k
waiting_kind k queued taken q f h = kind_lem k f.header.kind (waiting-IsOf k queued taken q f h)

pub Balanced-queue :
    (k : MessageKind) (queued taken waiting fs : List Frame)
    → Balanced k queued taken waiting
    → Balanced k (queued ++ fs) (taken ++ []) (waiting ++ of_kind k fs)
Balanced-queue k queued taken waiting fs h = rw (append-nil taken) (
    of_kind-append k queued fs
    ∙ ap (λ t. t ++ of_kind k fs) h
    ∙ append_assoc (of_kind k taken) waiting (of_kind k fs))

single_own : (k : MessageKind) (f : Frame) → IsOf k f → of_kind k (f ∷ []) ≡ f ∷ []
single_own k f own = rw own refl

single_other :
    (k j : MessageKind) (f : Frame)
    → f.header.kind ≡ j
    → is_kind k j ≡ false
    → of_kind k (f ∷ []) ≡ []
single_other k j f e other =
    ap (λ i. if is_kind k i then f ∷ [] else []) e ∙ ap (λ b. if b then f ∷ [] else []) other

pub Balanced-take :
    (k : MessageKind) (queued taken waiting : List Frame) (f : Frame)
    → Balanced k queued taken (f ∷ waiting)
    → Balanced k (queued ++ []) (taken ++ f ∷ []) waiting
Balanced-take k queued taken waiting f h =
    let own = waiting-IsOf k queued taken waiting f h in
    rw (append-nil queued) (
      h
      ∙ sym (append_assoc (of_kind k taken) (f ∷ []) waiting)
      ∙ ap (λ t. t ++ waiting)
          (ap (λ t. of_kind k taken ++ t) (sym (single_own k f own))
            ∙ sym (of_kind-append k taken (f ∷ []))))

pub Balanced-other :
    (k j : MessageKind) (queued taken waiting : List Frame) (f : Frame)
    → f.header.kind ≡ j
    → is_kind k j ≡ false
    → Balanced k queued taken waiting
    → Balanced k (queued ++ []) (taken ++ f ∷ []) waiting
Balanced-other k j queued taken waiting f e other h = rw (append-nil queued) (
    h
    ∙ ap (λ t. t ++ waiting)
        (sym (append-nil (of_kind k taken))
          ∙ ap (λ t. of_kind k taken ++ t) (sym (single_other k j f e other))
          ∙ sym (of_kind-append k taken (f ∷ []))))

some_eq : {A : Type 0} (x y : A) → some x ≡ some y → x ≡ y
some_eq x y h = cc

-- What a pop finds.
pub popped :
    {r : Ring Frame} (q : List Frame) {f : Frame}
    → Represents r q
    → (pop r).0 ≡ some f
    → (rest : List Frame) × (q ≡ f ∷ rest) × Represents (pop r).1 rest
unfolding queue_pop
popped {r} [] h e = let (answer, h') = pop-Represents r [] h in absurd (cc)
popped {r} (x ∷ q) {f} h e =
    let (answer, h') = pop-Represents r (x ∷ q) h in
    (q, ap (λ y. y ∷ q) (some_eq x f (sym answer ∙ e)), h')
