-- ===== src/Ingress/Refusals.antt =====
-- What a refused frame leaves behind.
use mmperp.Prelude.{◌≡◌, refl, sym, ◌∙◌, ap, arith, true, false, Bool, if◌then◌else◌}
use mmperp.Common.Ring.{Ring, push}
use mmperp.Ingress.{
  MessageKind, new_order, cancel, replace, heartbeat, Frame, Queues, Pipeline, enqueue, finish,
  admit, check_rate, check_auth, submit_frame, refuses, is_heartbeat,
}

push_refused : {A : Type 0} → (r : Ring A) (v : A) → (push r v).0 ≡ false → (push r v).1 ≡ r
unfolding push
push_refused r v h = grind arith

enqueue_refused :
    (k : MessageKind) (q : Queues) (f : Frame) → (enqueue k q f).0 ≡ false → (enqueue k q f).1 ≡ q
unfolding enqueue
enqueue_refused new_order q f h =
    ap (λ x. record q { new_orders = x }) (push_refused q.new_orders f h)
enqueue_refused cancel q f h = ap (λ x. record q { cancels = x }) (push_refused q.cancels f h)
enqueue_refused replace q f h = ap (λ x. record q { replaces = x }) (push_refused q.replaces f h)
enqueue_refused heartbeat q f h = refl

finish_answer : (p : Pipeline) (x : Bool × Queues) → (finish p x).0 ≡ x.0
unfolding finish
finish_answer p (true, q) = refl
finish_answer p (false, q) = refl

finish_queues : (p : Pipeline) (x : Bool × Queues) → (finish p x).1.queues ≡ x.1
unfolding finish
finish_queues p (true, q) = refl
finish_queues p (false, q) = refl

admit_refused :
    (p : Pipeline) (f : Frame) (over : Bool)
    → (admit p f over).0 ≡ false
    → (admit p f over).1.queues ≡ p.queues
unfolding admit
admit_refused p f true h = refl
admit_refused p f false h =
    let x = enqueue f.header.kind p.queues f in
    finish_queues p x ∙ enqueue_refused f.header.kind p.queues f (sym (finish_answer p x) ∙ h)

refused_if :
    (b : Bool) (p : Pipeline) (x y : Bool × Pipeline)
    → (x.0 ≡ false → x.1.queues ≡ p.queues)
    → (y.0 ≡ false → y.1.queues ≡ p.queues)
    → (if b then x else y).0 ≡ false
    → (if b then x else y).1.queues ≡ p.queues
refused_if true p x y h k = h
refused_if false p x y h k = k

rate_refused :
    (p : Pipeline) (f : Frame) → (check_rate p f).0 ≡ false → (check_rate p f).1.queues ≡ p.queues
unfolding check_rate
rate_refused p f h = admit_refused _ f _ h

auth_refused :
    (p : Pipeline) (f : Frame) → (check_auth p f).0 ≡ false → (check_auth p f).1.queues ≡ p.queues
unfolding check_auth
auth_refused p f = refused_if (refuses p.verifier f) p _ _ (λ h. refl) (rate_refused p f)

-- A frame that is refused, whichever check refuses it, leaves the three queues as they were.
pub submit_frame_refused :
    (p : Pipeline) (f : Frame)
    → (submit_frame p f).0 ≡ false
    → (submit_frame p f).1.queues ≡ p.queues
unfolding submit_frame
submit_frame_refused p f =
    refused_if (is_heartbeat f.header.kind) p _ _ (λ h. refl) (auth_refused p f)
