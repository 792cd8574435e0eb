-- ===== src/Ingress.antt =====
-- libs/ingest/src/ingress_pipeline.cpp: admission of frames, and their queues. The verifier is the
-- caller's, or none.
pub mod Messages
mod Codec
pub mod Arrivals
mod Limits
mod Refusals
mod Tests
use mmperp.Prelude.{
  ℕ, ◌+◌, ◌-◌, ◌%◌, ◌^◌, Bool, true, false, not, Option, none, some, List, ◌>>=◌, Store, vacant,
  insert, leb, if◌then◌else◌,
}
use mmperp.Prelude.Int.{ℤ, pos, ◌-ℤ◌, leb_ℤ}
use mmperp.Common.Ring.{Ring, new_ring, make_ring, push, pop}

pub data MessageKind : Type 0 where
  new_order cancel replace heartbeat : MessageKind

pub record FrameHeader : Type 0 where
  pub account : ℕ
  pub nonce : ℕ
  pub received_time_ns : ℤ
  pub priority : ℕ
  pub kind : MessageKind

-- A frame; the copy that owns its payload is equal to it.
pub record Frame : Type 0 where
  pub header : FrameHeader
  pub payload : List ℕ

pub record IngressConfig : Type 0 where
  pub new_order_queue_depth : ℕ
  pub cancel_queue_depth : ℕ
  pub replace_queue_depth : ℕ
  pub max_new_orders_per_second : ℕ
  pub max_cancels_per_second : ℕ
  pub max_replaces_per_second : ℕ

pub record Stats : Type 0 where
  pub accepted : ℕ
  pub rejected_auth : ℕ
  pub rejected_rate_limit : ℕ
  pub rejected_queue_full : ℕ
  pub dropped_heartbeats : ℕ

pub record AccountWindow : Type 0 where
  pub window_start : ℤ
  pub new_orders : ℕ
  pub cancels : ℕ
  pub replaces : ℕ

abbrev pub new_window : AccountWindow
new_window = record { window_start = pos 0; new_orders = 0; cancels = 0; replaces = 0 }

abbrev pub no_stats : Stats
no_stats = record {
  accepted = 0;
  rejected_auth = 0;
  rejected_rate_limit = 0;
  rejected_queue_full = 0;
  dropped_heartbeats = 0;
}

pub record Queues : Type 0 where
  pub new_orders : Ring Frame
  pub cancels : Ring Frame
  pub replaces : Ring Frame

pub record Pipeline : Type 0 where
  pub config : IngressConfig
  pub verifier : Option (FrameHeader → List ℕ → Bool)
  pub stats : Stats
  pub rate_windows : Store AccountWindow
  pub queues : Queues

-- Nothing has been submitted yet.
abbrev pub configured :
    IngressConfig
    → Option (FrameHeader → List ℕ → Bool)
    → Ring Frame
    → Ring Frame
    → Ring Frame
    → Pipeline
configured c v new_orders cancels replaces = record {
  config = c;
  verifier = v;
  stats = no_stats;
  rate_windows = vacant;
  queues = record { new_orders = new_orders; cancels = cancels; replaces = replaces };
}

abbrev pub default_config : IngressConfig
default_config = record {
  new_order_queue_depth = 2 ^ 12;
  cancel_queue_depth = 2 ^ 12;
  replace_queue_depth = 2 ^ 12;
  max_new_orders_per_second = 10000;
  max_cancels_per_second = 20000;
  max_replaces_per_second = 20000;
}

-- Before it is configured, with no verifier.
abbrev pub new_pipeline : Pipeline
new_pipeline =
    configured default_config none (new_ring (2 ^ 12)) (new_ring (2 ^ 12)) (new_ring (2 ^ 12))

-- `none` stands for the exception of a ring's constructor.
unfoldable pub configure : IngressConfig → Option (FrameHeader → List ℕ → Bool) → Option Pipeline
unfolding make_ring
configure c v = do
  new_orders ← make_ring c.new_order_queue_depth
  cancels ← make_ring c.cancel_queue_depth
  replaces ← make_ring c.replace_queue_depth
  some (configured c v new_orders cancels replaces)

-- A counter of 64 bits.
abbrev pub count : ℕ → ℕ
count n = (n + 1) % 2 ^ 64

unfoldable pub rolled : AccountWindow → ℤ → AccountWindow
rolled w timestamp =
    if leb_ℤ (pos 1000000000) (timestamp -ℤ w.window_start)
    then record { window_start = timestamp; new_orders = 0; cancels = 0; replaces = 0 }
    else w

-- A limited request leaves its counter as it is. The limits are numbers of 32 bits, so that a
-- counter below its limit does not wrap.
unfoldable pub limited : IngressConfig → MessageKind → AccountWindow → Bool × AccountWindow
limited c new_order w =
    if leb c.max_new_orders_per_second w.new_orders
    then (true, w)
    else (false, record w { new_orders = w.new_orders + 1 })
limited c cancel w =
    if leb c.max_cancels_per_second w.cancels
    then (true, w)
    else (false, record w { cancels = w.cancels + 1 })
limited c replace w =
    if leb c.max_replaces_per_second w.replaces
    then (true, w)
    else (false, record w { replaces = w.replaces + 1 })
limited c heartbeat w = (false, w)

unfoldable pub rate_limit : IngressConfig → AccountWindow → MessageKind → ℤ → Bool × AccountWindow
unfolding limited rolled
rate_limit c w kind timestamp = limited c kind (rolled w timestamp)

abbrev pub refuses : Option (FrameHeader → List ℕ → Bool) → Frame → Bool
refuses none f = false
refuses (some v) f = not (v f.header f.payload)

abbrev pub or_window : Option AccountWindow → AccountWindow
or_window none = new_window
or_window (some w) = w

unfoldable pub enqueue : MessageKind → Queues → Frame → Bool × Queues
enqueue new_order q f =
    let (pushed, ring) = push q.new_orders f in (pushed, record q { new_orders = ring })
enqueue cancel q f = let (pushed, ring) = push q.cancels f in (pushed, record q { cancels = ring })
enqueue replace q f =
    let (pushed, ring) = push q.replaces f in (pushed, record q { replaces = ring })
enqueue heartbeat q f = (false, q)

abbrev pub with_stats : Pipeline → Stats → Pipeline
with_stats p s = record p { stats = s }

unfoldable pub finish : Pipeline → Bool × Queues → Bool × Pipeline
finish p (true, q) =
    (true, record p { queues = q; stats = record p.stats { accepted = count p.stats.accepted } })
finish p (false, q) = (
  false,
  record p {
    queues = q;
    stats = record p.stats { rejected_queue_full = count p.stats.rejected_queue_full };
  },
)

unfoldable pub admit : Pipeline → Frame → Bool → Bool × Pipeline
unfolding finish enqueue
admit p f true = (
  false,
  with_stats p (record p.stats { rejected_rate_limit = count p.stats.rejected_rate_limit }),
)
admit p f false = finish p (enqueue f.header.kind p.queues f)

unfoldable pub check_rate : Pipeline → Frame → Bool × Pipeline
unfolding admit rate_limit
check_rate p f =
    let w = or_window (p.rate_windows f.header.account) in
    let (over, w') = rate_limit p.config w f.header.kind f.header.received_time_ns in
    admit (record p { rate_windows = insert f.header.account w' p.rate_windows }) f over

unfoldable pub check_auth : Pipeline → Frame → Bool × Pipeline
unfolding check_rate
check_auth p f =
    if refuses p.verifier f
    then (false, with_stats p (record p.stats { rejected_auth = count p.stats.rejected_auth }))
    else check_rate p f

abbrev pub is_heartbeat : MessageKind → Bool
is_heartbeat heartbeat = true
is_heartbeat _ = false

unfoldable pub submit_frame : Pipeline → Frame → Bool × Pipeline
unfolding check_auth
submit_frame p f =
    if is_heartbeat f.header.kind
    then (
      true,
      with_stats p (record p.stats { dropped_heartbeats = count p.stats.dropped_heartbeats }),
    )
    else check_auth p f

unfoldable pub next_new_order : Pipeline → Option Frame × Pipeline
next_new_order p =
    let (out, ring) = pop p.queues.new_orders in
    (out, record p { queues = record p.queues { new_orders = ring } })

unfoldable pub next_cancel : Pipeline → Option Frame × Pipeline
next_cancel p =
    let (out, ring) = pop p.queues.cancels in
    (out, record p { queues = record p.queues { cancels = ring } })

unfoldable pub next_replace : Pipeline → Option Frame × Pipeline
next_replace p =
    let (out, ring) = pop p.queues.replaces in
    (out, record p { queues = record p.queues { replaces = ring } })

unfoldable pub reset_stats : Pipeline → Pipeline
reset_stats p = with_stats p no_stats
