-- ===== src/Node/System/Starts.antt =====
-- A program that starts is in order.
use Prim.Native.Nat.{bit_and}
use mmperp.Prelude.{
  ℕ, zero, suc, ◌-◌, ◌%◌, ◌^◌, ◌≡◌, inl, inr, refl, sym, ◌∙◌, subst, Bool, true, false, ◌||◌, not,
  Option, none, some, ◌>>=◌, List, [], ◌∷◌, arith, Store, vacant, insert, ◌==◌, if◌then◌else◌,
}
use mmperp.Matcher.Types.{MarketShard}
use mmperp.Matcher.Engine.{Engine, or_new, add_market}
use mmperp.Node.Fills.{RestingOrderContext}
use mmperp.Node.Tracked.{IsTracked, found_shard}
use mmperp.Node.Tracked.Handlers.{IsInOrder}
use mmperp.Common.Ring.{Ring, new_ring, make_ring}
use mmperp.Common.Ring.Refine.{Represents, new_ring-Represents}
use mmperp.Ingress
use mmperp.Ingress.{Frame, FrameHeader, IngressConfig, Pipeline, configured}
use mmperp.Ingress.Arrivals.{InQueues}
use mmperp.Transport.Quic.{QuicTransport}
use mmperp.Matcher.Requests.{IsSoundEngine}
use mmperp.Matcher.Invariant.Stores.{none≢some}
use mmperp.Matcher.Requests.Soundness.{adds, step, step-IsSound}
use mmperp.Wal.Writer.{Writer, Opened, opened, refused, open_writer}
use mmperp.Wal.Appends.{append_all}
use mmperp.Config.{EngineConfig, MarketConfig}
use mmperp.Config.Parsing.{LoadResult}
use mmperp.Node.Start.{
  Environment, Engines, configure_one, configure_all, no_engines, Program, Started, started,
  bad_config, ingress_config, auth_verifier, chain_id_of, boot_chain, boot_log, boot_transport,
  boot_ingress, boot,
}
use mmperp.Node.System.Invariant.{IsWell}

-- What holds of the result if there is one.
abbrev IfSome {ℓ κ} : {A : Type ℓ} → (A → Type κ) → Option A → Type κ
IfSome P none = Unit
IfSome P (some a) = P a

abbrev IfStarted : (Program → Type 0) → Started → Type 0
IfStarted P (started p) = P p
IfStarted P _ = Unit

IfSome-bind {ℓ κ} :
    {A : Type ℓ} {B : Type κ} (P : A → Type 0) (Q : B → Type 0) (o : Option A) (k : A → Option B)
    → IfSome P o
    → ((a : A) → P a → IfSome Q (k a))
    → IfSome Q (o >>= k)
IfSome-bind P Q none k h step = tt
IfSome-bind P Q (some a) k h step = step a h

IsEmptyRing : Ring Frame → Type 0
IsEmptyRing r = Represents r []

IsEmptyRing-if :
    (b : Bool) (r : Ring Frame) → IsEmptyRing r → IfSome IsEmptyRing (if b then none else some r)
IsEmptyRing-if true r h = tt
IsEmptyRing-if false r h = h

make_ring-IsEmptyRing : (capacity : ℕ) → IfSome IsEmptyRing (make_ring capacity)
unfolding make_ring IsEmptyRing
make_ring-IsEmptyRing zero = tt
make_ring-IsEmptyRing (suc n) =
    IsEmptyRing-if (suc n == 0 || not (bit_and (suc n) (suc n - 1) == 0)) (new_ring (suc n))
      (new_ring-Represents (suc n) (omega arith))

IsFresh : Pipeline → Type 0
IsFresh p = InQueues p.queues [] [] []

configure-IsFresh :
    (c : IngressConfig) (v : Option (FrameHeader → List ℕ → Bool))
    → IfSome IsFresh (Ingress.configure c v)
unfolding Ingress.configure IsFresh IsEmptyRing
configure-IsFresh c v =
    IfSome-bind IsEmptyRing IsFresh (make_ring c.new_order_queue_depth) _
      (make_ring-IsEmptyRing c.new_order_queue_depth)
      (λ orders ho.
        IfSome-bind IsEmptyRing IsFresh (make_ring c.cancel_queue_depth) _
          (make_ring-IsEmptyRing c.cancel_queue_depth)
          (λ cancels hc.
            IfSome-bind IsEmptyRing IsFresh (make_ring c.replace_queue_depth) _
              (make_ring-IsEmptyRing c.replace_queue_depth) (λ replaces hr. (ho, hc, hr))))

configure_all-IsSoundEngine :
    (e : Engines) (markets : List MarketConfig)
    → IsSoundEngine e.matcher
    → IsSoundEngine (configure_all e markets).matcher
unfolding configure_all configure_one step
configure_all-IsSoundEngine e [] h = h
configure_all-IsSoundEngine e (m ∷ markets) h =
    configure_all-IsSoundEngine (configure_one e m) markets
      (step-IsSound e.matcher (adds (m.id % 2 ^ 16)) h)

-- No market has an order.
record IsBlank (e : Engines) : Type 0 where
  no_orders : (j : ℕ) (s : MarketShard) (k : ℕ) → e.matcher j ≡ some s → s.book_orders k ≡ none

no_orders-insert :
    (e : Engine) (d : ℕ)
    → ((j : ℕ) (s : MarketShard) (k : ℕ) → e j ≡ some s → s.book_orders k ≡ none)
    → (j : ℕ) (s : MarketShard) (k : ℕ) → insert d (or_new (e d)) e j ≡ some s
    → s.book_orders k ≡ none
no_orders-insert e d h j s k f = elim (found_shard e d j (or_new (e d)) s f) [
  | inl (_, same) ↦ subst (λ x. x.book_orders k ≡ none) same (blank (e d) refl)
  | inr (_, f') ↦ h j s k f'
]
  where
    blank : (o : Option MarketShard) → e d ≡ o → (or_new o).book_orders k ≡ none
    blank none g = refl
    blank (some t) g = h d t k g

configure_all-IsBlank :
    (e : Engines) (markets : List MarketConfig) → IsBlank e → IsBlank (configure_all e markets)
unfolding configure_all configure_one add_market
configure_all-IsBlank e [] h = h
configure_all-IsBlank e (m ∷ markets) h =
    configure_all-IsBlank (configure_one e m) markets
      (record { no_orders = no_orders-insert e.matcher (m.id % 2 ^ 16) h.no_orders })

no_engines-IsBlank : IsBlank no_engines
no_engines-IsBlank = record { no_orders = λ j s k f. absurd (none≢some s f) }

blank-IsTracked :
    (d : ℕ) (e : Engines) (resting : Store RestingOrderContext)
    → IsBlank e
    → IsTracked d e.matcher resting
blank-IsTracked d e resting h = record {
  in_market = λ j s k m f o. absurd (none≢some m (sym (h.no_orders j s k f) ∙ o));
  known = λ s f k m o. absurd (none≢some m (sym (h.no_orders d s k f) ∙ o));
}

-- A program whose log was opened, with nothing in its queues.
pub record IsReady (env : Environment) (threshold : ℕ) (p : Program) : Type 0 where
  pub well : IsWell p.node.wal [] [] p.node
  pub opens : open_writer env.log threshold ≡ opened p.node.wal
  pub tracks : IsInOrder p.node

module _ (env : Environment) (cfg : EngineConfig) where
  abbrev Ready : Started → Type 0
  Ready = IfStarted (IsReady env cfg.persistence.wal_flush_threshold)

  boot_chain-IsReady :
      (ingress : Pipeline) (transport : QuicTransport) (wal : Writer) (chain_id : Option ℕ)
      → IsFresh ingress
      → open_writer env.log cfg.persistence.wal_flush_threshold ≡ opened wal
      → Ready (boot_chain env cfg ingress transport wal chain_id)
  unfolding boot_chain IsFresh append_all
  boot_chain-IsReady ingress transport wal none h e = tt
  boot_chain-IsReady ingress transport wal (some chain_id) h e = record {
    well = record {
      orders = [];
      cancels = [];
      replaces = [];
      waiting = h;
      orders_lem = refl;
      cancels_lem = refl;
      replaces_lem = refl;
      wal_lem = refl;
      sound = configure_all-IsSoundEngine no_engines cfg.markets (λ m s t. absurd (none≢some s t));
      kinds = tt;
      block_fits = omega arith;
    };
    opens = e;
    tracks =
        blank-IsTracked _ _ vacant
          (configure_all-IsBlank no_engines cfg.markets no_engines-IsBlank);
  }

  boot_log-IsReady :
      (ingress : Pipeline) (transport : QuicTransport) (o : Opened)
      → IsFresh ingress
      → open_writer env.log cfg.persistence.wal_flush_threshold ≡ o
      → Ready (boot_log env cfg ingress transport o)
  unfolding boot_log
  boot_log-IsReady ingress transport (refused x) h e = tt
  boot_log-IsReady ingress transport (opened wal) h e =
      boot_chain-IsReady ingress transport wal (chain_id_of env.chain_id) h e

  boot_transport-IsReady :
      (ingress : Pipeline) (o : Option (Bool × QuicTransport))
      → IsFresh ingress
      → Ready (boot_transport env cfg ingress o)
  unfolding boot_transport
  boot_transport-IsReady ingress none h = tt
  boot_transport-IsReady ingress (some (false, transport)) h = tt
  boot_transport-IsReady ingress (some (true, transport)) h =
      boot_log-IsReady ingress transport _ h refl

  boot_ingress-IsReady : (o : Option Pipeline) → IfSome IsFresh o → Ready (boot_ingress env cfg o)
  unfolding boot_ingress
  boot_ingress-IsReady none h = tt
  boot_ingress-IsReady (some ingress) h = boot_transport-IsReady ingress _ h

Ready-if :
    (b : Bool) (env : Environment) (cfg : EngineConfig) (x : Started)
    → Ready env cfg x
    → Ready env cfg (if b then bad_config else x)
Ready-if true env cfg x h = tt
Ready-if false env cfg x h = h

-- A program that starts is ready.
pub boot-IsReady :
    (env : Environment) (loaded : LoadResult) (p : Program)
    → boot env loaded ≡ started p
    → IsReady env loaded.config.persistence.wal_flush_threshold p
unfolding boot
boot-IsReady env loaded p e =
    let verifier = some (auth_verifier env) in
    subst (Ready env loaded.config) e (
      Ready-if (not loaded.success) env loaded.config _ (
        boot_ingress-IsReady env loaded.config
          (Ingress.configure (ingress_config loaded.config) verifier)
          (configure-IsFresh (ingress_config loaded.config) verifier)))
