-- ===== src/Config/Verdicts.antt =====
-- The checks of a configuration say whether it is valid.
use mmperp.Prelude.{
  ℕ, suc, ◌^◌, ◌≤◌, ◌<◌, ◌≡◌, ◌≢◌, ◌↔◌, refl, Bool, true, false, List, [], ◌∷◌, ◌++◌, arith,
  All-append, All, ltb, ◌==◌, if◌then◌else◌, is_nil, or_default,
}
use mmperp.Prelude.Int.{ℤ, pos, ◌≤ℤ◌, ◌<ℤ◌, ltb_ℤ, leb_ℤ}
use mmperp.Prelude.Texts.{codes}
use mmperp.Api.{to_decimal}
use mmperp.Config.{EngineConfig, MarketConfig, Toml}
use mmperp.Config.Validation.{
  ValidationError, Check, report, market_checks, markets_checks, engine_checks, validate,
}
use mmperp.Config.Parsing.{
  LoadResult, ParseResult, parsed, parse_error, or_default_market, read_markets, parse_markets,
  parse_config, load_parsed, load_from_string,
}

abbrev pub IsValidMarket : MarketConfig → Type 0
IsValidMarket m =
    (0 < m.id)
    × (pos 0 <ℤ m.risk.contract_size)
    × (pos 0 <ℤ m.risk.initial_margin_basis_points)
    × (pos 0 <ℤ m.risk.maintenance_margin_basis_points)
    × (m.risk.maintenance_margin_basis_points ≤ℤ m.risk.initial_margin_basis_points)
    × (pos 0 <ℤ m.funding.max_rate_basis_points)

abbrev pub IsValid : EngineConfig → Type 0
IsValid c =
    (c.transport.endpoint ≢ [])
    × (0 < c.ingress.max_new_orders_per_second)
    × (2 ^ 16 ≤ c.matcher.arena_bytes)
    × (c.persistence.wal_path ≢ [])
    × (c.persistence.snapshot_dir ≢ [])
    × All IsValidMarket c.markets

abbrev Passes : Check → Type 0
Passes c = c.broken ≡ false

report_none : (checks : List Check) → All Passes checks → report checks ≡ []
unfolding report
report_none [] h = refl
report_none (c ∷ checks) (h, hs) = rw h (report_none checks hs)

reported :
    (b : Bool) (e : ValidationError) (es : List ValidationError)
    → (if b then e ∷ es else es) ≡ []
    → (b ≡ false) × (es ≡ [])
reported true e es h = absurd cc
reported false e es h = (refl, h)

report-Passes : (checks : List Check) → report checks ≡ [] → All Passes checks
unfolding report
report-Passes [] h = tt
report-Passes (c ∷ checks) h =
    let (passes, later) = reported c.broken c.error (report checks) h in
    (passes, report-Passes checks later)

zero_test : (n : ℕ) → ((n == 0) ≡ false) ↔ (0 < n)
zero_test n = ((λ h. ground arith), λ h. ground arith)

below_test : (n k : ℕ) → (ltb n k ≡ false) ↔ (k ≤ n)
below_test n k = ((λ h. ground arith), λ h. ground arith)

positive_test : (z : ℤ) → (leb_ℤ z (pos 0) ≡ false) ↔ (pos 0 <ℤ z)
positive_test z = ((λ h. ground arith), λ h. ground arith)

order_test : (a b : ℤ) → (ltb_ℤ a b ≡ false) ↔ (b ≤ℤ a)
order_test a b = ((λ h. ground arith), λ h. ground arith)

text_test : (t : List ℕ) → (is_nil t ≡ false) ↔ (t ≢ [])
text_test [] = ((λ h. absurd cc), λ h. absurd (h refl))
text_test (c ∷ cs) = ((λ h e. absurd cc), λ h. refl)

market-Passes :
    (prefix : List ℕ) (m : MarketConfig) → All Passes (market_checks prefix m) ↔ IsValidMarket m
market-Passes prefix m =
    let r = m.risk in
    let id = zero_test m.id in
    let size = positive_test r.contract_size in
    let initial = positive_test r.initial_margin_basis_points in
    let maintenance = positive_test r.maintenance_margin_basis_points in
    let order = order_test r.initial_margin_basis_points r.maintenance_margin_basis_points in
    let rate = positive_test m.funding.max_rate_basis_points in
    (
      (λ (a, (b, (c, (d, (e, (f, t)))))).
          (id.0 a, size.0 b, initial.0 c, maintenance.0 d, order.0 e, rate.0 f)),
      λ (a, b, c, d, e, f).
          (id.1 a, (size.1 b, (initial.1 c, (maintenance.1 d, (order.1 e, (rate.1 f, tt)))))),
    )

All-parts : (xs ys : List Check) → All Passes (xs ++ ys) → All Passes xs × All Passes ys
All-parts [] ys h = (tt, h)
All-parts (x ∷ xs) ys (h, hs) = let (l, r) = All-parts xs ys hs in ((h, l), r)

markets-Passes :
    (i : ℕ) (markets : List MarketConfig)
    → All Passes (markets_checks i markets) ↔ All IsValidMarket markets
unfolding markets_checks
markets-Passes i [] = ((λ h. tt), λ h. tt)
markets-Passes i (m ∷ markets) =
    let prefix = codes "markets[" ++ (to_decimal i ++ codes "]") in
    let one = market-Passes prefix m in
    let later = markets-Passes (suc i) markets in
    (
      (λ h.
          let (a, b) = All-parts (market_checks prefix m) (markets_checks (suc i) markets) h in
          (one.0 a, later.0 b)),
      λ (a, b).
          All-append Passes (market_checks prefix m) (markets_checks (suc i) markets) (one.1 a)
            (later.1 b),
    )

-- The checks of a configuration report no error exactly if its texts are not empty, its order rate is
-- positive, its arena has 64 KB, and every market has a positive id, contract size, margins and rate,
-- and a maintenance margin that is not above the initial one.
pub validate-IsValid : (c : EngineConfig) → (validate c ≡ []) ↔ IsValid c
unfolding validate
validate-IsValid c =
    let endpoint = text_test c.transport.endpoint in
    let rate = zero_test c.ingress.max_new_orders_per_second in
    let arena = below_test c.matcher.arena_bytes (2 ^ 16) in
    let wal = text_test c.persistence.wal_path in
    let dir = text_test c.persistence.snapshot_dir in
    let markets = markets-Passes 0 c.markets in
    (
      (λ h.
          let ((a, (b, (k, (d, (e, t))))), f) =
            All-parts (engine_checks c) (markets_checks 0 c.markets)
              (report-Passes (engine_checks c ++ markets_checks 0 c.markets) h) in
          (endpoint.0 a, rate.0 b, arena.0 k, wal.0 d, dir.0 e, markets.0 f)),
      λ (a, b, k, d, e, f). report_none (engine_checks c ++ markets_checks 0 c.markets) (
          All-append Passes (engine_checks c) (markets_checks 0 c.markets)
            (endpoint.1 a, (rate.1 b, (arena.1 k, (wal.1 d, (dir.1 e, tt))))) (markets.1 f)),
    )

nil_test : (es : List ValidationError) → is_nil es ≡ true → es ≡ []
nil_test [] h = refl
nil_test (e ∷ es) h = absurd cc

some_market :
    {Table : Type 0} (toml : Toml Table) (ms : List MarketConfig) → or_default_market toml ms ≢ []
some_market toml [] h = absurd cc
some_market toml (m ∷ ms) h = absurd cc

abbrev pub Loads : {Table : Type 0} → Toml Table → ParseResult Table → LoadResult → Type 0
Loads {Table} toml outcome result =
    (root : Table) × (outcome ≡ parsed root)
    × (result.config ≡ parse_config toml root)
    × IsValid result.config
    × (result.config.markets ≢ [])

load_parsed-Loads :
    {Table : Type 0} (toml : Toml Table) (outcome : ParseResult Table)
    → (load_parsed toml outcome).success ≡ true
    → Loads toml outcome (load_parsed toml outcome)
unfolding load_parsed
load_parsed-Loads toml (parse_error message) h = absurd cc
load_parsed-Loads toml (parsed root) h =
    let c = parse_config toml root in
    (
      root,
      refl,
      refl,
      (validate-IsValid c).0 (nil_test (validate c) h),
      unfold parse_config parse_markets in
          some_market toml
            (read_markets toml (or_default [] (toml.as_array root (codes "markets")))),
    )

-- A text that is loaded with success was parsed, and the configuration is the one read from it. It is
-- valid, and has a market.
pub load_from_string-Loads :
    {Table : Type 0} (toml : Toml Table) (parse : List ℕ → ParseResult Table) (content : List ℕ)
    → (load_from_string toml parse content).success ≡ true
    → Loads toml (parse content) (load_from_string toml parse content)
unfolding load_from_string
load_from_string-Loads toml parse content h = load_parsed-Loads toml (parse content) h
