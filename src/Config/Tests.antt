-- ===== src/Config/Tests.antt =====
-- A library of documents that have one number each, under every key.
use mmperp.Prelude.{ℕ, ◌≡◌, ◌↔◌, refl, none, some, List, [], ◌∷◌}
use mmperp.Prelude.Int.{ℤ, pos}
use mmperp.Common.Bytes.{to_word}
use mmperp.Config.{Toml, EngineConfig, default_engine, default_market_config}
use mmperp.Config.Validation.{validate}
use mmperp.Config.Parsing.{ParseResult, parsed, load_from_string}
use mmperp.Config.Verdicts.{IsValid, validate-IsValid, Loads, load_from_string-Loads}

abbrev numbers : Toml ℤ
numbers = record {
  as_table = λ t key. some t;
  as_array = λ t key. some (some t ∷ none ∷ []);
  int_value = λ t key. some t;
  text_value = λ t key. none;
  bool_value = λ t key. none;
}

abbrev parse : List ℕ → ParseResult ℤ
parse content = parsed (pos 65537)

load_from_string-Loads_example : Loads numbers (parse []) (load_from_string numbers parse [])
unfolding load_from_string to_word
load_from_string-Loads_example = load_from_string-Loads numbers parse [] refl

abbrev one_market : EngineConfig
one_market = record default_engine { markets = default_market_config ∷ [] }

validate-IsValid_example : (validate one_market ≡ []) ↔ IsValid one_market
validate-IsValid_example = validate-IsValid one_market
