-- ===== src/Prelude/Maps.antt =====
-- A hash map that the program never iterates over is a function from keys to optional values.
use Prim.Native.Nat.{ℕ}
use mathlib.Core.Path.{◌≡◌}
use mathlib.Core.Logic.{◌≢◌}
use mathlib.Core.Option.{Option, none, some}
use native.Mathlib.Omega.{arith}
use mmperp.Prelude.Tests.{◌==◌, if◌then◌else◌}

abbrev pub Store {ℓ} : Type ℓ → Type ℓ
Store V = ℕ → Option V

module _ {ℓ} {V : Type ℓ} where
  abbrev pub vacant : Store V
  vacant k = none

  unfoldable pub insert : ℕ → V → Store V → Store V
  insert k v s j = if j == k then some v else s j

  unfoldable pub erase : ℕ → Store V → Store V
  erase k s j = if j == k then none else s j

  pub insert_self : (k : ℕ) (v : V) (s : Store V) → insert k v s k ≡ some v
  unfolding insert
  insert_self k v s = ground arith

  pub insert_ne : (k j : ℕ) (v : V) (s : Store V) → j ≢ k → insert k v s j ≡ s j
  unfolding insert
  insert_ne k j v s h = ground arith

  pub erase_self : (k : ℕ) (s : Store V) → erase k s k ≡ none
  unfolding erase
  erase_self k s = ground arith

  pub erase_ne : (k j : ℕ) (s : Store V) → j ≢ k → erase k s j ≡ s j
  unfolding erase
  erase_ne k j s h = ground arith
