-- ===== src/Ledger.antt =====
-- libs/ledger/src/ledger_state.cpp: the collateral of each session.
mod Totals
mod Tests
use mmperp.Prelude.{ℕ, Option, some, none, Store, insert}
use mmperp.Prelude.Int.{ℤ, pos, ◌+ℤ◌, ◌-ℤ◌}

pub record LedgerAccount : Type 0 where
  pub collateral_available : ℤ
  pub collateral_locked : ℤ

abbrev pub empty_account : LedgerAccount
empty_account = record { collateral_available = pos 0; collateral_locked = pos 0 }

abbrev pub LedgerState : Type 0
LedgerState = Store LedgerAccount

abbrev or_empty : Option LedgerAccount → LedgerAccount
or_empty none = empty_account
or_empty (some a) = a

unfoldable pub get : LedgerState → ℕ → LedgerAccount
get l session = or_empty (l session)

unfoldable pub credit : LedgerState → ℕ → ℤ → LedgerState
credit l session amount =
    let a = get l session in
    insert session (record a { collateral_available = a.collateral_available +ℤ amount }) l

unfoldable pub debit : LedgerState → ℕ → ℤ → LedgerState
debit l session amount =
    let a = get l session in
    insert session
      (record a {
        collateral_available = a.collateral_available -ℤ amount;
        collateral_locked = a.collateral_locked +ℤ amount;
      })
      l
