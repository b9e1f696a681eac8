-- ===== src/Risk/Ledger/Records.antt =====
-- Snapshots, reconciliation records and the control state (src/esscher/risk/ledger.py).
use esscher_market.Base.{
  ℕ, ◌/◌, not, Option, none, some, List, [], ◌∷◌, ◌++◌, any, filter, ◌==◌, if◌then◌else◌,
}
use esscher_market.Base.Int.{ℤ, pos, Decimal, ltb_ℤ}
use esscher_market.Base.Text.{Text, text, same}
use esscher_market.Base.Json.{Fields, Host}
use esscher_market.Risk.Reasons.{ControlState, entry_disabled}
use esscher_market.Risk.Checks.{identifier, underlying, finite_decimal}
use esscher_market.Risk.Passport.{control_state_changed}
use esscher_market.Risk.Ledger.Rows.{AccountRow, Reconciliation, Ledger}
use esscher_market.Risk.Ledger.Monad.{
  Action, gets, modify, constraint, check, ◌>>=◌, ◌>>◌, transaction, unhandled,
}
use esscher_market.Risk.Ledger.Passport.{append_passport}
use esscher_market.Risk.Ledger.Queries.{day}

-- `INSERT OR REPLACE INTO positions`: the row with this primary key goes, the new one is added.
unfoldable pub record_position : Text → Decimal → ℕ → Action (Unit {0})
record_position underlying_name quantity observed_at = do
  symbol ← check (underlying underlying_name)
  value ← check (finite_decimal quantity)
  modify (λ l. record l {
    positions =
        filter (λ p. not (same p.underlying symbol)) l.positions
        ++ record { underlying = symbol; quantity = value; observed_at = observed_at } ∷ [];
  })

-- `record_reconciliation`, whose insert is its own transaction.
unfoldable pub record_reconciliation : Reconciliation → Action (Unit {0})
record_reconciliation row = do
  check (identifier row.reconciliation_id)
  check (identifier row.result)
  constraint (
      not (
        any (λ r. same r.reconciliation_id row.reconciliation_id)
          (← gets (λ l. l.reconciliations))))
  modify (λ l. record l { reconciliations = l.reconciliations ++ row ∷ [] })

unfoldable pub record_account_snapshot : Decimal → ℕ → Action (Unit {0})
record_account_snapshot equity now = do
  value ← check (finite_decimal equity)
  modify
      (λ l. record l { accounts = l.accounts ++ record { equity = value; observed_at = now } ∷ [] })

-- One step of the loop of `intraday_peak_equity`.
abbrev pub peak_of : Option ℤ → ℤ → Option ℤ
peak_of none value = some value
peak_of (some peak) value = if ltb_ℤ peak value then some value else some peak

-- The loop over the rows of the day of `now`.
unfoldable pub peak_from : ℕ → Option ℤ → List AccountRow → Option ℤ
peak_from now peak [] = peak
peak_from now peak (row ∷ rest) =
    peak_from now (if (row.observed_at / day) == (now / day) then peak_of peak row.equity else peak)
      rest

-- `Decimal(0) if peak is None else peak`.
abbrev pub or_zero : Option ℤ → ℤ
or_zero none = pos 0
or_zero (some peak) = peak

unfoldable pub intraday_peak_equity : ℕ → Ledger → ℤ
unfolding peak_from
intraday_peak_equity now l = or_zero (peak_from now none l.accounts)

-- `set_control_state`: `INSERT OR REPLACE` of the one row.
unfoldable pub set_control_state : ControlState → Option Text → ℕ → Action (Unit {0})
set_control_state state reason now =
    modify (λ l. record l {
      control = some (record { state = state; reason = reason; updated_at = now });
    })

module _ (host : Host) where
  unfoldable pub set_control_body : ControlState → Option Text → Fields → ℕ → Action (Unit {0})
  unfolding set_control_state
  set_control_body state reason payload now = do
    set_control_state state reason now
    append_passport host control_state_changed payload now

  unfoldable pub set_control_state_with_passport :
      ControlState → Option Text → Fields → ℕ → Action (Unit {0})
  set_control_state_with_passport state reason payload now =
      transaction unhandled (set_control_body state reason payload now)

-- `get_control_state`: with no row stored, entries are disabled until a startup reconciliation.
unfoldable pub get_control_state : Ledger → ControlState × Option Text
get_control_state l = elim l.control [
  | none ↦ (entry_disabled, some (text "startup reconciliation is required"))
  | some row ↦ (row.state, row.reason)
]
