-- ===== src/Risk/Ledger/Budget.antt =====
-- The budgets of the reservations table under the calls that the kernel and the worker make.
pub mod Calls
use esscher_market.Base.{
  ℕ, ◌+◌, ◌≤◌, Bool, true, false, not, Option, none, some, List, [], ◌∷◌, ◌++◌, update, any, leb,
  ltb, arith, ◌≡◌, refl, find,
}
use esscher_market.Base.Int.{ℤ, pos, negsuc, leb_ℤ, Decimal, finite, non_finite}
use esscher_market.Base.Text.{Text, same}
use esscher_market.Base.Json.{Host}
use esscher_market.Base.Result.{ok}
use esscher_market.Execution.Models.{DebitVerticalPermit}
use esscher_market.Risk.Checks.{positive_limit, positive_int, amount}
use esscher_market.Risk.Ledger.Rows.{
  Reservation, ReservationState, reserved, consumed, released, Permit, Ledger, empty,
}
use esscher_market.Risk.Ledger.Queries.{of_event, is_open, sum_open, count_open}
use esscher_market.Risk.Ledger.Reservations.{owns_reserved, reservation_conflict}
use esscher_market.Risk.Ledger.Orders.{is_consumed_by}
use esscher_market.Risk.Ledger.Authorize.{Request, Order}
use esscher_market.Risk.Ledger.Holdings.{
  IsUnique, moved, IsUnique-append, IsUnique-update, sum_open-append, count_open-append,
  update-bounds, no_conflict-find,
}
use esscher_market.Risk.Ledger.Operations.{LedgerCall}

-- One reservation per event, at most `limit` units and at most `cap` rows open.
abbrev pub IsWithin : ℕ → ℕ → List Reservation → Type 0
IsWithin limit cap rs = IsUnique rs × (sum_open rs ≤ limit) × (count_open rs ≤ cap)

owned_row :
    (id : Text) (o : Option Reservation)
    → not (owns_reserved id o) ≡ false
    → (r : Reservation) × (o ≡ some r) × (is_open r.state ≡ true)
owned_row id none h = ground arith
owned_row id (some r) h = (r, refl, ground arith)

consumed_row :
    (e : Text) (p : Option Permit) (o : Option Reservation)
    → not (is_consumed_by e p o) ≡ false
    → (r : Reservation) × (o ≡ some r) × (is_open r.state ≡ true)
consumed_row e none o h = ground arith
consumed_row e (some p) none h = ground arith
consumed_row e (some p) (some r) h = (r, refl, ground arith)

module _ {limit cap : ℕ} where
  pub authorized-IsWithin :
      (rs : List Reservation) (row : Reservation) (aggregate most : ℕ)
      → IsWithin limit cap rs
      → (aggregate ≤ limit) × (most ≤ cap)
      → row.state ≡ reserved
      → leb most (count_open rs) ≡ false
      → ltb aggregate (sum_open rs + row.amount) ≡ false
      → not (any (reservation_conflict row) rs) ≡ true
      → IsWithin limit cap (rs ++ row ∷ [])
  authorized-IsWithin rs row aggregate most (u, s, c) (bounded, capped) open_row few fits fresh = (
    IsUnique-append row rs (no_conflict-find row rs (ground arith)) u,
    rw (sum_open-append row rs, open_row) (ground arith),
    rw (count_open-append row rs, open_row) (ground arith),
  )

  moved-IsWithin :
      (e : Text) (state : ReservationState) (now : ℕ) (rs : List Reservation)
      → (r : Reservation) × (find (of_event e) rs ≡ some r) × (is_open r.state ≡ true)
      → IsWithin limit cap rs
      → IsWithin limit cap (update (of_event e) (moved state now) rs)
  moved-IsWithin e state now rs (r, found, open_row) (u, s, c) =
      let (s', c') = update-bounds e state now rs r found open_row u in
      (IsUnique-update e state now rs u, omega (arith, s, s'), omega (arith, c, c'))

  pub settled-IsWithin :
      (e : Text) (state : ReservationState) (now : ℕ) (rs : List Reservation) (id : Text)
      → not (owns_reserved id (find (of_event e) rs)) ≡ false
      → IsWithin limit cap rs
      → IsWithin limit cap (update (of_event e) (moved state now) rs)
  settled-IsWithin e state now rs id owned w =
      moved-IsWithin e state now rs (owned_row id (find (of_event e) rs) owned) w

  pub flat-IsWithin :
      (e : Text) (state : ReservationState) (now : ℕ) (rs : List Reservation) (p : Option Permit)
      → not (is_consumed_by e p (find (of_event e) rs)) ≡ false
      → IsWithin limit cap rs
      → IsWithin limit cap (update (of_event e) (moved state now) rs)
  flat-IsWithin e state now rs p owned w =
      moved-IsWithin e state now rs (consumed_row e p (find (of_event e) rs) owned) w
