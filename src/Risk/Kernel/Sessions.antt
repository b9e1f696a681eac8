-- ===== src/Risk/Kernel/Sessions.antt =====
-- The limits of the policy over sessions of the kernel (src/esscher/risk/kernel.py).
use esscher_market.Base.{◌≤◌, true, List, [], ◌∷◌, all, and_split, arith, ◌≡◌, refl}
use esscher_market.Base.Json.{Host, IsJson}
use esscher_market.Base.{length}
use esscher_market.Base.Result.{ok}
use esscher_market.Risk.Passport.{PassportEvent, verify_passport}
use esscher_market.Risk.Ledger.Passport.{passport_events}
use esscher_market.Risk.Ledger.Linked.{passport_always_verifies}
use esscher_market.Risk.Policy.{RiskPolicy}
use esscher_market.Risk.Ledger.Rows.{Ledger, Reservation, empty}
use esscher_market.Risk.Ledger.Queries.{sum_open, count_open}
use esscher_market.Risk.Ledger.Holdings.{IsUnique}
use esscher_market.Risk.Ledger.Budget.Calls.{respects, exposure_within_limits}
use esscher_market.Risk.Ledger.Operations.{LedgerCall}
use esscher_market.Risk.Kernel.Calls.{KernelCall, run_all}
use esscher_market.Risk.Kernel.Refines.{is_kernel_call}
use esscher_market.Risk.Kernel.Refines.Methods.{kernel_refines_ledger}

module _ (host : Host) (policy : RiskPolicy) where
  kernel_call-respects :
      (call : LedgerCall)
      → is_kernel_call host policy call ≡ true
      → respects policy.aggregate_exposure_limit policy.max_open_expressions call ≡ true
  kernel_call-respects (LedgerCall.authorize r permit now) h = ground arith
  kernel_call-respects (LedgerCall.hold _ _ _ _) h = cc
  kernel_call-respects (LedgerCall.consume _ _) h = cc
  kernel_call-respects (LedgerCall.release _ _) h = cc
  kernel_call-respects (LedgerCall.add_permit _ _ _ _ _) h = cc
  kernel_call-respects (LedgerCall.move_permit _ _ _) h = cc
  kernel_call-respects _ h = refl

  all-respects :
      (calls : List LedgerCall)
      → all (is_kernel_call host policy) calls ≡ true
      → all (respects policy.aggregate_exposure_limit policy.max_open_expressions) calls ≡ true
  all-respects [] h = refl
  all-respects (call ∷ calls) h =
      let (this, others) = and_split (is_kernel_call host policy call) _ h in
      rw (kernel_call-respects call this) (all-respects calls others)

  -- After any session of the kernel under one policy on an empty ledger, failed calls and any truth
  -- source included, every event has one reservation at most, the open amounts sum to the policy's
  -- aggregate exposure limit at most, and no more expressions are open than the policy allows.
  pub kernel_exposure_within_limits :
      (calls : List KernelCall)
      → let rs : List Reservation = (run_all host policy calls empty).reservations in
        IsUnique rs
        × (sum_open rs ≤ policy.aggregate_exposure_limit)
        × (count_open rs ≤ policy.max_open_expressions)
  kernel_exposure_within_limits calls =
      let (ledger_calls, allowed, reached) = kernel_refines_ledger host policy calls empty in
      rw reached (
        exposure_within_limits host policy.aggregate_exposure_limit policy.max_open_expressions
          ledger_calls (all-respects ledger_calls allowed))

  -- After any session of the kernel on an empty ledger, failed calls included, the passport loads
  -- and `verify_passport` accepts it and counts every row, provided JSON parses back what it printed
  -- and prints equal nested texts equally.
  pub kernel_passport_verifies :
      IsJson host
      → (calls : List KernelCall)
      → let l : Ledger = run_all host policy calls empty in
        (es : List PassportEvent) × (passport_events host l ≡ ok es)
        × (verify_passport host es ≡ ok (length l.passport))
  kernel_passport_verifies json calls =
      let (ledger_calls, _, reached) = kernel_refines_ledger host policy calls empty in
      rw reached (passport_always_verifies host json ledger_calls)
