-- ===== src/Lib.antt =====
-- Verification of the execution core of Esscher: what may be entered, held and closed on the PAPER
-- account, and the records that show it.
--
-- The program's parts and their files. The risk ledger (src/esscher/risk/ledger.py) is one SQLite
-- database: candidates are frozen, an authorization reserves exposure and issues a permit in one
-- transaction, the permit's order is submitted and reconciled against the broker, and the reservation
-- is released when the position is flat. Each of these appends to a hash-linked passport
-- (src/esscher/risk/passport.py). The control states (src/esscher/risk/controls.py) say whether
-- entries and closes are allowed, after broker truth that must be fresh
-- (src/esscher/risk/snapshots.py). The lifecycle (src/esscher/lifecycle) tracks one position from
-- approval to flat: broker readbacks are reduced to states, and states change by a table. An opening
-- is authorized by a permit (src/esscher/execution/models.py) for one compiled expression
-- (src/esscher/execution/expression/compiler.py). The kernel (src/esscher/risk/kernel.py) is the
-- ledger's client: under a policy (src/esscher/risk/policy.py) and with the broker's truth it starts
-- up, freezes, authorizes entries and settles orders. Autonomous opportunities are sized against the
-- portfolio (src/esscher/autonomy/universe.py).
--
--   Base               shared helpers: lists, tests, signed integers, texts, results, JSON
--   Risk.Reasons       risk/reasons.py: control states, reject reasons, exceptions as values
--   Risk.Controls      risk/controls.py: next_control_state, entry_allowed, close_allowed
--   Risk.Checks        the argument checks at the head of risk/ledger.py
--   Risk.Snapshots     risk/snapshots.py: snapshots and the freshness checks
--   Risk.Passport      risk/passport.py: passport_event_sha256, and verify_passport twice: on the events
--                      that the ledger reads, and in Mappings on any mappings, with the type tests
--   Risk.Ledger        risk/ledger.py: Rows the tables, Monad the transactions, Queries the SELECTs,
--                      Passport, Candidates, Reservations, Orders, Authorize, Intents and Records the
--                      methods, Operations all writing methods as one type of calls; Keeps, Ensures
--                      and Holdings carry the proofs of Linked, Atomic, Separate, Forward, Single
--                      and Budget, and Issued and Settled those of two methods
--   Risk.Exposure      risk/exposure.py: the exposure of an expression, aggregates
--   Risk.Policy        risk/policy.py: the version 1 policy, its identity; Parse the strict parser
--   Risk.Kernel        risk/kernel.py under a version 1 policy: Truth the reads of the broker, Control
--                      triggers and startup, Binding and Permit the identities, Entry authorize_entry,
--                      Reconcile fills and flat positions, Calls the methods as one type of calls;
--                      Traced carries the proofs of Refines, over the calls of Risk.Ledger.Operations
--   Autonomy.Universe  autonomy/universe.py: allocate_defined_risk; Booked the books it fills
--   Lifecycle          lifecycle/reasons.py, states.py, reducer.py and the readbacks of broker.py
--   Lifecycle.Clocks   lifecycle/clocks.py: the exit plan; Parse the strict parser
--   Lifecycle.Orders   lifecycle/broker.py: order requests, their payload and its parser
--   Execution.Models   execution/models.py: the permit, its checks, payload and identifier
--   Execution.Expression
--                      execution/expression/compiler.py: the compiled expression and its identity
--   Tests              the theorems at concrete inputs
--
-- State and operations. A ledger is a record with one list of rows per table, in rowid order. A
-- method is a function from the ledger to a result (a value or the exception raised) and the ledger
-- it leaves; `transaction` restores the ledger that it began with when its body raises. A uniqueness
-- constraint that an INSERT would break is an exception too. An action keeps the function's name.
-- The methods of the ledger run one after the other: the database holds a write lock for each. A
-- method of the kernel is an action on the same ledger, since the ledger is all the state it changes;
-- each of its calls has its own truth source, whose methods return, return a value of another type,
-- or raise.
--
-- Conventions. `decimal.Decimal` is a finite whole number of units or a non-finite value, and sums are
-- exact, as they are in Python while a result fits the context's 28 digits. An instant is a number of
-- microseconds, a date its ISO text; `isinstance` tests have no counterpart, since an argument has its
-- type. JSON, SHA-256, `isoformat` and `str` of a decimal are the record `Base.Json.Host`, a parameter
-- of each definition that uses them; `IsJson` states what the passport relies on: an object that was
-- written is read back as one that is written the same. All recursion is on lists; no fuel is used.
--
-- Percentages of an equity are in hundredths of a unit. The strict policy parser also takes
-- `json.loads` with its pairs kept and `str`, the record `Risk.Policy.Parse.Reader`; `IsReader`
-- states that they read back what was written for an object without lists or objects in it. A
-- decimal of the policy is its value and its `str`, `Risk.Policy.Spellings`. The exit plan's parser
-- takes the reading of an ISO instant, an order request's the writing and reading of a price.
--
-- Not modelled: the version 2 reservations, the episode tables and the migrations of risk/ledger.py,
-- the version 2 policy and the kernel's version 2 methods, the scan of the universe, the lifecycle
-- worker and fake broker, the selection of expressions by the compiler, and the research,
-- data, transport and command-line parts.
pub mod Base
pub mod Execution
pub mod Risk
pub mod Lifecycle
pub mod Tests
pub mod Autonomy
