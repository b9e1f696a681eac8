-- ===== src/Risk/Ledger/Rows.antt =====
-- The rows of the SQLite tables and the ledger as a value (the schema at the head of
-- src/esscher/risk/ledger.py). A time column is the instant that its text stands for, an amount
-- column the number of units of its decimal text; a table lists its rows in rowid order.
use esscher_market.Base.{ℕ, Option, none, List, []}
use esscher_market.Base.Int.{ℤ}
use esscher_market.Base.Text.{Text}
use esscher_market.Risk.Reasons.{ControlState}

pub record Candidate : Type 0 where
  pub event_id : Text
  pub candidate_id : Text
  pub policy_sha256 : Text
  pub decision_sha256 : Text
  pub expression_sha256 : Text
  pub evidence_mode : Text
  pub created_at : ℕ

pub data ReservationState : Type 0 where
  reserved consumed released : ReservationState

pub record Reservation : Type 0 where
  pub reservation_id : Text
  pub event_id : Text
  pub amount : ℕ
  pub state : ReservationState
  pub underlying : Text
  pub created_at : ℕ
  pub updated_at : ℕ

pub data PermitState : Type 0 where
  issued submitted filled cancelled : PermitState

pub record Permit : Type 0 where
  pub permit_id : Text
  pub event_id : Text
  pub reservation_id : Text
  pub permit_sha256 : Text
  pub state : PermitState
  pub created_at : ℕ
  pub updated_at : ℕ

pub record Submission : Type 0 where
  pub permit_id : Text
  pub event_id : Text
  pub broker_order_id : Text
  pub submitted_at : ℕ

pub record Fill : Type 0 where
  pub fill_id : Text
  pub permit_id : Text
  pub event_id : Text
  pub quantity : ℕ
  pub status : Text
  pub observed_at : ℕ

pub record NotRun : Type 0 where
  pub event_id : Text
  pub reason : Text
  pub created_at : ℕ

pub data IntentState : Type 0 where
  intended submitted reconciled : IntentState

pub record LifecycleIntent : Type 0 where
  pub permit_id : Text
  pub phase : Text
  pub event_id : Text
  pub open_permit_id : Text
  pub reservation_id : Text
  pub correlation_sha256 : Text
  pub policy_sha256 : Text
  pub snapshot_sha256 : Text
  pub account_id : Text
  pub account_class : Text
  pub order_class : Text
  pub client_order_id : Text
  pub request_sha256 : Text
  pub request_json : Text
  pub broker_order_id : Option Text
  pub state : IntentState
  pub created_at : ℕ
  pub updated_at : ℕ

-- The payload column holds the payload's canonical JSON.
pub record PassportRow : Type 0 where
  pub event_type : Text
  pub payload : Text
  pub prev_sha256 : Text
  pub event_sha256 : Text
  pub created_at : Text

pub record AccountRow : Type 0 where
  pub equity : ℤ
  pub observed_at : ℕ

pub record PositionRow : Type 0 where
  pub underlying : Text
  pub quantity : ℤ
  pub observed_at : ℕ

pub record Reconciliation : Type 0 where
  pub reconciliation_id : Text
  pub result : Text
  pub detail : Option Text
  pub paper_pnl : Option Text
  pub shadow_pnl : Option Text
  pub observed_at : ℕ

-- The one row of `control_state`.
pub record ControlRow : Type 0 where
  pub state : ControlState
  pub reason : Option Text
  pub updated_at : ℕ

-- The database.
pub record Ledger : Type 0 where
  pub candidates : List Candidate
  pub reservations : List Reservation
  pub permits : List Permit
  pub submissions : List Submission
  pub fills : List Fill
  pub not_run : List NotRun
  pub intents : List LifecycleIntent
  pub passport : List PassportRow
  pub accounts : List AccountRow
  pub positions : List PositionRow
  pub reconciliations : List Reconciliation
  pub control : Option ControlRow

-- A migrated database with no rows.
abbrev pub empty : Ledger
empty = record {
  candidates = [];
  reservations = [];
  permits = [];
  submissions = [];
  fills = [];
  not_run = [];
  intents = [];
  passport = [];
  accounts = [];
  positions = [];
  reconciliations = [];
  control = none;
}
