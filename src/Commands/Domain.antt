-- ===== src/Commands/Domain.antt =====
-- Commands and their events: backend/internal/commands/domain/command.go and
-- application/events/events.go.
use microgrid_cloud.Prelude.{ℕ, String, List, Bool}

-- Spelled "created", "sent", "acked", "failed" and "timeout".
pub data CommandStatus : Type 0 where
  created sent acked failed timeout : CommandStatus

pub CommandStatus-discrete : Discrete CommandStatus
CommandStatus-discrete = hlevel

-- The zero time and the empty text stand for NULL.
pub record Command : Type 0 where
  pub command_id : String
  pub tenant_id : String
  pub station_id : String
  pub device_id : String
  pub command_type : String
  pub payload : String
  pub idempotency_key : String
  pub status : CommandStatus
  pub created_at : ℕ
  pub sent_at : ℕ
  pub acked_at : ℕ
  pub error : String

pub record CommandIssued : Type 0 where
  pub event_id : String
  pub command_id : String
  pub tenant_id : String
  pub station_id : String
  pub device_id : String
  pub command_type : String
  pub payload : String
  pub idempotency_key : String
  pub occurred_at : ℕ

pub record CommandAcked : Type 0 where
  pub event_id : String
  pub command_id : String
  pub tenant_id : String
  pub station_id : String
  pub device_id : String
  pub occurred_at : ℕ

pub record CommandFailed : Type 0 where
  pub event_id : String
  pub command_id : String
  pub tenant_id : String
  pub station_id : String
  pub device_id : String
  pub error : String
  pub occurred_at : ℕ

pub data CommandEvent : Type 0 where
  issued : CommandIssued → CommandEvent
  acknowledged : CommandAcked → CommandEvent
  rejected : CommandFailed → CommandEvent

-- The table, and the events in the outbox, oldest first.
pub record CommandDb : Type 0 where
  pub commands : List Command
  pub published : List CommandEvent

pub data CommandError : Type 0 where
  db_failed publish_failed duplicate_id invalid_query : CommandError
  station_id_required device_id_required command_type_required invalid_payload : CommandError
  tenant_mismatch : CommandError

-- JSON as Go and the database read it: which texts are documents (`json.Valid`), and what a JSONB
-- column gives back for one. Nothing is assumed of it.
pub record Json : Type 0 where
  pub is_valid : String → Bool
  pub normalized : String → String

-- What the device platform answers to a call.
pub record RpcResponse : Type 0 where
  pub status : String
  pub error : String
