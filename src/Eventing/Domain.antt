-- ===== src/Eventing/Domain.antt =====
-- Envelopes and the tables of backend/migrations/005_eventing.sql. A table of the handlers' own,
-- `app`, stands for what the handlers write.
use microgrid_cloud.Prelude.{ℕ, String, List, Option}

-- `eventing/envelope.go`; the payload is the JSON of the event.
pub record Envelope : Type 0 where
  pub event_id : String
  pub event_type : String
  pub occurred_at : ℕ
  pub correlation_id : String
  pub tenant_id : String
  pub station_id : String
  pub schema_version : ℕ
  pub payload : String

-- Spelled "pending", "processing", "sent" and "failed".
pub data OutboxStatus : Type 0 where
  pending processing sent failed : OutboxStatus

pub record OutboxRow : Type 0 where
  pub id : String
  pub envelope : Envelope
  pub status : OutboxStatus
  pub attempts : ℕ
  pub created_at : ℕ
  pub sent_at : ℕ

-- What `ListPending` returns.
pub record OutboxRecord : Type 0 where
  pub id : String
  pub envelope : Envelope

pub record ProcessedEvent : Type 0 where
  pub event_id : String
  pub consumer_name : String
  pub processed_at : ℕ

pub record DeadLetter : Type 0 where
  pub event_id : String
  pub event_type : String
  pub payload : Envelope
  pub error : String
  pub first_seen_at : ℕ
  pub last_seen_at : ℕ
  pub attempts : ℕ

pub record EventDb (X : Type 0) : Type 0 where
  pub outbox : List OutboxRow
  pub processed : List ProcessedEvent
  pub dead_letters : List DeadLetter
  pub app : X

pub data EventError : Type 0 where
  db_failed invalid_arguments empty_event_id : EventError
  undecodable handler_failed : String → EventError

pub record DispatchResult : Type 0 where
  pub requested : ℕ
  pub claimed : ℕ
  pub sent_count : ℕ
  pub failed_count : ℕ
  pub dlq_count : ℕ
  pub first_error : Option EventError  -- the error that `Dispatch` returns beside the counts
