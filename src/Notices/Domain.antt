-- ===== src/Notices/Domain.antt =====
-- What the notifier of backend/internal/alarms/notify/notifier.go keeps and reads, with the station of
-- backend/internal/masterdata/domain/station.go.
use microgrid_cloud.Prelude.{ℕ, String, List, Bool, Option}
use microgrid_cloud.Alarms.Domain.{AlarmRule, Alarm}
use microgrid_cloud.Alarms.Repository.{AlarmDb, AlarmError}

pub record Station : Type 0 where
  pub id : String
  pub tenant_id : String
  pub name : String
  pub timezone : String
  pub station_type : String
  pub region : String
  pub tb_asset_id : String
  pub tb_tenant_id : String
  pub created_at : ℕ
  pub updated_at : ℕ

pub record TemplateData : Type 0 where
  pub station : String
  pub station_id : String
  pub rule : String
  pub rule_id : String
  pub trigger_value : String
  pub threshold : String
  pub start_time : String
  pub status : String
  pub status_code : String
  pub severity : String
  pub suggestion : String
  pub report_url : String
  pub event : String
  pub event_label : String

pub record SendRecord : Type 0 where
  pub at : ℕ
  pub hash : String

-- A message that the channel took: its key and hash, the reading of the clock by which it was allowed
-- (zero where none is made), and the one at which it was recorded as sent.
pub record Delivery : Type 0 where
  pub key : String
  pub content : String
  pub hash : String
  pub checked_at : ℕ
  pub recorded_at : ℕ

-- The tables that are read, the maps of the notifier, and the messages, newest first. A timer is
-- there under the id of its alarm, with the time at which it fires.
pub record NoticeDb (V : Type 0) : Type 0 where
  pub alarm_tables : AlarmDb V
  pub stations : List Station
  pub sent : List (String × SendRecord)
  pub timers : List (String × ℕ)
  pub delivered : List Delivery

pub data NoticeError : Type 0 where
  db_failed invalid_query empty_id render_failed send_failed : NoticeError
  alarm_failed : AlarmError → NoticeError

-- The options of the notifier; a duration that is not set is zero. A resolver that is not set is one
-- that gives no text.
pub record Options (V : Type 0) : Type 0 where
  pub escalation : ℕ
  pub cooldown : ℕ
  pub dedupe_window : ℕ
  pub has_stations : Bool
  pub report_url : Alarm V → Option (AlarmRule V) → Option Station → String

-- What the code calls of Go's standard library: `strings.ToLower`, `strings.TrimSpace`, the execution
-- of the template, which may fail, and the format "%.2f". Nothing is assumed of it.
pub record Texts : Type 0 where
  pub to_lower : String → String
  pub trim_space : String → String
  pub render : TemplateData → Option String

pub record Decimals (V : Type 0) : Type 0 where
  pub format_float : V → String
