-- ===== src/Notices/Tests.antt =====
-- The theorems on the notifier at concrete events.
use microgrid_cloud.Prelude.{◌*◌, List, [], ◌∷◌, any_where, true, false, some, ◌≡◌, refl, ℤ, pos}
use microgrid_cloud.Prelude.Exec.{World}
use microgrid_cloud.Prelude.TestPlatform.{test_platform}
use microgrid_cloud.Alarms.Domain.{active, cleared, device, greater, AlarmRule, Alarm, AlarmEvent}
use microgrid_cloud.Notices.Domain.{NoticeDb, Options, Texts, Decimals}
use microgrid_cloud.Notices.Message.{severity_at_least}
use microgrid_cloud.Notices.Notifier.{run_escalation}
use microgrid_cloud.Notices.Spacing.{
  Spaced, Step, told, fires, closes, perform_all, perform_all-Spaced,
}
use microgrid_cloud.Notices.Escalation.{run_escalation_quiet}

instance abbrev texts : Texts
texts = record { to_lower = λ t. t; trim_space = λ t. t; render = λ t. some t.status }

instance abbrev decimals : Decimals ℤ
decimals = record { format_float = λ v. "1.00" }

abbrev options : Options ℤ
options = record {
  escalation = 50;
  cooldown = 10;
  dedupe_window = 30;
  has_stations = true;
  report_url = λ a rule station. "";
}

abbrev heat : AlarmRule ℤ
heat = record {
  id = "r1";
  tenant_id = "home";
  station_id = "s1";
  name = "heat";
  semantic = "temperature";
  operator = greater;
  threshold = pos 30;
  hysteresis = pos 2;
  duration_seconds = 0;
  severity = "high";
  enabled = true;
  created_at = 1;
  updated_at = 1;
}

abbrev hot : Alarm ℤ
hot = record {
  id = "a1";
  tenant_id = "home";
  station_id = "s1";
  originator_type = device;
  originator_id = "d1";
  rule_id = "r1";
  status = active;
  start_at = 3;
  end_at = 0;
  last_value = pos 40;
  acked_at = 0;
  cleared_at = 0;
  created_at = 4;
  updated_at = 4;
}

abbrev tables : List (Alarm ℤ) → NoticeDb ℤ
tables alarms = record {
  alarm_tables = record {
    rules = heat ∷ [];
    mappings = [];
    alarms = alarms;
    states = [];
    notified = [];
  };
  stations = [];
  sent = [];
  timers = [];
  delivered = [];
}

-- The second call fails, and each reading of the clock is seven later.
abbrev world : List (Alarm ℤ) → World (NoticeDb ℤ)
world alarms = record {
  db = tables alarms;
  outcomes = false ∷ true ∷ [];
  clock = λ n. n * 7;
  reads = 1;
}

abbrev raised : AlarmEvent ℤ
raised = record { event_type = active; alarm = hot }

abbrev steps : List (Step ℤ)
steps = told raised ∷ told raised ∷ told raised ∷ fires "a1" ∷ closes ∷ []

perform_all-Spaced_example :
    Spaced test_platform options
      (perform_all test_platform options steps (world (hot ∷ []))).db.delivered
perform_all-Spaced_example =
    perform_all-Spaced test_platform options steps (world (hot ∷ [])) refl refl

abbrev over : Alarm ℤ
over = record hot { status = cleared }

run_escalation_quiet_example :
    (run_escalation test_platform options "a1" (world (over ∷ []))).1.db.delivered ≡ []
unfolding severity_at_least any_where
run_escalation_quiet_example =
    run_escalation_quiet test_platform options (tables (over ∷ [])) "a1" (world (over ∷ [])) refl
      refl
