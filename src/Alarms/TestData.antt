-- ===== src/Alarms/TestData.antt =====
-- Alarms, rules and messages for the tests.
use microgrid_cloud.Prelude.{ℕ, suc, List, [], ◌∷◌, true, none, ℤ, pos}
use microgrid_cloud.Prelude.Exec.{World}
use microgrid_cloud.Alarms.Domain.{
  active, cleared, device, greater, greater_or_equal, Alarm, AlarmRule, AlarmRuleState,
  PointMapping, TelemetryReceived,
}
use microgrid_cloud.Alarms.Repository.{AlarmDb}
use microgrid_cloud.Alarms.Service.{Service}
use microgrid_cloud.Alarms.Calls.{Call, telemetry, acks, clears, lists}

abbrev pub service : Service
service = record { tenant_id = "home"; has_notifier = true }

-- Over 30 degrees, until 28.
abbrev pub heat : AlarmRule ℤ
heat = record {
  id = "heat";
  tenant_id = "home";
  station_id = "s1";
  name = "Heat";
  semantic = "temperature";
  operator = greater;
  threshold = pos 30;
  hysteresis = pos 2;
  duration_seconds = 0;
  severity = "high";
  enabled = true;
  created_at = 1;
  updated_at = 1;
}

abbrev pub slow_heat : AlarmRule ℤ
slow_heat = record heat { duration_seconds = 60 }

abbrev pub flat_heat : AlarmRule ℤ
flat_heat = record heat { operator = greater_or_equal; hysteresis = pos 0 }

abbrev pub probe : PointMapping ℤ
probe = record {
  id = "m1";
  station_id = "s1";
  device_id = "d1";
  point_key = "t";
  semantic = "temperature";
  unit = "C";
  factor = pos 1;
  created_at = 1;
  updated_at = 1;
}

abbrev pub message : ℤ → ℕ → TelemetryReceived ℤ
message value at = record {
  event_id = "e1";
  tenant_id = "home";
  station_id = "s1";
  device_id = "d1";
  points = record { point_key = "t"; value = value; quality = "good"; ts = 0 } ∷ [];
  occurred_at = at;
}

abbrev pub hot : Alarm ℤ
hot = record {
  id = "a1";
  tenant_id = "home";
  station_id = "s1";
  originator_type = device;
  originator_id = "d1";
  rule_id = "heat";
  status = active;
  start_at = 5;
  end_at = 0;
  last_value = pos 35;
  acked_at = 0;
  cleared_at = 0;
  created_at = 5;
  updated_at = 5;
}

abbrev pub old : Alarm ℤ
old = record hot { id = "a0"; status = cleared; start_at = 2; end_at = 4; created_at = 2 }

abbrev pub waiting : AlarmRuleState ℤ
waiting = record {
  tenant_id = "home";
  station_id = "s1";
  rule_id = "heat";
  originator_type = device;
  originator_id = "d1";
  pending_since = 3;
  last_value = pos 31;
  updated_at = 3;
}

abbrev pub tables : List (Alarm ℤ) → List (AlarmRuleState ℤ) → AlarmDb ℤ
tables alarms states = record {
  rules = heat ∷ [];
  mappings = probe ∷ [];
  alarms = alarms;
  states = states;
  notified = [];
}

abbrev pub ticks : ℕ → ℕ
ticks n = suc n

-- The first call of the database fails.
abbrev pub rough : World (AlarmDb ℤ)
rough = record { db = tables (old ∷ hot ∷ []) []; outcomes = true ∷ []; clock = ticks; reads = 6 }

abbrev pub day : List (Call ℤ)
day =
    acks "home" "a1"
    ∷ telemetry (λ samples. samples) (message (pos 33) 7)
    ∷ acks "home" "a1"
    ∷ telemetry (λ samples. samples) (message (pos 20) 9)
    ∷ clears "" "a1"
    ∷ lists "home" "s1" none 0 9
    ∷ []
