-- ===== src/Strategy/Engine.antt =====
-- The strategy engine, backend/internal/strategy/application/engine.go. It issues its commands with
-- the command service, on the tables of that service.
use microgrid_cloud.Prelude.{
  ℕ, ◌+◌, ◌*◌, String, ◌+++◌, List, [], ◌∷◌, Bool, false, not, ◌&&◌, ◌||◌, Option, none, some, ◌==◌,
  if◌then◌else◌, eqb, ltb, is_zero, Float64, day_start, hour_of, minute_of, one_hour, one_minute,
}
use microgrid_cloud.Prelude.Platform.{Platform}
use microgrid_cloud.Prelude.Exec.{
  Result, ok, err, pure, raise, caught, now as clock_now, ignore, ◌>>=◌, ◌>>◌,
}
use microgrid_cloud.Prelude.Exec.Zoom.{zoom}
use microgrid_cloud.Commands.Domain.{Json}
use microgrid_cloud.Commands.Service.{IssueRequest, IssueResponse, issue_command}
use microgrid_cloud.Strategy.Domain.{
  Strategy, Template, Calendar, Run, RunStatus, issued, no_action, error, StrategyDb, StrategyError,
  command_failed, template_not_found, missing_device_id, LatestValue, AntiBackflowParams, Decision,
  decided, broken, Numbers, mode_auto,
}
use microgrid_cloud.Strategy.Repository.{
  Act, get_calendar, get_template, insert_run, list_auto_enabled,
}
use microgrid_cloud.Strategy.Latest.{latest_semantic}

-- The window of a calendar row on the day of `now`.
unfoldable pub window_start : Calendar → ℕ → ℕ
window_start c now =
    day_start now + (hour_of c.start_time * one_hour + minute_of c.start_time * one_minute)

unfoldable pub window_end : Calendar → ℕ → ℕ
window_end c now =
    day_start now + (hour_of c.end_time * one_hour + minute_of c.end_time * one_minute)

unfoldable pub in_window : Calendar → ℕ → Bool
unfolding window_start window_end
in_window c now =
    if not c.enabled
    then false
    else if ltb (window_end c now) (window_start c now)
        || eqb (window_end c now) (window_start c now)
    then false
    else eqb now (window_start c now)
      || (ltb (window_start c now) now && ltb now (window_end c now))

unfoldable pub window_open : ℕ → Result StrategyError (Option Calendar) → Bool
unfolding in_window
window_open now (err e) = false
window_open now (ok none) = false
window_open now (ok (some c)) = in_window c now

module _ {V : Type 0} ⦃f : Float64 V⦄ ⦃n : Numbers V⦄ where
  unfoldable pub clamp : V → V → V → V
  clamp value min max =
      if f.lt value min then min else if f.lt max value then max else n.round_milli value

  -- The parameters of a template, with the defaults of the code. No text decodes to zeros, as where
  -- the code does not decode at all.
  unfoldable pub params_of : Template → AntiBackflowParams V
  params_of t =
      let p = n.decode t.params in
      record p {
        command_type = if p.command_type == "" then "setPower" else p.command_type;
        max_kw = if n.is_nil p.max_kw then n.default_max else p.max_kw;
      }

  unfoldable pub decision_of :
      Strategy → Template → AntiBackflowParams V → LatestValue V → Decision V
  decision_of item t p l = record {
    station_id = item.station_id;
    template_id = t.id;
    latest = l;
    params = p;
    mode = item.mode;
    error = none;
    target_kw = none;
    command_id = none;
  }

  unfoldable pub run_of : Strategy → ℕ → Decision V → RunStatus → String → Run V
  run_of item now d status command_id = record {
    strategy_id = item.station_id;
    ts = now;
    decision = decided d;
    command_id = command_id;
    status = status;
    created_at = 0;
  }

  module _ (platform : Platform) (json : Json) (event_ids : ℕ → String) (service_tenant : String)
      (context_tenant : String) (tenant_id : String) where
    unfoldable pub build_idem_key : String → ℕ → V → String
    build_idem_key station_id now target =
        "strategy:"
        +++ station_id
        +++ ":"
        +++ platform.format_minute now
        +++ ":"
        +++ n.format_milli target

    unfoldable pub request_for : Strategy → AntiBackflowParams V → V → ℕ → IssueRequest
    unfolding build_idem_key
    request_for item p target now = record {
      tenant_id = tenant_id;
      station_id = item.station_id;
      device_id = p.device_id;
      command_type = p.command_type;
      payload = n.power_payload target;
      idempotency_key = build_idem_key item.station_id now target;
    }

    -- `e.commands.IssueCommand`.
    unfoldable pub issue : IssueRequest → Act V IssueResponse
    issue req =
        zoom (λ (d : StrategyDb V). d.commands) (λ d c. record d { commands = c }) command_failed
          (issue_command platform json event_ids service_tenant context_tenant req)

    unfoldable pub record_issued :
        Strategy → ℕ → Decision V → Result StrategyError IssueResponse → Act V (Unit {0})
    unfolding run_of
    record_issued item now d (err e) =
        insert_run (run_of item now (record d { error = some e }) error "")
    record_issued item now d (ok resp) =
        insert_run
          (run_of item now (record d { command_id = some resp.command_id }) issued resp.command_id)

    unfoldable pub act_on :
        Strategy → Template → AntiBackflowParams V → ℕ → LatestValue V → Act V (Unit {0})
    unfolding decision_of run_of clamp request_for record_issued
    act_on item t p now l =
        let d = decision_of item t p l in
        let target = clamp l.value p.min_kw p.max_kw in
        if f.le l.value p.threshold_kw
        then insert_run (run_of item now d no_action "")
        else if p.device_id == ""
        then insert_run (run_of item now (record d { error = some missing_device_id }) error "")
        else (do
          r ← caught (issue (request_for item p target now))
          record_issued item now (record d { target_kw = some target }) r)

    unfoldable pub run_anti_backflow : Strategy → Template → ℕ → Act V (Unit {0})
    unfolding act_on params_of
    run_anti_backflow item t now = do
      l ← latest_semantic tenant_id item.station_id "grid_export_kw"
      act_on item t (params_of t) now l

    unfoldable pub run_template : Strategy → ℕ → Option Template → Act V (Unit {0})
    unfolding run_anti_backflow
    run_template item now none = raise template_not_found
    run_template item now (some t) =
        if t.type == "anti_backflow" then run_anti_backflow item t now else pure tt

    unfoldable pub evaluate : Strategy → ℕ → Act V (Unit {0})
    unfolding run_template window_open
    evaluate item now = if not (item.mode == mode_auto) || not item.enabled then pure tt else (do
      calendar ← caught (get_calendar item.station_id (day_start now))
      if window_open now calendar
          then (do t ← get_template item.template_id; run_template item now t)
          else pure tt)

    -- An evaluation that fails is written down as a run, if that succeeds.
    unfoldable pub settle_run : Strategy → ℕ → Result StrategyError (Unit {0}) → Act V (Unit {0})
    settle_run item now (ok x) = pure tt
    settle_run item now (err e) = ignore (
        insert_run (record {
          strategy_id = item.station_id;
          ts = now;
          decision = broken e;
          command_id = "";
          status = error;
          created_at = 0;
        }))

    unfoldable pub evaluate_all : List Strategy → ℕ → Act V (Unit {0})
    unfolding evaluate settle_run
    evaluate_all [] now = pure tt
    evaluate_all (item ∷ rest) now = do
      r ← caught (evaluate item now)
      settle_run item now r
      evaluate_all rest now

    unfoldable pub tick : ℕ → Act V (Unit {0})
    unfolding evaluate_all
    tick at = do
      t ← (if is_zero at then clock_now else pure at)
      strategies ← list_auto_enabled
      evaluate_all strategies t
