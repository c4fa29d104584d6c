-- ===== src/Commands/Calls.antt =====
-- Sequences of calls of the commands component: what holds of the table after any of them.
use microgrid_cloud.Prelude.{ℕ, String, List, [], ◌∷◌, Option, none, some}
use microgrid_cloud.Prelude.Platform.{Platform}
use microgrid_cloud.Prelude.Exec.{World, Result, ok, err, Keeps}
use microgrid_cloud.Prelude.Exec.Rules.{keeps_rules}
use microgrid_cloud.Prelude.Tables.{Grows-refl}
use microgrid_cloud.Commands.Domain.{Command, CommandIssued, CommandDb, Json, RpcResponse}
use microgrid_cloud.Commands.Service.{
  IssueRequest, issue_new, issue_found, issue_for, issue_command, list_commands, mark_timeouts,
}
use microgrid_cloud.Commands.Consumer.{
  publish_acked, publish_failed_event, give_up, confirm, handle_answer, handle_command_issued,
}
use microgrid_cloud.Commands.Safety.{
  Moves-refl, mark_timeout_before-Keeps, command_keeps, Evolves, Tracks, Unique, Moves,
}

-- The calls that reach the component: requests, the timeout scanner, and events from the bus with the
-- answer of the device platform.
pub data Call : Type 0 where
  issues : String → IssueRequest → Call
  lists : String → String → ℕ → ℕ → Call
  times_out : ℕ → Call
  consumes : Result String RpcResponse → CommandIssued → Call

module _ (platform : Platform) (json : Json) (event_ids : ℕ → String)
    (service_tenant : String) where
  unfoldable pub perform : Call → World CommandDb → World CommandDb
  perform (issues tenant req) w =
      (issue_command platform json event_ids service_tenant tenant req w).1
  perform (lists tenant station from to) w =
      (list_commands platform json event_ids service_tenant tenant station from to w).1
  perform (times_out before) w = (mark_timeouts platform json event_ids service_tenant before w).1
  perform (consumes answer evt) w = (handle_command_issued event_ids answer evt w).1

  unfoldable pub perform_all : List Call → World CommandDb → World CommandDb
  unfolding perform
  perform_all [] w = w
  perform_all (c ∷ cs) w = perform_all cs (perform c w)

  module _ (earlier : List Command) where
    issue_new-Keeps :
        (tenant key : String) (req : IssueRequest) (t : ℕ)
        → Keeps (Tracks earlier) (issue_new platform json event_ids service_tenant tenant key req t)
    unfolding issue_new
    issue_new-Keeps tenant key req t = search command_keeps

    issue_found-Keeps :
        (tenant key : String) (req : IssueRequest) (t : ℕ) (found : Option Command)
        → Keeps
            (Tracks earlier)
            (issue_found platform json event_ids service_tenant tenant key req t found)
    unfolding issue_found
    issue_found-Keeps tenant key req t none = issue_new-Keeps tenant key req t
    issue_found-Keeps tenant key req t (some c) = search keeps_rules

    issue_command-Keeps :
        (tenant : String) (req : IssueRequest)
        → Keeps (Tracks earlier) (issue_command platform json event_ids service_tenant tenant req)
    unfolding issue_command issue_for
    issue_command-Keeps tenant req = search (command_keeps, issue_found-Keeps) depth 8

    give_up-Keeps :
        (evt : CommandIssued) (message : String)
        → Keeps (Tracks earlier) (give_up event_ids evt message)
    unfolding give_up publish_failed_event
    give_up-Keeps evt message = search command_keeps depth 8

    confirm-Keeps : (evt : CommandIssued) (t : ℕ) → Keeps (Tracks earlier) (confirm event_ids evt t)
    unfolding confirm publish_acked
    confirm-Keeps evt t = search command_keeps depth 8

    handle_answer-Keeps :
        (evt : CommandIssued) (t : ℕ) (answer : Result String RpcResponse)
        → Keeps (Tracks earlier) (handle_answer event_ids evt t answer)
    unfolding handle_answer
    handle_answer-Keeps evt t (err message) = give_up-Keeps evt message
    handle_answer-Keeps evt t (ok resp) = search (keeps_rules, give_up-Keeps, confirm-Keeps)

    handle_command_issued-Keeps :
        (answer : Result String RpcResponse) (evt : CommandIssued)
        → Keeps (Tracks earlier) (handle_command_issued event_ids answer evt)
    unfolding handle_command_issued
    handle_command_issued-Keeps answer evt = search (command_keeps, handle_answer-Keeps)

    list_commands-Keeps :
        (tenant station : String) (from to : ℕ)
        → Keeps
            (Tracks earlier)
            (list_commands platform json event_ids service_tenant tenant station from to)
    unfolding list_commands
    list_commands-Keeps tenant station from to = search command_keeps

    perform-Keeps :
        (c : Call) (w : World CommandDb) → Tracks earlier w.db → Tracks earlier (perform c w).db
    unfolding perform mark_timeouts
    perform-Keeps (issues tenant req) w h = (issue_command-Keeps tenant req).at w h
    perform-Keeps (lists tenant station from to) w h =
        (list_commands-Keeps tenant station from to).at w h
    perform-Keeps (times_out before) w h = (mark_timeout_before-Keeps earlier before).at w h
    perform-Keeps (consumes answer evt) w h = (handle_command_issued-Keeps answer evt).at w h

    perform_all-Keeps :
        (cs : List Call) (w : World CommandDb)
        → Tracks earlier w.db
        → Tracks earlier (perform_all cs w).db
    unfolding perform_all
    perform_all-Keeps [] w h = h
    perform_all-Keeps (c ∷ cs) w h = perform_all-Keeps cs (perform c w) (perform-Keeps c w h)

  -- From a table in which no two commands have one id, any sequence of issues, listings, timeout
  -- scans and consumed events, whichever of their calls fail and whatever the device platform
  -- answers, leads to such a table, in which every earlier command still stands with its identity,
  -- payload, key and creation time, and none that was begun is created again.
  pub perform_all-Tracks :
      (cs : List Call) (w : World CommandDb)
      → Unique w.db.commands
      → Unique (perform_all cs w).db.commands × Evolves w.db.commands (perform_all cs w).db.commands
  perform_all-Tracks cs w u =
      perform_all-Keeps w.db.commands cs w (u, Grows-refl Moves Moves-refl w.db.commands)
